-- ===== src/Tenancy/PlacementTable.antt =====
-- crates/osproxy-tenancy/src/placement_table.rs: the epoch-versioned map from partition to
-- placement. Each method is one function on the table, and `&self` methods that change the table return
-- the new one. A transition runs in one critical section of the lock. `set` draws its epoch before it
-- takes the lock; sequences of operations take its two accesses together, so an insertion whose epoch
-- is older than one that another call has stamped meanwhile is left out. Epochs are unique either way.
pub mod Operations
pub mod Gate
pub mod Lifecycle
use opensearch_proxy.Prelude.{
  ◌+◌, ◌%◌, Bool, true, false, ◌&&◌, Option, none, some, [], Result, ok, err, ◌==◌, nat_eq, list_eq,
  is_some, if◌then◌else◌,
}
use opensearch_proxy.Prelude.Map
use opensearch_proxy.Prelude.Map.{Entries}
use opensearch_proxy.Core.Ids.{PartitionId, Epoch, u64_mod}
use opensearch_proxy.Spi.Placement.{
  Placement, MigrationPhase, settled, PlacementAt, placement_at, with_phase,
}
use opensearch_proxy.Tenancy.Migration.{
  Phase, draining, cutover, PartitionState, active, migrating, read_placement, write_placement,
  WriteAdmission, admit, reject, MigrationError, unknown_partition, already_migrating,
  not_migrating, not_draining, not_cutover,
}

unfoldable pub migration_phase : PartitionState → MigrationPhase
migration_phase (active _) = settled
migration_phase (migrating _ _ draining) = MigrationPhase.draining
migration_phase (migrating _ _ cutover) = MigrationPhase.cutover

pub record Entry : Type 0 where
  pub state : PartitionState
  pub epoch : Epoch

pub record PlacementTable : Type 0 where
  pub entries : Entries PartitionId Entry
  pub generation : Epoch

abbrev pub new : PlacementTable
new = record { entries = []; generation = 0 }

-- `fetch_add(1) + 1` on an `AtomicU64`, which wraps around.
abbrev pub next_epoch : PlacementTable → Epoch
next_epoch t = (t.generation + 1) % u64_mod

-- The counter is advanced and the entry stamped with it.
abbrev pub stamp : PlacementTable → PartitionId → PartitionState → PlacementTable
stamp t p s = record {
  entries = Map.insert p (record { state = s; epoch = next_epoch t }) t.entries;
  generation = next_epoch t;
}

-- The two accesses of `set`: the counter, and then the entries under the lock.
abbrev pub drawn : PlacementTable → PlacementTable × Epoch
drawn t = (record t { generation = next_epoch t }, next_epoch t)

abbrev pub insert_active : PartitionId → Placement → Epoch → PlacementTable → PlacementTable
insert_active p placement epoch t = record t {
  entries = Map.insert p (record { state = active placement; epoch = epoch }) t.entries;
}

unfoldable pub set : PartitionId → Placement → PlacementTable → PlacementTable × Epoch
set p placement t = let (t, epoch) = drawn t in (insert_active p placement epoch t, epoch)

-- The end of `transition`: an inapplicable step leaves the table as it was.
abbrev pub commit :
    PlacementTable
    → PartitionId
    → Result PartitionState MigrationError
    → PlacementTable × Result Epoch MigrationError
commit t p (err why) = (t, err why)
commit t p (ok next) = (stamp t p next, ok (next_epoch t))

abbrev pub transition_of :
    PlacementTable
    → PartitionId
    → (PartitionState → Result PartitionState MigrationError)
    → Option Entry
    → PlacementTable × Result Epoch MigrationError
transition_of t p f none = (t, err unknown_partition)
transition_of t p f (some e) = commit t p (f e.state)

abbrev pub transition :
    PartitionId
    → (PartitionState → Result PartitionState MigrationError)
    → PlacementTable
    → PlacementTable × Result Epoch MigrationError
transition p f t = transition_of t p f (Map.get p t.entries)

abbrev pub begin_step : Placement → PartitionState → Result PartitionState MigrationError
begin_step to (active from) = ok (migrating from to draining)
begin_step to (migrating _ _ _) = err already_migrating

unfoldable pub begin_migration :
    PartitionId → Placement → PlacementTable → PlacementTable × Result Epoch MigrationError
begin_migration p to = transition p (begin_step to)

abbrev pub cutover_step : PartitionState → Result PartitionState MigrationError
cutover_step (migrating from to draining) = ok (migrating from to cutover)
cutover_step (migrating _ _ cutover) = err not_draining
cutover_step (active _) = err not_migrating

unfoldable pub enter_cutover :
    PartitionId → PlacementTable → PlacementTable × Result Epoch MigrationError
enter_cutover p = transition p cutover_step

abbrev pub complete_step : PartitionState → Result PartitionState MigrationError
complete_step (migrating _ to cutover) = ok (active to)
complete_step (migrating _ _ draining) = err not_cutover
complete_step (active _) = err not_migrating

unfoldable pub complete_migration :
    PartitionId → PlacementTable → PlacementTable × Result Epoch MigrationError
complete_migration p = transition p complete_step

abbrev pub abort_step : PartitionState → Result PartitionState MigrationError
abort_step (migrating from _ _) = ok (active from)
abort_step (active _) = err not_migrating

unfoldable pub abort_migration :
    PartitionId → PlacementTable → PlacementTable × Result Epoch MigrationError
abort_migration p = transition p abort_step

unfoldable pub answer : Option Entry → Option (PartitionState × Epoch)
answer none = none
answer (some e) = some (e.state, e.epoch)

unfoldable pub state : PlacementTable → PartitionId → Option (PartitionState × Epoch)
state t p = answer (Map.get p t.entries)

unfoldable pub get_of : Option Entry → Option PlacementAt
unfolding read_placement migration_phase
get_of none = none
get_of (some e) =
    some (with_phase (placement_at (read_placement e.state) e.epoch) (migration_phase e.state))

unfoldable pub get : PlacementTable → PartitionId → Option PlacementAt
get t p = get_of (Map.get p t.entries)

-- the closure of `is_some_and`
unfoldable pub may_commit : Epoch → Option Entry → Bool
unfolding write_placement
may_commit epoch none = false
may_commit epoch (some e) = is_some (write_placement e.state) && (e.epoch == epoch)

unfoldable pub admit_of : Epoch → Option Entry → WriteAdmission
unfolding may_commit
admit_of epoch o = if may_commit epoch o then admit else reject

unfoldable pub admit_write : PlacementTable → PartitionId → Epoch → WriteAdmission
admit_write t p epoch = admit_of epoch (Map.get p t.entries)

unfoldable pub current_epoch : PlacementTable → Epoch
current_epoch t = t.generation
