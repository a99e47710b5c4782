-- ===== src/Control/Migration.antt =====
-- crates/osproxy-control/src/migration.rs: the controller that drives a partition through its phases.
-- A method that reads the clock takes the instant that it read. The methods of one controller run one
-- after another, and nobody else writes to the store between two awaits of one method.
pub mod Store
pub mod Calls
pub mod Barrier
pub mod Table
use opensearch_proxy.Prelude.{
  ◌-◌, Bool, true, false, Option, none, some, Result, ok, err, nat_eq, list_eq, ltb, if◌then◌else◌,
  [],
}
use opensearch_proxy.Prelude.Map
use opensearch_proxy.Prelude.Map.{Entries}
use opensearch_proxy.Core.Ids.{PartitionId, Epoch}
use opensearch_proxy.Core.Time.{Instant, Duration, saturating_duration_since}
use opensearch_proxy.Spi.Placement.{Placement}
use opensearch_proxy.Tenancy.Migration.{
  PartitionState, active, migrating, draining, cutover, MigrationError,
}
use Store.{MigrationStore}

abbrev pub default_drain_barrier : Duration
default_drain_barrier = 30_000_000_000

pub data ControlError : Type 0 where
  transition : MigrationError → ControlError
  barrier_pending : Duration → ControlError

pub record ControlPlane (S : Type 0) : Type 0 where
  pub store : S
  pub barrier : Duration
  pub cutover_at : Entries PartitionId Instant

abbrev pub new : {S : Type 0} → S → ControlPlane S
new s = record { store = s; barrier = default_drain_barrier; cutover_at = [] }

-- the `matches!` of `complete_migration`
abbrev pub in_cutover : Option (PartitionState × Epoch) → Bool
in_cutover (some (migrating _ _ cutover, _)) = true
in_cutover (some (migrating _ _ draining, _)) = false
in_cutover (some (active _, _)) = false
in_cutover none = false

-- `entry(p).or_insert(now)`: the instant, and the map
abbrev pub started_at :
    PartitionId
    → Instant
    → Entries PartitionId Instant
    → Option Instant
    → Instant × Entries PartitionId Instant
started_at p now m (some started) = (started, m)
started_at p now m none = (now, Map.insert p now m)

module _ {S : Type 0} (ops : MigrationStore S) where
  abbrev pub begun :
      ControlPlane S → S × Result Epoch MigrationError → ControlPlane S × Result Epoch ControlError
  begun cp (s, ok e) = (record cp { store = s }, ok e)
  begun cp (s, err why) = (record cp { store = s }, err (transition why))

  unfoldable pub begin_migration :
      PartitionId → Placement → ControlPlane S → ControlPlane S × Result Epoch ControlError
  begin_migration p to cp = begun cp (ops.begin_migration p to cp.store)

  abbrev pub entered :
      PartitionId
      → Instant
      → ControlPlane S
      → S × Result Epoch MigrationError
      → ControlPlane S × Result Epoch ControlError
  entered p now cp (s, ok e) =
      (record cp { store = s; cutover_at = Map.insert p now cp.cutover_at }, ok e)
  entered p now cp (s, err why) = (record cp { store = s }, err (transition why))

  unfoldable pub enter_cutover :
      PartitionId → Instant → ControlPlane S → ControlPlane S × Result Epoch ControlError
  enter_cutover p now cp = entered p now cp (ops.enter_cutover p cp.store)

  -- the end of `complete_migration` and of `abort_migration`
  abbrev pub closed :
      PartitionId
      → ControlPlane S
      → S × Result Epoch MigrationError
      → ControlPlane S × Result Epoch ControlError
  closed p cp (s, ok e) = (record cp { store = s; cutover_at = Map.remove p cp.cutover_at }, ok e)
  closed p cp (s, err why) = (record cp { store = s }, err (transition why))

  unfoldable pub complete_migration :
      PartitionId → Instant → ControlPlane S → ControlPlane S × Result Epoch ControlError
  complete_migration p now cp =
      let finish : ControlPlane S × Result Epoch ControlError =
        closed p cp (ops.complete_migration p cp.store) in
      let (started, m) = started_at p now cp.cutover_at (Map.get p cp.cutover_at) in
      let timed : ControlPlane S = record cp { cutover_at = m } in
      let elapsed = saturating_duration_since now started in
      if in_cutover (ops.state cp.store p)
      then (if ltb elapsed cp.barrier
          then (timed, err (barrier_pending (cp.barrier - elapsed)))
          else closed p timed (ops.complete_migration p cp.store))
      else finish

  unfoldable pub abort_migration :
      PartitionId → ControlPlane S → ControlPlane S × Result Epoch ControlError
  abort_migration p cp = closed p cp (ops.abort_migration p cp.store)

  unfoldable pub state : ControlPlane S → PartitionId → Option (PartitionState × Epoch)
  state cp p = ops.state cp.store p
