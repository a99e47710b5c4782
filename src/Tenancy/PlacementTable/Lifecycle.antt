-- ===== src/Tenancy/PlacementTable/Lifecycle.antt =====
-- crates/osproxy-tenancy/src/placement_table.rs: which transitions a table makes, what they answer,
-- and what readers and writers see in each phase of a migration.
use opensearch_proxy.Prelude.{
  ◌+◌, ◌<◌, ◌≡◌, ap, ◌∙◌, ◌≢◌, ◌⊎◌, inl, inr, refl, Option, none, some, Result, ok, err, ◌==◌,
  nat_eq, list_eq, arith, eq_refl, eq_false_of_ne, if◌then◌else◌,
}
use opensearch_proxy.Prelude.Map
use opensearch_proxy.Core.Ids.{PartitionId, Epoch, u64_mod}
use opensearch_proxy.Spi.Placement.{
  Placement, MigrationPhase, PlacementAt, placement_at, with_phase, settled,
}
use opensearch_proxy.Tenancy.Migration.{
  MigrationError, unknown_partition, already_migrating, not_migrating, not_draining, not_cutover,
  admit, reject, PartitionState, active, migrating, Phase, draining, cutover,
}
use opensearch_proxy.Tenancy.PlacementTable.{
  PlacementTable, Entry, next_epoch, stamp, commit, transition_of, begin_step, cutover_step,
  complete_step, abort_step, set, begin_migration, enter_cutover, complete_migration,
  abort_migration, get, get_of, admit_write, admit_of,
}
use opensearch_proxy.Tenancy.PlacementTable.Operations.{
  Operation, setting, beginning, entering, completing, aborting, target, run, run-cases, get-stamp,
}

-- What the caller of an operation is told.
unfoldable pub outcome : Operation → PlacementTable → Result Epoch MigrationError
unfolding set begin_migration enter_cutover complete_migration abort_migration
outcome (setting p placement) t = ok (set p placement t).1
outcome (beginning p to) t = (begin_migration p to t).1
outcome (entering p) t = (enter_cutover p t).1
outcome (completing p) t = (complete_migration p t).1
outcome (aborting p) t = (abort_migration p t).1

-- The state machine of docs/06: the state of the operation's partition before, and after.
pub data Allowed : Operation → Option PartitionState → PartitionState → Type 0 where
  placed :
      (p : PartitionId) (placement : Placement) (before : Option PartitionState)
      → Allowed (setting p placement) before (active placement)
  begun :
      (p : PartitionId) (from to : Placement)
      → Allowed (beginning p to) (some (active from)) (migrating from to draining)
  entered :
      (p : PartitionId) (from to : Placement)
      → Allowed (entering p) (some (migrating from to draining)) (migrating from to cutover)
  completed :
      (p : PartitionId) (from to : Placement)
      → Allowed (completing p) (some (migrating from to cutover)) (active to)
  aborted :
      (p : PartitionId) (from to : Placement) (phase : Phase)
      → Allowed (aborting p) (some (migrating from to phase)) (active from)

abbrev pub state_of : Option Entry → Option PartitionState
state_of none = none
state_of (some e) = some e.state

abbrev pub state_at : PlacementTable → PartitionId → Option PartitionState
state_at t p = state_of (Map.get p t.entries)

-- Either the operation is allowed: it stamps the partition with the new state and answers the new
-- epoch. Or it is refused: the table is as it was.
abbrev pub Verdict :
    Operation
    → PlacementTable
    → Option PartitionState
    → PlacementTable × Result Epoch MigrationError
    → Type 0
Verdict op t before r =
    ((s : PartitionState) × Allowed op before s
      × (r.0 ≡ stamp t (target op) s)
      × (r.1 ≡ ok (next_epoch t)))
    ⊎ ((why : MigrationError) × (r.0 ≡ t) × (r.1 ≡ err why))

begin-Verdict :
    (p : PartitionId) (to : Placement) (t : PlacementTable) (s : PartitionState)
    → Verdict (beginning p to) t (some s) (commit t p (begin_step to s))
begin-Verdict p to t (active from) = inl (migrating from to draining, begun p from to, refl, refl)
begin-Verdict p to t (migrating _ _ _) = inr (already_migrating, refl, refl)

cutover-Verdict :
    (p : PartitionId) (t : PlacementTable) (s : PartitionState)
    → Verdict (entering p) t (some s) (commit t p (cutover_step s))
cutover-Verdict p t (migrating from to draining) =
    inl (migrating from to cutover, entered p from to, refl, refl)
cutover-Verdict p t (migrating _ _ cutover) = inr (not_draining, refl, refl)
cutover-Verdict p t (active _) = inr (not_migrating, refl, refl)

complete-Verdict :
    (p : PartitionId) (t : PlacementTable) (s : PartitionState)
    → Verdict (completing p) t (some s) (commit t p (complete_step s))
complete-Verdict p t (migrating from to cutover) = inl (active to, completed p from to, refl, refl)
complete-Verdict p t (migrating _ _ draining) = inr (not_cutover, refl, refl)
complete-Verdict p t (active _) = inr (not_migrating, refl, refl)

abort-Verdict :
    (p : PartitionId) (t : PlacementTable) (s : PartitionState)
    → Verdict (aborting p) t (some s) (commit t p (abort_step s))
abort-Verdict p t (migrating from to phase) = inl (active from, aborted p from to phase, refl, refl)
abort-Verdict p t (active _) = inr (not_migrating, refl, refl)

transition-Verdict :
    (op : Operation) (t : PlacementTable)
    (f : PartitionState → Result PartitionState MigrationError)
    → ((s : PartitionState) → Verdict op t (some s) (commit t (target op) (f s)))
    → (o : Option Entry) → Verdict op t (state_of o) (transition_of t (target op) f o)
transition-Verdict op t f each none = inr (unknown_partition, refl, refl)
transition-Verdict op t f each (some e) = each e.state

-- Every operation on every table either makes a step of the state machine, stamps its partition
-- with the result and answers the new epoch, or answers an error and leaves the table as it was.
pub accepted_or_refused :
    (op : Operation) (t : PlacementTable)
    → Verdict op t (state_at t (target op)) (run op t, outcome op t)
unfolding run outcome
accepted_or_refused (setting p placement) t =
    inl (active placement, placed p placement _, refl, refl)
accepted_or_refused (beginning p to) t =
    transition-Verdict (beginning p to) t (begin_step to) (begin-Verdict p to t)
      (Map.get p t.entries)
accepted_or_refused (entering p) t =
    transition-Verdict (entering p) t cutover_step (cutover-Verdict p t) (Map.get p t.entries)
accepted_or_refused (completing p) t =
    transition-Verdict (completing p) t complete_step (complete-Verdict p t) (Map.get p t.entries)
accepted_or_refused (aborting p) t =
    transition-Verdict (aborting p) t abort_step (abort-Verdict p t) (Map.get p t.entries)

-- The two answers of an allowed step: the table it leaves, and the epoch.
abbrev pub Applied : Operation → PlacementTable → PartitionState → Type 0
Applied op t s = (run op t ≡ stamp t (target op) s) × (outcome op t ≡ ok (next_epoch t))

allowed-Applied :
    (op : Operation) (t : PlacementTable) (before : Option PartitionState) (s : PartitionState)
    → Allowed op before s
    → state_at t (target op) ≡ before
    → Applied op t s
unfolding run outcome
allowed-Applied op t before s (placed p placement b) h = (refl, refl)
allowed-Applied op t before s (begun p from to) h = ground arith
allowed-Applied op t before s (entered p from to) h = ground arith
allowed-Applied op t before s (completed p from to) h = ground arith
allowed-Applied op t before s (aborted p from to phase) h = ground arith

-- Every step that the state machine allows from the partition's state is made: the operation stamps
-- the partition with that state and answers the new epoch.
pub allowed_accepted :
    (op : Operation) (t : PlacementTable) (s : PartitionState)
    → Allowed op (state_at t (target op)) s
    → Applied op t s
allowed_accepted op t s a = allowed-Applied op t (state_at t (target op)) s a refl

-- What readers see.
abbrev pub seen : Placement → Epoch → MigrationPhase → PlacementAt
seen placement e phase = with_phase (placement_at placement e) phase

abbrev pub stamped_at : PartitionState → Epoch → Option Entry
stamped_at s e = some (record { state = s; epoch = e })

module _ (t : PlacementTable) (p : PartitionId) (s : PartitionState) where
  pub entry-stamp_self : Map.get p (stamp t p s).entries ≡ stamped_at s (next_epoch t)
  entry-stamp_self =
      get-stamp t p p s
      ∙ ap (λ b. if b then stamped_at s (next_epoch t) else Map.get p t.entries) (eq_refl p)

  state_at-stamp_self : state_at (stamp t p s) p ≡ some s
  state_at-stamp_self = ap state_of entry-stamp_self

pub entry-run_ne :
    (op : Operation) (t : PlacementTable) (q : PartitionId)
    → target op ≢ q
    → Map.get q (run op t).entries ≡ Map.get q t.entries
entry-run_ne op t q ne = elim (run-cases op t) [
  | inl same ↦ rw same
  | inr (s, stamped) ↦ rw stamped (
      get-stamp t (target op) q s
      ∙ ap (λ b. if b then stamped_at s (next_epoch t) else Map.get q t.entries)
          (eq_false_of_ne (target op) q ne))
]

-- An operation on one partition changes nothing that readers or writers of another see.
pub other_partitions_untouched :
    (op : Operation) (t : PlacementTable) (q : PartitionId) (epoch : Epoch)
    → target op ≢ q
    → (get (run op t) q ≡ get t q) × (admit_write (run op t) q epoch ≡ admit_write t q epoch)
unfolding get admit_write
other_partitions_untouched op t q epoch ne =
    (ap get_of (entry-run_ne op t q ne), ap (admit_of epoch) (entry-run_ne op t q ne))

-- A step that the state machine allows, as the next operation finds it.
abbrev Arrived : Operation → PlacementTable → PartitionState → Epoch → Type 0
Arrived op t s e =
    (Map.get (target op) (run op t).entries ≡ stamped_at s e) × ((run op t).generation ≡ e)

arrive :
    (op : Operation) (t : PlacementTable) (before : Option PartitionState) (s : PartitionState)
    (e : Epoch)
    → Allowed op before s
    → state_at t (target op) ≡ before
    → t.generation + 1 ≡ e
    → e < u64_mod
    → Arrived op t s e
arrive op t before s e a now same room =
    let stamped = (allowed-Applied op t before s a now).0 in
    let fresh : next_epoch t ≡ e = omega arith in
    rw stamped (entry-stamp_self t (target op) s ∙ ap (stamped_at s) fresh, fresh)

-- From a partition that is settled at `from`, after beginning a migration to `to`: reads and writes
-- stay at `from` while it drains; in the cutover window reads stay at `from` and every write is
-- rejected, whatever its epoch; after completion both go to `to`; an abort in the window goes back
-- to `from`. The epochs are the next three, if the counter does not wrap around.
pub migration_lifecycle :
    (t : PlacementTable) (p : PartitionId) (from to : Placement) (epoch : Epoch)
    → state_at t p ≡ some (active from)
    → t.generation + 3 < u64_mod
    → let drained = run (beginning p to) t in
      let held = run (entering p) drained in
      let flipped = run (completing p) held in
      let back = run (aborting p) held in
      (get drained p ≡ some (seen from (t.generation + 1) MigrationPhase.draining))
      × (admit_write drained p (t.generation + 1) ≡ admit)
      × (get held p ≡ some (seen from (t.generation + 2) MigrationPhase.cutover))
      × (admit_write held p epoch ≡ reject)
      × (get flipped p ≡ some (seen to (t.generation + 3) settled))
      × (admit_write flipped p (t.generation + 3) ≡ admit)
      × (get back p ≡ some (seen from (t.generation + 3) settled))
unfolding get get_of admit_write admit_of
migration_lifecycle t p from to epoch settled_at room =
    let drained = run (beginning p to) t in
    let held = run (entering p) drained in
    let (e1, g1) =
      arrive (beginning p to) t _ _ (t.generation + 1) (begun p from to) settled_at refl
        (omega arith) in
    let (e2, g2) =
      arrive (entering p) drained _ _ (t.generation + 2) (entered p from to) (ap state_of e1)
        (omega arith) (omega arith) in
    let (e3, _) =
      arrive (completing p) held _ _ (t.generation + 3) (completed p from to) (ap state_of e2)
        (omega arith) room in
    let (e4, _) =
      arrive (aborting p) held _ _ (t.generation + 3) (aborted p from to cutover) (ap state_of e2)
        (omega arith) room in
    (
      ap get_of e1,
      ap (admit_of (t.generation + 1)) e1 ∙ admit_same (t.generation + 1),
      ap get_of e2,
      ap (admit_of epoch) e2,
      ap get_of e3,
      ap (admit_of (t.generation + 3)) e3 ∙ admit_same (t.generation + 3),
      ap get_of e4,
    )
  where
    admit_same : (e : Epoch) → (if e == e then admit else reject) ≡ admit
    admit_same e = rw (eq_refl e)
