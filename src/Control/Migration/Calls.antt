-- ===== src/Control/Migration/Calls.antt =====
-- crates/osproxy-control/src/migration.rs: calls to one controller, on any partitions, and the
-- instants at which barriers were started.
use opensearch_proxy.Prelude.{
  ◌+◌, ◌≤◌, ◌<◌, ◌≡◌, ◌≢◌, ◌∙◌, inl, inr, ap, none, some, List, [], ◌∷◌, ◌==◌, nat_eq, list_eq,
  if◌then◌else◌, eq_false_of_ne, Bool-cases,
}
use opensearch_proxy.Prelude.Map
use opensearch_proxy.Prelude.Map.{Entries, get-insert, get-remove}
use opensearch_proxy.Core.Ids.{PartitionId, Epoch}
use opensearch_proxy.Core.Time.{Instant, Duration}
use opensearch_proxy.Spi.Placement.{Placement}
use opensearch_proxy.Tenancy.Migration.{migrating, cutover}
use opensearch_proxy.Control.Migration.Store.{MigrationStore}
use opensearch_proxy.Control.Migration.{
  ControlPlane, begin_migration, enter_cutover, complete_migration, abort_migration,
}

-- The calls, with the instants that they read.
pub data Call : Type 0 where
  beginning : PartitionId → Placement → Call
  entering completing : PartitionId → Instant → Call
  aborting : PartitionId → Call

module _ {S : Type 0} (ops : MigrationStore S) where
  unfoldable pub run : Call → ControlPlane S → ControlPlane S
  run (beginning q to) cp = (begin_migration ops q to cp).0
  run (entering q now) cp = (enter_cutover ops q now cp).0
  run (completing q now) cp = (complete_migration ops q now cp).0
  run (aborting q) cp = (abort_migration ops q cp).0

  unfoldable pub run_all : List Call → ControlPlane S → ControlPlane S
  run_all [] cp = cp
  run_all (c ∷ cs) cp = run_all cs (run c cp)

  -- The partition is in the cutover window.
  abbrev pub InWindow : PartitionId → S → Type 0
  InWindow p s =
      (from : Placement) × (dest : Placement) × (e : Epoch) × (ops.state s p
        ≡ some (migrating from dest cutover, e))

-- Its barrier was started at `t0` or later.
abbrev pub IsStarted : PartitionId → Instant → Entries PartitionId Instant → Type 0
IsStarted p t0 m = (started : Instant) × (Map.get p m ≡ some started) × (t0 ≤ started)

-- The call is made before the barrier of `p` elapses, at an instant from `t0` on, and is no abort
-- of `p`.
abbrev pub IsWithin : PartitionId → Instant → Duration → Call → Type 0
IsWithin p t0 barrier (beginning q to) = Unit
IsWithin p t0 barrier (entering q now) = t0 ≤ now
IsWithin p t0 barrier (completing q now) = (t0 ≤ now) × (now < t0 + barrier)
IsWithin p t0 barrier (aborting q) = q ≢ p

pub IsStarted-insert :
    (p q : PartitionId) (t0 now : Instant) (m : Entries PartitionId Instant)
    → t0 ≤ now
    → IsStarted p t0 m
    → IsStarted p t0 (Map.insert q now m)
IsStarted-insert p q t0 now m le (started, found, after) = elim (Bool-cases (q == p)) [
  | inl same ↦ (now, get-insert q p now m ∙ ap (λ b. if b then some now else Map.get p m) same, le)
  | inr other ↦ (
    started,
    get-insert q p now m ∙ ap (λ b. if b then some now else Map.get p m) other ∙ found,
    after,
  )
]

pub IsStarted-remove :
    (p q : PartitionId) (t0 : Instant) (m : Entries PartitionId Instant)
    → q ≢ p
    → IsStarted p t0 m
    → IsStarted p t0 (Map.remove q m)
IsStarted-remove p q t0 m ne (started, found, after) = (
  started,
  get-remove q p m ∙ ap (λ b. if b then none else Map.get p m) (eq_false_of_ne q p ne) ∙ found,
  after,
)
