-- ===== src/Control/Migration/Table.antt =====
-- crates/osproxy-control/src/migration.rs: `impl MigrationStore for PlacementTable`, and that the
-- table keeps the contract of a store.
use opensearch_proxy.Prelude.{
  ◌≡◌, ◌≢◌, ◌∙◌, inl, inr, ap, refl, Option, some, Result, ok, nat_eq, list_eq, arith,
}
use opensearch_proxy.Core.Ids.{PartitionId, Epoch}
use opensearch_proxy.Spi.Placement.{Placement}
use opensearch_proxy.Tenancy.Migration.{PartitionState, migrating, Phase, cutover, MigrationError}
use opensearch_proxy.Tenancy.PlacementTable
use opensearch_proxy.Tenancy.PlacementTable.{PlacementTable, Entry, stamp, next_epoch, answer}
use opensearch_proxy.Tenancy.PlacementTable.Operations.{
  Operation, beginning, entering, completing, aborting, target, run,
}
use opensearch_proxy.Tenancy.PlacementTable.Lifecycle.{
  outcome, accepted_or_refused, entry-run_ne, entry-stamp_self, Allowed, entered,
}
use opensearch_proxy.Control.Migration.Store.{MigrationStore, IsStore}

abbrev pub table_store : MigrationStore PlacementTable
table_store = record {
  begin_migration = PlacementTable.begin_migration;
  enter_cutover = PlacementTable.enter_cutover;
  complete_migration = PlacementTable.complete_migration;
  abort_migration = PlacementTable.abort_migration;
  state = PlacementTable.state;
}

state-run_ne :
    (op : Operation) (t : PlacementTable) (q : PartitionId)
    → target op ≢ q
    → PlacementTable.state (run op t) q ≡ PlacementTable.state t q
unfolding PlacementTable.state
state-run_ne op t q ne = ap answer (entry-run_ne op t q ne)

begin_busy :
    (p : PartitionId) (to : Placement) (t : PlacementTable) (from dest : Placement) (phase : Phase)
    (e : Epoch)
    → PlacementTable.state t p ≡ some (migrating from dest phase, e)
    → PlacementTable.state (PlacementTable.begin_migration p to t).0 p
      ≡ some (migrating from dest phase, e)
unfolding PlacementTable.state PlacementTable.begin_migration answer
begin_busy p to t from dest phase e h = ground arith

enter_busy :
    (p : PartitionId) (t : PlacementTable) (from dest : Placement) (e : Epoch)
    → PlacementTable.state t p ≡ some (migrating from dest cutover, e)
    → PlacementTable.state (PlacementTable.enter_cutover p t).0 p
      ≡ some (migrating from dest cutover, e)
unfolding PlacementTable.state PlacementTable.enter_cutover answer
enter_busy p t from dest e h = ground arith

entered_from :
    (p : PartitionId) (before : Option PartitionState) (s : PartitionState)
    → Allowed (entering p) before s
    → (from : Placement) × (dest : Placement) × (s ≡ migrating from dest cutover)
entered_from p before s (entered _ from to) = (from, to, refl)

moved :
    (t u : PlacementTable) (p : PartitionId) (s s' : PartitionState) (e : Epoch)
    → u ≡ stamp t p s
    → s ≡ s'
    → next_epoch t ≡ e
    → PlacementTable.state u p ≡ some (s', e)
unfolding PlacementTable.state answer
moved t u p s s' e stamped same fresh =
    rw stamped (ap answer (entry-stamp_self t p s) ∙ cc (same, fresh))

told_epoch : {a b : Epoch} {r : Result Epoch MigrationError} → r ≡ ok a → r ≡ ok b → a ≡ b
told_epoch h k = cc

enter_moves :
    (p : PartitionId) (t : PlacementTable) (e : Epoch)
    → (PlacementTable.enter_cutover p t).1 ≡ ok e
    → (from : Placement) × (dest : Placement) × (PlacementTable.state
          (PlacementTable.enter_cutover p t).0
          p
        ≡ some (migrating from dest cutover, e))
unfolding run outcome
enter_moves p t e h = elim (accepted_or_refused (entering p) t) [
  | inl (s, allowed, stamped, told) ↦
      let (from, dest, same) = entered_from p _ s allowed in
      (from, dest, moved t _ p s _ e stamped same (told_epoch told h))
  | inr (why, kept, told) ↦ cc (told, h)
]

-- The placement table keeps the contract that the controller relies on: each transition touches its
-- own partition only, a migration in flight cannot be begun again or re-enter the window, and a
-- successful `enter_cutover` leaves the partition in the window at the epoch it answered.
pub table_store-IsStore : IsStore table_store
unfolding run
table_store-IsStore = record {
  begin_frame = λ p q to t ne. state-run_ne (beginning p to) t q ne;
  enter_frame = λ p q t ne. state-run_ne (entering p) t q ne;
  complete_frame = λ p q t ne. state-run_ne (completing p) t q ne;
  abort_frame = λ p q t ne. state-run_ne (aborting p) t q ne;
  begin_busy = begin_busy;
  enter_busy = enter_busy;
  enter_moves = enter_moves;
}
