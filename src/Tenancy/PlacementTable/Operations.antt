-- ===== src/Tenancy/PlacementTable/Operations.antt =====
-- crates/osproxy-tenancy/src/placement_table.rs: sequences of the operations that change a table,
-- in the order in which they take its lock, and what one of them does to one partition's entry.
use opensearch_proxy.Prelude.{
  ◌+◌, ◌≤◌, ◌<◌, ◌≡◌, ◌⊎◌, inl, inr, refl, Option, none, some, List, [], ◌∷◌, Result, ok, err, ◌==◌,
  nat_eq, list_eq, arith, eq_iff, if◌then◌else◌,
}
use opensearch_proxy.Prelude.Map
use opensearch_proxy.Prelude.Map.{get-insert}
use opensearch_proxy.Core.Ids.{PartitionId, u64_mod}
use opensearch_proxy.Spi.Placement.{Placement}
use opensearch_proxy.Tenancy.Migration.{MigrationError, PartitionState, active}
use opensearch_proxy.Tenancy.PlacementTable.{
  PlacementTable, Entry, new, next_epoch, stamp, set, transition_of, commit, begin_step,
  cutover_step, complete_step, abort_step, begin_migration, enter_cutover, complete_migration,
  abort_migration,
}

-- The calls that write to a table.
pub data Operation : Type 0 where
  setting beginning : PartitionId → Placement → Operation
  entering completing aborting : PartitionId → Operation

abbrev pub target : Operation → PartitionId
target (setting p _) = p
target (beginning p _) = p
target (entering p) = p
target (completing p) = p
target (aborting p) = p

unfoldable pub run : Operation → PlacementTable → PlacementTable
unfolding set begin_migration enter_cutover complete_migration abort_migration
run (setting p placement) t = (set p placement t).0
run (beginning p to) t = (begin_migration p to t).0
run (entering p) t = (enter_cutover p t).0
run (completing p) t = (complete_migration p t).0
run (aborting p) t = (abort_migration p t).0

unfoldable pub run_all : List Operation → PlacementTable → PlacementTable
run_all [] t = t
run_all (op ∷ ops) t = run_all ops (run op t)

commit-cases :
    (t : PlacementTable) (p : PartitionId) (r : Result PartitionState MigrationError)
    → ((commit t p r).0 ≡ t) ⊎ ((s : PartitionState) × ((commit t p r).0 ≡ stamp t p s))
commit-cases t p (err why) = inl refl
commit-cases t p (ok next) = inr (next, refl)

transition_of-cases :
    (t : PlacementTable) (p : PartitionId)
    (f : PartitionState → Result PartitionState MigrationError) (o : Option Entry)
    → ((transition_of t p f o).0 ≡ t)
      ⊎ ((s : PartitionState) × ((transition_of t p f o).0 ≡ stamp t p s))
transition_of-cases t p f none = inl refl
transition_of-cases t p f (some e) = commit-cases t p (f e.state)

-- An operation leaves the table alone, or stamps its own partition with a new state.
pub run-cases :
    (op : Operation) (t : PlacementTable)
    → (run op t ≡ t) ⊎ ((s : PartitionState) × (run op t ≡ stamp t (target op) s))
unfolding run
run-cases (setting p placement) t = inr (active placement, refl)
run-cases (beginning p to) t = transition_of-cases t p (begin_step to) (Map.get p t.entries)
run-cases (entering p) t = transition_of-cases t p cutover_step (Map.get p t.entries)
run-cases (completing p) t = transition_of-cases t p complete_step (Map.get p t.entries)
run-cases (aborting p) t = transition_of-cases t p abort_step (Map.get p t.entries)

-- Every entry was stamped with a generation that the counter has reached, and no two partitions
-- with the same one.
pub record IsStamped (t : PlacementTable) : Type 0 where
  pub reached :
      (p : PartitionId) (e : Entry) → Map.get p t.entries ≡ some e → e.epoch ≤ t.generation
  pub distinct :
      (p q : PartitionId) (e f : Entry)
      → Map.get p t.entries ≡ some e
      → Map.get q t.entries ≡ some f
      → e.epoch ≡ f.epoch
      → p ≡ q

pub new-IsStamped : IsStamped new
unfolding Map.get
new-IsStamped = record { reached = λ p e h. cc; distinct = λ p q e f h k. cc }

abbrev entry_after : PlacementTable → PartitionId → PartitionState → PartitionId → Option Entry
entry_after t p s q =
    if p == q then some (record { state = s; epoch = next_epoch t }) else Map.get q t.entries

pub get-stamp :
    (t : PlacementTable) (p q : PartitionId) (s : PartitionState)
    → Map.get q (stamp t p s).entries ≡ entry_after t p s q
get-stamp t p q s = get-insert p q (record { state = s; epoch = next_epoch t }) t.entries

module _ (t : PlacementTable) (p : PartitionId) (s : PartitionState)
    (room : t.generation + 1 < u64_mod) where
  next_epoch-stamp : (stamp t p s).generation ≡ t.generation + 1
  next_epoch-stamp = omega arith

  stamp-IsStamped : IsStamped t → IsStamped (stamp t p s)
  stamp-IsStamped w = record {
    reached = λ q e h. ground (arith, get-stamp t p q s, w.reached q e);
    distinct = λ q r e f h k same. ground (
      arith,
      get-stamp t p q s,
      get-stamp t p r s,
      eq_iff p q,
      eq_iff p r,
      w.reached q e,
      w.reached r f,
      w.distinct q r e f,
    );
  }

pub run-IsStamped :
    (op : Operation) (t : PlacementTable)
    → t.generation + 1 < u64_mod
    → IsStamped t
    → IsStamped (run op t)
run-IsStamped op t room w = elim (run-cases op t) [
  | inl same ↦ rw same w
  | inr (s, stamped) ↦ rw stamped (stamp-IsStamped t (target op) s room w)
]

pub generation-run :
    (op : Operation) (t : PlacementTable)
    → t.generation + 1 < u64_mod
    → (t.generation ≤ (run op t).generation) × ((run op t).generation ≤ t.generation + 1)
generation-run op t room = elim (run-cases op t) [
  | inl same ↦ rw same (omega arith)
  | inr (s, stamped) ↦ rw stamped (omega arith)
]
