-- ===== src/Tenancy/PlacementTable/Gate.antt =====
-- crates/osproxy-tenancy/src/placement_table.rs: the write gate over any sequence of operations. A
-- request resolves its placement at one moment, and its write reaches the gate later.
use opensearch_proxy.Prelude.{
  ◌+◌, ◌≤◌, ◌<◌, ◌≡◌, ◌≢◌, ◌⊎◌, inl, inr, refl, Bool, true, false, Option, none, some, List, [],
  ◌∷◌, ◌∙◌, suc, ◌==◌, nat_eq, list_eq, arith, length, eq_iff, eq_refl, ap, if◌then◌else◌,
  Option-cases,
}
use opensearch_proxy.Prelude.Map
use opensearch_proxy.Core.Ids.{PartitionId, Epoch, u64_mod}
use opensearch_proxy.Spi.Placement.{MigrationPhase, PlacementAt}
use opensearch_proxy.Tenancy.Migration.{admit, reject, PartitionState}
use opensearch_proxy.Tenancy.PlacementTable.{
  PlacementTable, Entry, next_epoch, stamp, get, get_of, admit_write, admit_of,
}
use opensearch_proxy.Tenancy.PlacementTable.Operations.{
  Operation, target, run, run_all, run-cases, IsStamped, get-stamp, generation-run,
}

-- The entry was stamped after generation `g`.
abbrev IsNewer : Epoch → Option Entry → Type 0
IsNewer g none = ⊥
IsNewer g (some e) = g < e.epoch

-- What may have become of an entry that was read at generation `g`.
abbrev IsLater : Epoch → Option Entry → Option Entry → Type 0
IsLater g before after = (after ≡ before) ⊎ IsNewer g after

stamp-IsNewer :
    (g : Epoch) (t : PlacementTable) (p q : PartitionId) (s : PartitionState)
    → t.generation + 1 < u64_mod
    → g ≤ t.generation
    → IsLater g (Map.get q t.entries) (Map.get q (stamp t p s).entries)
stamp-IsNewer g t p q s room le = rw get-stamp (go (p == q))
  where
    go :
        (b : Bool)
        → IsLater g
            (Map.get q t.entries)
            (if b then some (record { state = s; epoch = next_epoch t }) else Map.get q t.entries)
    go true = inr (omega arith)
    go false = inl refl

run-IsLater :
    (g : Epoch) (op : Operation) (t : PlacementTable) (q : PartitionId)
    → t.generation + 1 < u64_mod
    → g ≤ t.generation
    → IsLater g (Map.get q t.entries) (Map.get q (run op t).entries)
run-IsLater g op t q room le = elim (run-cases op t) [
  | inl same ↦ rw same (inl refl)
  | inr (s, stamped) ↦ rw stamped (stamp-IsNewer g t (target op) q s room le)
]

IsLater-trans : (g : Epoch) (a b c : Option Entry) → IsLater g a b → IsLater g b c → IsLater g a c
IsLater-trans g a b c (inl same) (inl again) = inl (cc)
IsLater-trans g a b c (inr newer) (inl again) = inr (rw again newer)
IsLater-trans g a b c _ (inr newer) = inr newer

run_all-IsLater :
    (g : Epoch) (ops : List Operation) (t : PlacementTable) (q : PartitionId)
    → t.generation + length ops < u64_mod
    → g ≤ t.generation
    → IsLater g (Map.get q t.entries) (Map.get q (run_all ops t).entries)
unfolding run_all
run_all-IsLater g [] t q room le = inl refl
run_all-IsLater g (op ∷ ops) t q room le =
    let grown = generation-run op t (omega arith) in
    IsLater-trans g _ _ _ (run-IsLater g op t q (omega arith) le)
      (run_all-IsLater g ops (run op t) q (omega arith) (omega arith))

get-entry :
    (t : PlacementTable) (p : PartitionId) (at : PlacementAt)
    → get t p ≡ some at
    → (e : Entry) × (Map.get p t.entries ≡ some e) × (at.epoch ≡ e.epoch)
unfolding get get_of
get-entry t p at h = elim (Option-cases (Map.get p t.entries)) [
  | inl missing ↦ cc (rw missing at h)
  | inr (e, found) ↦ (e, found, ground arith)
]

admit_write-open :
    (t : PlacementTable) (p : PartitionId) (epoch : Epoch)
    → admit_write t p epoch ≡ admit
    → (e : Entry) × (Map.get p t.entries ≡ some e) × (e.epoch ≡ epoch)
unfolding admit_write admit_of
admit_write-open t p epoch h = elim (Option-cases (Map.get p t.entries)) [
  | inl missing ↦ absurd (ground arith)
  | inr (e, found) ↦ (e, found, ground (arith, eq_iff e.epoch epoch))
]

same_entry :
    (t u : PlacementTable) (p : PartitionId)
    → Map.get p u.entries ≡ Map.get p t.entries
    → get u p ≡ get t p
unfolding get get_of
same_entry t u p same = ap get_of same

cutover-reject :
    (t : PlacementTable) (p : PartitionId) (at : PlacementAt) (epoch : Epoch)
    → get t p ≡ some at
    → at.phase ≡ MigrationPhase.cutover
    → admit_write t p epoch ≡ reject
unfolding get get_of admit_write admit_of
cutover-reject t p at epoch read phase = ground arith

entry_kept :
    (t : PlacementTable) (ops : List Operation) (p : PartitionId) (e : Entry)
    → IsStamped t
    → t.generation + length ops < u64_mod
    → Map.get p t.entries ≡ some e
    → admit_write (run_all ops t) p e.epoch ≡ admit
    → Map.get p (run_all ops t).entries ≡ Map.get p t.entries
entry_kept t ops p e w room found admitted =
    let (f, held, fresh) = admit_write-open (run_all ops t) p e.epoch admitted in
    elim (run_all-IsLater t.generation ops t p room (omega arith)) [
      | inl kept ↦ kept
      | inr newer ↦
          let after : IsNewer t.generation (some f) = rw held at newer in
          absurd (omega (arith, w.reached p e found))
    ]

-- A write that the gate admits goes where the partition is: if a placement was read from a
-- well-formed table, any operations on any partitions ran since, and the write is admitted with the
-- epoch that was read, then reading the placement now gives the same answer in every field, and it
-- is not in the cutover window. The counter is assumed not to wrap around within the operations.
pub admitted_write_current :
    (t : PlacementTable) (ops : List Operation) (p : PartitionId) (at : PlacementAt)
    → IsStamped t
    → t.generation + length ops < u64_mod
    → get t p ≡ some at
    → admit_write (run_all ops t) p at.epoch ≡ admit
    → (get (run_all ops t) p ≡ some at) × (at.phase ≢ MigrationPhase.cutover)
admitted_write_current t ops p at w room read admitted =
    let (e, found, same) = get-entry t p at read in
    let kept = entry_kept t ops p e w room found (rw same at admitted) in
    let now : get (run_all ops t) p ≡ some at = same_entry t (run_all ops t) p kept ∙ read in
    (now, λ phase. cc (admitted, cutover-reject (run_all ops t) p at at.epoch now phase))

newer_rejected :
    (g : Epoch) (t : PlacementTable) (p : PartitionId) (epoch : Epoch)
    → IsNewer g (Map.get p t.entries)
    → epoch ≤ g
    → admit_write t p epoch ≡ reject
unfolding admit_write admit_of
newer_rejected g t p epoch newer le = elim (Option-cases (Map.get p t.entries)) [
  | inl missing ↦ absurd (rw missing at newer)
  | inr (e, found) ↦
      let after : IsNewer g (some e) = rw found at newer in ground (arith, eq_iff e.epoch epoch)
]

IsNewer-stamp :
    (t : PlacementTable) (p : PartitionId) (s : PartitionState)
    → t.generation + 1 < u64_mod
    → IsNewer t.generation (Map.get p (stamp t p s).entries)
IsNewer-stamp t p s room = rw (get-stamp, eq_refl p) (omega arith)

IsNewer-later : (g : Epoch) (a b : Option Entry) → IsNewer g a → IsLater g a b → IsNewer g b
IsNewer-later g a b newer (inl same) = rw same newer
IsNewer-later g a b newer (inr later) = later

IsNewer-after :
    (t : PlacementTable) (op : Operation) (ops : List Operation)
    → t.generation + suc (length ops) < u64_mod
    → (run op t).generation ≢ t.generation
    → IsNewer t.generation (Map.get (target op) (run_all ops (run op t)).entries)
IsNewer-after t op ops room changed = elim (run-cases op t) [
  | inl same ↦ absurd (changed (ap (λ (u : PlacementTable). u.generation) same))
  | inr (s, stamped) ↦
      let grown = generation-run op t (omega arith) in
      IsNewer-later t.generation (Map.get (target op) (run op t).entries) _
        (rw stamped (IsNewer-stamp t (target op) s (omega arith)))
        (run_all-IsLater t.generation ops (run op t) (target op) (omega arith) (omega arith))
]

-- A decision does not outlive a change of its partition: if a placement was read from a well-formed
-- table and then an operation on the partition succeeds (it advances the counter), a write that
-- carries the epoch that was read is rejected, then and after any further operations. The counter is
-- assumed not to wrap around within the operations.
pub superseded_write_rejected :
    (t : PlacementTable) (op : Operation) (ops : List Operation) (at : PlacementAt)
    → IsStamped t
    → t.generation + suc (length ops) < u64_mod
    → get t (target op) ≡ some at
    → (run op t).generation ≢ t.generation
    → admit_write (run_all ops (run op t)) (target op) at.epoch ≡ reject
superseded_write_rejected t op ops at w room read changed =
    let (e, found, same) = get-entry t (target op) at read in
    newer_rejected t.generation (run_all ops (run op t)) (target op) at.epoch
      (IsNewer-after t op ops room changed) (omega (arith, w.reached (target op) e found))
