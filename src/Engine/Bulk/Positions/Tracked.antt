-- ===== src/Engine/Bulk/Positions/Tracked.antt =====
-- crates/osproxy-engine/src/bulk.rs: the invariant of the demux loop. Every position that was seen is filled, or
-- its operation waits in a buffer.
use opensearch_proxy.Prelude.{
  ℕ, suc, ◌<◌, ◌≡◌, refl, ap, sym, ◌∙◌, ◌⊎◌, inl, inr, Bool, true, false, ◌||◌, Option, none, some,
  List, [], ◌∷◌, ◌++◌, ◌==◌, nat_eq, eq_refl, eq_iff, eq_sound, Bool-cases, All, All-append, arith,
  subst,
}
use opensearch_proxy.Prelude.Map
use opensearch_proxy.Engine.Bulk.Demux.{Entries, Demux, flush, dispatch, or_no_entries}
use opensearch_proxy.Engine.Bulk.Item.{Prepared}
use opensearch_proxy.Rewrite.Bulk.{BulkItem}
use opensearch_proxy.Sink.Interface.{Sink, IsPositional}
use opensearch_proxy.Spi.Request.{RequestCtx}
use opensearch_proxy.Tenancy.Router.{Target, target_eq}
use opensearch_proxy.Tenancy.Routing.{Router}
use opensearch_proxy.Engine.Bulk.Positions.Slots.{AgreesWith, IsEntryOf, filled, names}
use opensearch_proxy.Engine.Bulk.Positions.Flushes.{
  IsFlushOf, dispatch-IsFlushOf, apply_flushed-AgreesWith, filled-apply_flushed,
  filled-apply_flushed_keeps,
}

abbrev pub Buffers : Type 0
Buffers = Map.Entries Target Entries

-- Every buffered entry is one of the operations.
abbrev pub AreEntriesOf : RequestCtx → List BulkItem → Buffers → Type 0
AreEntriesOf ctx items buffers =
    All (λ (b : Target × Entries). All (IsEntryOf ctx items) b.1) buffers

-- The position waits in a buffer.
abbrev pub Waits : Buffers → ℕ → Type 0
Waits buffers j =
    (t : Target) × (es : Entries) × (Map.get t buffers ≡ some es) × (names es j ≡ true)

-- The state after the first `k` operations.
pub record IsTracked {W : Type 0} (ctx : RequestCtx) (items : List BulkItem) (k : ℕ) (d : Demux W)
    : Type 0 where
  pub agrees : AgreesWith ctx items d.lines
  pub buffered : AreEntriesOf ctx items d.buffers
  pub covered : (j : ℕ) → j < k → (filled d.lines j ≡ true) ⊎ Waits d.buffers j

module _ (P : Entries → Type 0) where
  All-remove :
      (t : Target) (m : Buffers)
      → All (λ (b : Target × Entries). P b.1) m
      → All (λ (b : Target × Entries). P b.1) (Map.remove t m)
  unfolding Map.remove
  All-remove t [] h = tt
  All-remove t ((k, es) ∷ m) h = elim (Bool-cases (k == t)) [
    | inl same ↦ rw same (All-remove t m h.1)
    | inr other ↦ rw other (h.0, All-remove t m h.1)
  ]

  All-get :
      (t : Target) (m : Buffers) (es : Entries)
      → All (λ (b : Target × Entries). P b.1) m
      → Map.get t m ≡ some es
      → P es
  unfolding Map.get
  All-get t [] es h found = cc
  All-get t ((k, fs) ∷ m) es h found = elim (Bool-cases (k == t)) [
    | inl same ↦
        let here : ◌≡◌ {A = Option Entries} (some fs) (some es) = rw same at found in
        let e : fs ≡ es = cc in subst P e h.0
    | inr other ↦ All-get t m es h.1 (rw other at found)
  ]

names-append {ℓ} :
    {A : Type ℓ} (es : List (ℕ × A)) (i : ℕ) (a : A) (j : ℕ)
    → names (es ++ ((i, a) ∷ [])) j ≡ (names es j || (i == j))
names-append [] i a j = ground arith
names-append ((k, b) ∷ es) i a j = ground (arith, names-append es i a j)

module _ {W : Type 0} (ctx : RequestCtx) (items : List BulkItem) (k : ℕ) (p : Prepared)
    (d : Demux W) (tracked : IsTracked ctx items k d) where
  abbrev pub target : Target
  target = p.op.target

  abbrev pub grown : Entries
  grown = or_no_entries (Map.get target d.buffers) ++ ((k, p) ∷ [])

  found-All :
      (o : Option Entries)
      → ((es : Entries) → o ≡ some es → All (IsEntryOf ctx items) es)
      → All (IsEntryOf ctx items) (or_no_entries o)
  found-All none h = tt
  found-All (some es) h = h es refl

  grown-All : IsEntryOf ctx items (k, p) → All (IsEntryOf ctx items) grown
  grown-All entry =
      All-append (IsEntryOf ctx items) _ ((k, p) ∷ [])
        (found-All (Map.get target d.buffers)
          (λ es. All-get (All (IsEntryOf ctx items)) target d.buffers es tracked.buffered))
        (entry, tt)

  -- Where the first `k + 1` positions stand, once the new entry is in the buffer of its target.
  abbrev Stands : ℕ → Type 0
  Stands j =
      ((filled d.lines j ≡ true) ⊎ (names grown j ≡ true))
      ⊎ ((t : Target) × (es : Entries) × ((target == t) ≡ false)
          × (Map.get t d.buffers ≡ some es)
          × (names es j ≡ true))

  Waits-Stands : (j : ℕ) → Waits d.buffers j → Stands j
  Waits-Stands j (t, es, found, named) = elim (Bool-cases (target == t)) [
    | inl same ↦
        let e : Map.get target d.buffers ≡ some es =
          subst (λ u. Map.get u d.buffers ≡ some es) (sym (eq_sound target t same)) found in
        inl (
          inr (
            names-append (or_no_entries (Map.get target d.buffers)) k p j
            ∙ rw e (ap (λ (b : Bool). b || (k == j)) named)))
    | inr other ↦ inr (t, es, other, found, named)
  ]

  stands : (j : ℕ) → j < suc k → Stands j
  stands j lt = elim (Bool-cases (k == j)) [
    | inl same ↦ inl (
        inr
          (names-append (or_no_entries (Map.get target d.buffers)) k p j ∙ rw same (ground arith)))
    | inr other ↦ elim (tracked.covered j (ground (arith, eq_iff k j))) [
      | inl full ↦ inl (inl full)
      | inr w ↦ Waits-Stands j w
    ]
  ]

  module _ (entry : IsEntryOf ctx items (k, p)) (sizes : Map.Entries Target ℕ) where
    -- The buffer is not full.
    pub kept-IsTracked :
        IsTracked ctx items
          (suc k)
          (record d { buffers = Map.insert target grown d.buffers; sizes = sizes })
    unfolding Map.insert
    kept-IsTracked = record {
      agrees = tracked.agrees;
      buffered = (grown-All entry, All-remove _ target d.buffers tracked.buffered);
      covered = λ j lt. elim (stands j lt) [
        | inl (inl full) ↦ inl full
        | inl (inr named) ↦ inr (
          target,
          grown,
          Map.get-insert target target grown d.buffers ∙ rw (eq_refl target),
          named,
        )
        | inr (t, es, other, found, named) ↦
            inr (t, es, Map.get-insert target t grown d.buffers ∙ rw other found, named)
      ];
    }

    -- The buffer is full and flushed.
    pub flushed-IsTracked :
        (router : Router W) (sink : Sink W)
        → IsPositional sink
        → IsTracked ctx items (suc k) (
            flush router sink grown (record d {
              buffers = Map.remove target (Map.insert target grown d.buffers);
              sizes = sizes;
            }))
    unfolding flush Map.insert
    flushed-IsTracked router sink positional =
        let f = dispatch router sink d.world grown in
        let is_flush : IsFlushOf ctx items grown f =
          dispatch-IsFlushOf router sink positional ctx items d.world grown (grown-All entry) in
        record {
          agrees = apply_flushed-AgreesWith ctx items grown f is_flush d.lines tracked.agrees;
          buffered =
              All-remove _ target (Map.insert target grown d.buffers)
                (grown-All entry, All-remove _ target d.buffers tracked.buffered);
          covered = λ j lt. elim (stands j lt) [
            | inl (inl full) ↦
                inl (filled-apply_flushed_keeps ctx items grown f is_flush d.lines j full)
            | inl (inr named) ↦
                inl (filled-apply_flushed ctx items grown f is_flush d.lines j tracked.agrees named)
            | inr (t, es, other, found, named) ↦ inr (
              t,
              es,
              Map.get-remove target t (Map.insert target grown d.buffers)
                  ∙ rw other (Map.get-insert target t grown d.buffers ∙ rw other found),
              named,
            )
          ];
        }
