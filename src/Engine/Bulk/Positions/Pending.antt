-- ===== src/Engine/Bulk/Positions/Pending.antt =====
-- crates/osproxy-engine/src/bulk.rs: the sub-batches of the last flush, in any order, and the operations that
-- are still to be read.
use opensearch_proxy.Prelude.{
  ℕ, zero, suc, ◌≡◌, refl, ap, sym, ◌∙◌, inl, inr, Bool, true, false, Option, some, List, [], ◌∷◌,
  ◌==◌, nat_eq, Bool-cases, All, any, arith, length, subst,
}
use mathlib.Core.List.{Permᴰ}
use mathlib.Core.List.Permᴰ as PermD
use opensearch_proxy.Prelude.Map
use opensearch_proxy.Engine.Bulk.Demux.{Entries, pending}
use opensearch_proxy.Rewrite.Bulk.{BulkItem}
use opensearch_proxy.Spi.Request.{RequestCtx}
use opensearch_proxy.Tenancy.Router.{Target, target_eq}
use opensearch_proxy.Engine.Bulk.Positions.Slots.{At, IsEntryOf, names}
use opensearch_proxy.Engine.Bulk.Positions.Tracked.{Buffers, AreEntriesOf}

pub All-Permᴰ {ℓ κ} :
    {A : Type ℓ} (P : A → Type κ) {xs ys : List A} → Permᴰ xs ys → All P ys → All P xs
All-Permᴰ P PermD.nil h = tt
All-Permᴰ P (PermD.cons e p) (a, h) = (subst P (sym e) a, All-Permᴰ P p h)
All-Permᴰ P (PermD.swap e f) h = (subst P (sym e) h.1.0, (subst P (sym f) h.0, h.1.1))
All-Permᴰ P (PermD.trans p q) h = All-Permᴰ P p (All-Permᴰ P q h)

pub any-Permᴰ {ℓ} : {A : Type ℓ} (t : A → Bool) {xs ys : List A} → Permᴰ xs ys → any t xs ≡ any t ys
any-Permᴰ t PermD.nil = refl
any-Permᴰ t (PermD.cons e p) = ground (arith, ap t e, any-Permᴰ t p)
any-Permᴰ t (PermD.swap e f) = ground (arith, ap t e, ap t f)
any-Permᴰ t (PermD.trans p q) = any-Permᴰ t p ∙ any-Permᴰ t q

pub pending-All :
    (ctx : RequestCtx) (items : List BulkItem) (m : Buffers)
    → AreEntriesOf ctx items m
    → All (All (IsEntryOf ctx items)) (pending m)
unfolding pending
pending-All ctx items [] h = tt
pending-All ctx items ((t, []) ∷ m) h = pending-All ctx items m h.1
pending-All ctx items ((t, e ∷ es) ∷ m) h = (h.0, pending-All ctx items m h.1)

-- A position that waits in a buffer is among the pending sub-batches.
pub pending-names :
    (m : Buffers) (t : Target) (es : Entries) (j : ℕ)
    → Map.get t m ≡ some es
    → names es j ≡ true
    → any (λ fs. names fs j) (pending m) ≡ true
unfolding pending Map.get
pending-names [] t es j found named = cc
pending-names ((u, []) ∷ m) t es j found named = elim (Bool-cases (u == t)) [
  | inl same ↦
      let here : ◌≡◌ {A = Option Entries} (some []) (some es) = rw same at found in
      let empty : [] ≡ es = cc in
      let wrong : false ≡ true = ap (λ fs. names fs j) empty ∙ named in cc
  | inr other ↦ pending-names m t es j (rw other at found) named
]
pending-names ((u, f ∷ fs) ∷ m) t es j found named = elim (Bool-cases (u == t)) [
  | inl same ↦
      let here : ◌≡◌ {A = Option Entries} (some (f ∷ fs)) (some es) = rw same at found in
      let whole : f ∷ fs ≡ es = cc in
      let first : names (f ∷ fs) j ≡ true = ap (λ gs. names gs j) whole ∙ named in
      ground (arith, first)
  | inr other ↦ ground (arith, pending-names m t es j (rw other at found) named)
]

-- `later` are the operations from position `k` on.
abbrev pub Rest : List BulkItem → ℕ → List BulkItem → Type 0
Rest items zero later = items ≡ later
Rest [] (suc k) later = ⊥
Rest (item ∷ items) (suc k) later = Rest items k later

pub Rest-At :
    (P : BulkItem → Type 0) (items : List BulkItem) (k : ℕ) (item : BulkItem)
    (later : List BulkItem)
    → Rest items k (item ∷ later)
    → P item
    → At P items k
Rest-At P items zero item later h p = subst (λ xs. At P xs zero) (sym h) p
Rest-At P [] (suc k) item later h p = absurd h
Rest-At P (i ∷ items) (suc k) item later h p = Rest-At P items k item later h p

pub Rest-suc :
    (items : List BulkItem) (k : ℕ) (item : BulkItem) (later : List BulkItem)
    → Rest items k (item ∷ later)
    → Rest items (suc k) later
Rest-suc items zero item later h = subst (λ xs. Rest xs (suc zero) later) (sym h) refl
Rest-suc [] (suc k) item later h = absurd h
Rest-suc (i ∷ items) (suc k) item later h = Rest-suc items k item later h

pub length-Rest : (items : List BulkItem) (k : ℕ) → Rest items k [] → length items ≡ k
length-Rest items zero h = ap length h
length-Rest [] (suc k) h = absurd h
length-Rest (i ∷ items) (suc k) h = ap suc (length-Rest items k h)
