-- ===== src/Prelude/Map.antt =====
-- Rust's `HashMap`, as an association list with at most one entry for each key that `insert` wrote.
-- The order of the list is the order of iteration, which the standard library leaves open.
use Prim.Native.Nat.{suc, ◌≤◌}
use mathlib.Core.Path.{◌≡◌, refl}
use mathlib.Core.Logic.{inl, inr}
use mathlib.Core.Bool.{Bool}
use mathlib.Core.Option.{Option, none, some}
use mathlib.Core.List.{List, [], ◌∷◌}
use native.Mathlib.Omega.{arith}
use opensearch_proxy.Prelude.Tests.{if◌then◌else◌, Bool-cases}
use opensearch_proxy.Prelude.Lists.{length}
use opensearch_proxy.Prelude.Equality.{Eq, ◌==◌, eq_iff, eq_refl, eq_sound}

abbrev pub Entries {ℓ κ} : Type ℓ → Type κ → Type (ℓ ⊔ κ)
Entries K V = List (K × V)

module _ {ℓ κ} {K : Type ℓ} {V : Type κ} ⦃e : Eq K⦄ where
  unfoldable pub get : K → Entries K V → Option V
  get k [] = none
  get k ((j, v) ∷ m) = if j == k then some v else get k m

  unfoldable pub remove : K → Entries K V → Entries K V
  remove k [] = []
  remove k ((j, v) ∷ m) = let rest = remove k m in if j == k then rest else (j, v) ∷ rest

  unfoldable pub insert : K → V → Entries K V → Entries K V
  unfolding remove
  insert k v m = (k, v) ∷ remove k m

  unfoldable pub retain : (K → V → Bool) → Entries K V → Entries K V
  retain p [] = []
  retain p ((j, v) ∷ m) = let rest = retain p m in if p j v then (j, v) ∷ rest else rest

  pub get-remove :
      (k j : K) (m : Entries K V) → get j (remove k m) ≡ (if k == j then none else get j m)
  unfolding get remove
  get-remove k j [] = ground arith
  get-remove k j ((i, v) ∷ m) = ground (arith, get-remove k j m, eq_iff i k, eq_iff i j, eq_iff k j)

  pub get-insert :
      (k j : K) (v : V) (m : Entries K V)
      → get j (insert k v m) ≡ (if k == j then some v else get j m)
  unfolding get insert
  get-insert k j v m = ground (arith, get-remove k j m)

  pub length-remove-le : (k : K) (m : Entries K V) → length (remove k m) ≤ length m
  unfolding remove
  length-remove-le k [] = omega arith
  length-remove-le k ((j, v) ∷ m) = ground (arith, length-remove-le k m)

  pub length-retain-le : (p : K → V → Bool) (m : Entries K V) → length (retain p m) ≤ length m
  unfolding retain
  length-retain-le p [] = omega arith
  length-retain-le p ((j, v) ∷ m) = ground (arith, length-retain-le p m)

-- `Option::filter`
abbrev pub filter {κ} : {V : Type κ} → (V → Bool) → Option V → Option V
filter p none = none
filter p (some v) = if p v then some v else none

-- No key has two entries.
module _ {ℓ κ} {K : Type ℓ} {V : Type κ} ⦃e : Eq K⦄ where
  abbrev pub IsMap : Entries K V → Type κ
  IsMap [] = Unit
  IsMap ((k, v) ∷ m) = (get k m ≡ none) × IsMap m

  get-none-remove : (k j : K) (m : Entries K V) → get j m ≡ none → get j (remove k m) ≡ none
  get-none-remove k j m h = ground (arith, get-remove k j m)

  pub remove-IsMap : (k : K) (m : Entries K V) → IsMap m → IsMap (remove k m)
  unfolding remove
  remove-IsMap k [] h = tt
  remove-IsMap k ((j, v) ∷ m) (new, h) =
      ground (arith, remove-IsMap k m h, get-none-remove k j m new)

  pub insert-IsMap : (k : K) (v : V) (m : Entries K V) → IsMap m → IsMap (insert k v m)
  unfolding insert
  insert-IsMap k v m h = (ground (arith, get-remove k k m, eq_refl k), remove-IsMap k m h)

  pub get-retain :
      (p : V → Bool) (j : K) (m : Entries K V)
      → IsMap m
      → get j (retain (λ _ v. p v) m) ≡ filter p (get j m)
  unfolding get retain
  get-retain p j [] h = refl
  get-retain p j ((i, v) ∷ m) (new, h) = ground (arith, get-retain p j m h, eq_iff i j)

  pub retain-IsMap : (p : V → Bool) (m : Entries K V) → IsMap m → IsMap (retain (λ _ v. p v) m)
  unfolding retain
  retain-IsMap p [] h = tt
  retain-IsMap p ((j, v) ∷ m) (new, h) = ground (arith, retain-IsMap p m h, get-retain p j m h)

-- The entry stands in the list.
module _ {ℓ κ} {K : Type ℓ} {V : Type κ} where
  pub data In (k : K) (v : V) : Entries K V → Type (ℓ ⊔ κ) where
    here : {j : K} {w : V} {m : Entries K V} → j ≡ k → w ≡ v → In k v ((j, w) ∷ m)
    there : {j : K} {w : V} {m : Entries K V} → In k v m → In k v ((j, w) ∷ m)

module _ {ℓ κ} {K : Type ℓ} {V : Type κ} ⦃e : Eq K⦄ where
  -- Removing a key that is bound makes the map shorter.
  pub length-remove-In :
      (k : K) (v : V) (m : Entries K V) → In k v m → suc (length (remove k m)) ≤ length m
  unfolding remove
  length-remove-In k v [] i = elim i [ ]
  length-remove-In k v ((j, w) ∷ m) (here same _) = ground (arith, length-remove-le k m, eq_iff j k)
  length-remove-In k v ((j, w) ∷ m) (there i) =
      ground (arith, length-remove-In k v m i, length-remove-le k m)

  pub get_of_In : (k : K) (v : V) (m : Entries K V) → IsMap m → In k v m → get k m ≡ some v
  unfolding get
  get_of_In k v [] h i = elim i [ ]
  get_of_In k v ((j, w) ∷ m) h (here same found) = ground (arith, eq_iff j k)
  get_of_In k v ((j, w) ∷ m) (new, h) (there i) = ground (arith, get_of_In k v m h i, eq_iff j k)

  pub In-of_get : (k : K) (v : V) (m : Entries K V) → get k m ≡ some v → In k v m
  unfolding get
  In-of_get k v [] h = cc
  In-of_get k v ((j, w) ∷ m) h = elim (Bool-cases (j == k)) [
    | inl same ↦ here (eq_sound j k same) (ground arith)
    | inr other ↦ there (In-of_get k v m (ground arith))
  ]
