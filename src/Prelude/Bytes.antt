-- ===== src/Prelude/Bytes.antt =====
-- Rust's `str` and `[u8]`: lists of bytes. A `str` is its UTF-8 encoding, so searching for ASCII
-- characters and slicing at them is the same on bytes and on characters.
use Prim.Native.Char.{code}
use Prim.Native.String
use Prim.Native.Nat.{ℕ, zero, suc, ◌+◌, ◌%◌, ◌/◌, ◌<◌}
use mathlib.Core.Path.{◌≡◌, refl, ap}
use mathlib.Core.Logic.{inl, inr}
use mathlib.Core.Option
use mathlib.Core.Option.{Option, none, some}
use mathlib.Core.List.{List, [], ◌∷◌, ◌++◌}
use native.Mathlib.Omega.{arith}
use opensearch_proxy.Prelude.Tests.{ltb, if◌then◌else◌, Bool-cases}
use opensearch_proxy.Prelude.Lists.{length, length-append}
use opensearch_proxy.Prelude.Equality.{◌==◌, nat_eq, list_eq, eq_refl, eq_false_of_ne}

abbrev pub Bytes : Type 0
Bytes = List ℕ

-- The bytes of an ASCII literal of the source.
abbrev pub ascii : String.String → Bytes
ascii String.[] = []
ascii (String.◌∷◌ c s) = code c ∷ ascii s

-- An unsigned number as `format!` writes it. Every round but the last divides it by ten.
unfoldable pub digits : ℕ → ℕ → Bytes → Bytes
digits zero n later = later
digits (suc fuel) n later =
    let digit = b'0' + n % 10 in
    let more = digits fuel (n / 10) (digit ∷ later) in if ltb n 10 then digit ∷ later else more

unfoldable pub decimal : ℕ → Bytes
unfolding digits
decimal n = digits (suc n) n []

-- Before and after the first `c`: `find(c)`, and the two slices at it.
abbrev pub prepend : ℕ → Option (Bytes × Bytes) → Option (Bytes × Bytes)
prepend x none = none
prepend x (some (a, b)) = some (x ∷ a, b)

unfoldable pub split_at : ℕ → Bytes → Option (Bytes × Bytes)
split_at c [] = none
split_at c (x ∷ s) = if x == c then some ([], s) else prepend x (split_at c s)

-- `str::split` at a character: at least one piece.
abbrev pub prepend_first : ℕ → List Bytes → List Bytes
prepend_first c [] = (c ∷ []) ∷ []
prepend_first c (piece ∷ later) = (c ∷ piece) ∷ later

unfoldable pub split_on : ℕ → Bytes → List Bytes
split_on c [] = [] ∷ []
split_on c (x ∷ s) =
    let pieces = split_on c s in if x == c then [] ∷ pieces else prepend_first x pieces

-- `str::strip_prefix`
unfoldable pub strip_prefix : Bytes → Bytes → Option Bytes
strip_prefix [] s = some s
strip_prefix (p ∷ ps) [] = none
strip_prefix (p ∷ ps) (c ∷ s) = if p == c then strip_prefix ps s else none

-- `str::strip_suffix`: the first position from which the suffix is all that is left.
unfoldable pub strip_suffix : Bytes → Bytes → Option Bytes
strip_suffix suffix [] = if suffix == [] then some [] else none
strip_suffix suffix (c ∷ s) =
    if suffix == (c ∷ s) then some [] else Option.map (λ r. c ∷ r) (strip_suffix suffix s)

pub strip_prefix-append : (p s : Bytes) → strip_prefix p (p ++ s) ≡ some s
unfolding strip_prefix
strip_prefix-append [] s = refl
strip_prefix-append (c ∷ p) s = ground (arith, strip_prefix-append p s)

pub strip_suffix-append : (s suffix : Bytes) → strip_suffix suffix (s ++ suffix) ≡ some s
unfolding strip_suffix
strip_suffix-append [] [] = refl
strip_suffix-append [] (c ∷ suffix) = rw (eq_refl (c ∷ suffix))
strip_suffix-append (c ∷ s) suffix = rw (
  eq_false_of_ne suffix (c ∷ (s ++ suffix))
      (λ h. absurd (omega (arith, ap length h, length-append s suffix))),
  strip_suffix-append s suffix,
)

prepend-length :
    (x n : ℕ) (o : Option (Bytes × Bytes)) (a b : Bytes)
    → ((u v : Bytes) → o ≡ some (u, v) → length u + suc (length v) ≡ n)
    → prepend x o ≡ some (a, b)
    → length a + suc (length b) ≡ suc n
prepend-length x n none a b ih h = cc
prepend-length x n (some (u, v)) a b ih h =
    let whole = ih u v refl in
    let front : x ∷ u ≡ a = cc in
    let back : v ≡ b = cc in omega (arith, ap length front, ap length back)

pub length-split_at :
    (c : ℕ) (s a b : Bytes) → split_at c s ≡ some (a, b) → length a + suc (length b) ≡ length s
unfolding split_at
length-split_at c [] a b h = cc
length-split_at c (x ∷ s) a b h = elim (Bool-cases (x == c)) [
  | inl same ↦
      let cut : ◌≡◌ {A = Option (Bytes × Bytes)} (some ([], s)) (some (a, b)) = rw same at h in
      let front : ◌≡◌ {A = Bytes} [] a = cc in
      let back : s ≡ b = cc in omega (arith, ap length front, ap length back)
  | inr other ↦ prepend-length x (length s) (split_at c s) a b (length-split_at c s) (rw other at h)
]

-- `n` bytes and the rest, if there are so many: the next chunk of `chunks_exact`, `read_exact`.
abbrev pub cons_chunk : ℕ → Option (Bytes × Bytes) → Option (Bytes × Bytes)
cons_chunk c none = none
cons_chunk c (some (chunk, rest)) = some (c ∷ chunk, rest)

unfoldable pub split_chunk : ℕ → Bytes → Option (Bytes × Bytes)
split_chunk zero s = some ([], s)
split_chunk (suc n) [] = none
split_chunk (suc n) (c ∷ s) = cons_chunk c (split_chunk n s)

pub split_chunk-append : (a b : Bytes) → split_chunk (length a) (a ++ b) ≡ some (a, b)
unfolding split_chunk
split_chunk-append [] b = refl
split_chunk-append (c ∷ a) b = ap (cons_chunk c) (split_chunk-append a b)

pub short-split_chunk : (n : ℕ) (s : Bytes) → length s < n → split_chunk n s ≡ none
unfolding split_chunk
short-split_chunk zero s lt = absurd (omega arith)
short-split_chunk (suc n) [] lt = refl
short-split_chunk (suc n) (c ∷ s) lt = ap (cons_chunk c) (short-split_chunk n s (omega arith))
