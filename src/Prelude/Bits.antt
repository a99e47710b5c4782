-- ===== src/Prelude/Bits.antt =====
-- Bytes as numbers: the operations of `u8` on bits, and tables that are checked value by value.
use Prim.Native.Nat.{
  ℕ, zero, suc, ◌+◌, ◌*◌, ◌/◌, ◌%◌, ◌≤◌, ◌<◌, max, bit_or, bit_xor, digits, differ, bit_or-bitwise,
  bit_xor-bitwise,
}
use mathlib.Core.Path.{◌≡◌, refl, sym, ap, ◌∙◌}
use mathlib.Core.Logic.{inl, inr}
use opensearch_proxy.Prelude.Tests.{ltb, ltb→lt, Bool-cases, and-eq-true}
use mathlib.Core.Bool.{Bool, true, ◌&&◌}
use native.Mathlib.Omega.{arith}

-- A test that passes at each of the numbers below a bound, by running it.
unfoldable pub passes_below : (ℕ → Bool) → ℕ → Bool
passes_below test zero = true
passes_below test (suc bound) = passes_below test bound && test bound

pub passed :
    (test : ℕ → Bool) (bound i : ℕ) → passes_below test bound ≡ true → i < bound → test i ≡ true
unfolding passes_below
passed test zero i h lt = absurd (omega arith)
passed test (suc bound) i h lt =
    let (lower, last) = and-eq-true (passes_below test bound) (test bound) h in
    elim (Bool-cases (ltb i bound)) [
      | inl less ↦ passed test bound i lower (ltb→lt i bound less)
      | inr other ↦ let same : i ≡ bound = ground arith in ap test same ∙ last
    ]

-- No digit is set in an or, if none is set in either number.
or_digits : (n a b : ℕ) → a ≤ n → digits (λ b. b) max n a b ≡ 0 → (a ≡ 0) × (b ≡ 0)
or_digits zero zero b le h = (refl, h)
or_digits zero (suc a) b le h = absurd (omega arith)
or_digits (suc n) zero b le h = (refl, h)
or_digits (suc n) (suc a) b le h =
    let (a_half, b_half) = or_digits n (suc a / 2) (b / 2) (omega arith) (omega arith) in
    absurd (omega arith)

pub bit_or-zero : (a b : ℕ) → bit_or a b ≡ 0 → (a ≡ 0) × (b ≡ 0)
bit_or-zero a b h = or_digits a a b (omega arith) (sym (bit_or-bitwise a b) ∙ h)

-- The lowest digit of an or, and the others.
or_digits_fuel :
    (n m a b : ℕ) → a ≤ n → a ≤ m → digits (λ b. b) max n a b ≡ digits (λ b. b) max m a b
or_digits_fuel zero zero a b p q = refl
or_digits_fuel zero (suc m) zero b p q = refl
or_digits_fuel zero (suc m) (suc a) b p q = absurd (omega arith)
or_digits_fuel (suc n) zero zero b p q = refl
or_digits_fuel (suc n) zero (suc a) b p q = absurd (omega arith)
or_digits_fuel (suc n) (suc m) zero b p q = refl
or_digits_fuel (suc n) (suc m) (suc a) b p q =
    omega (arith, or_digits_fuel n m (suc a / 2) (b / 2) (omega arith) (omega arith))

zero-bit_or : (b : ℕ) → bit_or 0 b ≡ b
zero-bit_or b = bit_or-bitwise 0 b

pub bit_or_step : (a b : ℕ) → bit_or a b ≡ bit_or (a / 2) (b / 2) * 2 + max (a % 2) (b % 2)
bit_or_step zero b = omega (arith, zero-bit_or b, zero-bit_or (b / 2))
bit_or_step (suc a) b = omega (
  arith,
  bit_or-bitwise (suc a) b,
  bit_or-bitwise (suc a / 2) (b / 2),
  or_digits_fuel a (suc a / 2) (suc a / 2) (b / 2) (omega arith) (omega arith),
)

differ-zero : (x y : ℕ) → differ x y ≡ 0 → x ≡ y
differ-zero zero y h = sym h
differ-zero (suc x) zero h = h
differ-zero (suc x) (suc y) h = omega (arith, differ-zero x y h)

differ-same : (x : ℕ) → differ x x ≡ 0
differ-same zero = refl
differ-same (suc x) = differ-same x

-- Two numbers are equal if no digit differs.
xor_digits : (n a b : ℕ) → a ≤ n → digits (λ b. b) differ n a b ≡ 0 → a ≡ b
xor_digits zero zero b le h = sym h
xor_digits zero (suc a) b le h = absurd (omega arith)
xor_digits (suc n) zero b le h = sym h
xor_digits (suc n) (suc a) b le h =
    let digit = differ-zero (suc a % 2) (b % 2) (omega arith) in
    let later = xor_digits n (suc a / 2) (b / 2) (omega arith) (omega arith) in omega arith

same_digits : (n a : ℕ) → a ≤ n → digits (λ b. b) differ n a a ≡ 0
same_digits zero zero le = refl
same_digits zero (suc a) le = absurd (omega arith)
same_digits (suc n) zero le = refl
same_digits (suc n) (suc a) le =
    omega (arith, same_digits n (suc a / 2) (omega arith), differ-same (suc a % 2))

pub bit_xor-zero : (a b : ℕ) → bit_xor a b ≡ 0 → a ≡ b
bit_xor-zero a b h = xor_digits a a b (omega arith) (sym (bit_xor-bitwise a b) ∙ h)

pub bit_xor-same : (a : ℕ) → bit_xor a a ≡ 0
bit_xor-same a = bit_xor-bitwise a a ∙ same_digits a a (omega arith)
