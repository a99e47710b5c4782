-- ===== src/Core/Scan/Bounds.antt =====
-- crates/osproxy-core/src/json.rs: how far each method of the parser moves the cursor. A scan that is
-- within a bound has not run out of fuel, and leaves fewer bytes than the bound.
use opensearch_proxy.Prelude.{
  ℕ, zero, suc, ◌+◌, ◌*◌, ◌≤◌, ◌<◌, ◌≡◌, refl, ap, Bool, true, false, ◌||◌, Option, none, some, [],
  ◌∷◌, ◌==◌, nat_eq, if◌then◌else◌, length, arith, Bool-cases, inl, inr,
}
use opensearch_proxy.Prelude.Bytes.{Bytes, strip_prefix}
use opensearch_proxy.Core.Scan.Cursor.{
  Scan, done, invalid, out_of_fuel, ◌>>=◌, Unit₀, skip_ws, expect, hex_value, hex_of, hex_digit,
  hex_digits, digits, is_digit, one_or_more_digits, optional, integer, fraction, exponent, number,
  literal_rest, literal,
}

abbrev pub Within {ℓ} : {A : Type ℓ} → Scan A → ℕ → Type 0
Within (done a s) n = length s < n
Within invalid n = Unit
Within out_of_fuel n = ⊥

module _ {ℓ} {A : Type ℓ} where
  pub Within-le : (p : Scan A) (m n : ℕ) → m ≤ n → Within p m → Within p n
  Within-le (done a s) m n le h = omega arith
  Within-le invalid m n le h = tt
  Within-le out_of_fuel m n le h = h

  pub if-Within :
      (b : Bool) (p q : Scan A) (n : ℕ) → Within p n → Within q n → Within (if b then p else q) n
  if-Within true p q n h k = h
  if-Within false p q n h k = k

pub bind-Within {ℓ κ} :
    {A : Type ℓ} {B : Type κ} (p : Scan A) (f : A → Bytes → Scan B) (m n : ℕ)
    → Within p m
    → ((a : A) (s : Bytes) → length s < m → Within (f a s) n)
    → Within (p >>= f) n
bind-Within (done a s) f m n h each = each a s h
bind-Within invalid f m n h each = tt
bind-Within out_of_fuel f m n h each = elim h [ ]

pub length-skip_ws : (s : Bytes) → length (skip_ws s) ≤ length s
unfolding skip_ws
length-skip_ws [] = omega arith
length-skip_ws (c ∷ s) = ground (arith, length-skip_ws s)

pub expect-Within : (byte : ℕ) (s : Bytes) → Within (expect byte s) (length s)
unfolding expect
expect-Within byte [] = tt
expect-Within byte (c ∷ s) = if-Within (c == byte) _ _ _ (omega arith) tt

hex_of-Within : (o : Option ℕ) (s : Bytes) (n : ℕ) → length s < n → Within (hex_of o s) n
hex_of-Within none s n h = tt
hex_of-Within (some v) s n h = h

hex_digit-Within : (s : Bytes) → Within (hex_digit s) (length s)
unfolding hex_digit
hex_digit-Within [] = tt
hex_digit-Within (c ∷ s) = hex_of-Within (hex_value c) s _ (omega arith)

pub hex_digits-Within : (n v : ℕ) (s : Bytes) → Within (hex_digits n v s) (suc (length s))
unfolding hex_digits
hex_digits-Within zero v s = omega arith
hex_digits-Within (suc n) v s =
    bind-Within (hex_digit s) _ (length s) _ (hex_digit-Within s) (λ d t h.
      Within-le (hex_digits n (v * 16 + d) t) _ _ (omega (arith, h))
        (hex_digits-Within n (v * 16 + d) t))

length-digits : (s : Bytes) → length (digits s) ≤ length s
unfolding digits
length-digits [] = omega arith
length-digits (c ∷ s) = ground (arith, length-digits s)

digits-cons : (c : ℕ) (s : Bytes) → is_digit c ≡ true → digits (c ∷ s) ≡ digits s
unfolding digits
digits-cons c s h = rw h

some_digits-Within :
    (c : ℕ) (s : Bytes)
    → Within {A = Unit₀} (if is_digit c then done tt (digits (c ∷ s)) else invalid) (suc (length s))
some_digits-Within c s = elim (Bool-cases (is_digit c)) [
  | inl digit ↦ rw (digit, digits-cons c s digit) (omega (arith, length-digits s))
  | inr other ↦ rw other tt
]

one_or_more_digits-Within : (s : Bytes) → Within (one_or_more_digits s) (length s)
unfolding one_or_more_digits
one_or_more_digits-Within [] = tt
one_or_more_digits-Within (c ∷ s) = some_digits-Within c s

pub length-optional : (test : ℕ → Bool) (s : Bytes) → length (optional test s) ≤ length s
length-optional test [] = omega arith
length-optional test (c ∷ s) = ground arith

integer-Within : (s : Bytes) → Within (integer s) (length s)
integer-Within [] = tt
integer-Within (c ∷ s) = if-Within (c == b'0') _ _ _ (omega arith) (some_digits-Within c s)

fraction-Within : (s : Bytes) → Within (fraction s) (suc (length s))
fraction-Within [] = omega arith
fraction-Within (c ∷ s) =
    if-Within (c == b'.') _ _ _
      (Within-le (one_or_more_digits s) _ _ (omega arith) (one_or_more_digits-Within s))
      (omega arith)

exponent-Within : (s : Bytes) → Within (exponent s) (suc (length s))
exponent-Within [] = omega arith
exponent-Within (c ∷ s) =
    let rest = optional (λ c. (c == b'+') || (c == b'-')) s in
    if-Within ((c == b'e') || (c == b'E')) _ _ _
      (Within-le (one_or_more_digits rest) (length rest) _
        (omega (arith, length-optional (λ c. (c == b'+') || (c == b'-')) s))
        (one_or_more_digits-Within rest))
      (omega arith)

pub number-Within : (s : Bytes) → Within (number s) (length s)
unfolding number
number-Within s =
    let rest = optional (λ c. c == b'-') s in
    bind-Within (integer rest) _ (length s) _
      (Within-le (integer rest) _ _ (length-optional (λ c. c == b'-') s) (integer-Within rest))
      (λ _ t h.
        bind-Within (fraction t) _ (length s) _ (Within-le (fraction t) _ _ h (fraction-Within t))
          (λ _ u k. Within-le (exponent u) _ _ k (exponent-Within u)))

strip-Within : (text s t : Bytes) → strip_prefix text s ≡ some t → length text + length t ≡ length s
unfolding strip_prefix
strip-Within [] s t h = let same : s ≡ t = cc in omega (arith, ap length same)
strip-Within (p ∷ text) [] t h = cc
strip-Within (p ∷ text) (c ∷ s) t h = elim (Bool-cases (p == c)) [
  | inl same ↦ omega (arith, strip-Within text s t (rw same at h))
  | inr other ↦ cc (rw other at h)
]

literal_rest-Within :
    (o : Option Bytes) (n : ℕ)
    → ((t : Bytes) → o ≡ some t → length t < n)
    → Within (literal_rest o) n
literal_rest-Within none n each = tt
literal_rest-Within (some t) n each = each t refl

pub literal-Within : (text s : Bytes) → 0 < length text → Within (literal text s) (length s)
unfolding literal
literal-Within text s pos =
    literal_rest-Within (strip_prefix text s) (length s)
      (λ t h. omega (arith, pos, strip-Within text s t h))
