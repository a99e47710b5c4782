-- ===== src/Core/Scan/Cursor.antt =====
-- crates/osproxy-core/src/json.rs: the parser's cursor, white space, digits, numbers and literals.
use opensearch_proxy.Prelude.{
  ℕ, zero, suc, ◌+◌, ◌-◌, ◌*◌, Bool, ◌&&◌, ◌||◌, Option, none, some, [], ◌∷◌, ◌==◌, nat_eq, leb,
  if◌then◌else◌,
}
use opensearch_proxy.Prelude.Bytes.{Bytes, strip_prefix}

-- What a method of the parser answers: `Ok`, with the bytes from the cursor on, or
-- `Err(JsonError::Invalid)`. A loop answers `out_of_fuel` when its fuel is gone.
pub data Scan {ℓ} (A : Type ℓ) : Type ℓ where
  done : A → Bytes → Scan A
  invalid out_of_fuel : Scan A

infixl 5 ◌>>=◌
abbrev pub ◌>>=◌ {ℓ κ} : {A : Type ℓ} {B : Type κ} → Scan A → (A → Bytes → Scan B) → Scan B
done a s >>= f = f a s
invalid >>= f = invalid
out_of_fuel >>= f = out_of_fuel

abbrev pub Unit₀ : Type 0
Unit₀ = Unit {0}

abbrev pub is_ws : ℕ → Bool
is_ws c = (c == b' ') || ((c == b'\t') || ((c == b'\n') || (c == b'\r')))

unfoldable pub skip_ws : Bytes → Bytes
skip_ws [] = []
skip_ws (c ∷ s) = let rest = skip_ws s in if is_ws c then rest else c ∷ s

unfoldable pub expect : ℕ → Bytes → Scan Unit₀
expect byte [] = invalid
expect byte (c ∷ s) = if c == byte then done tt s else invalid

abbrev pub within : ℕ → ℕ → ℕ → Bool
within low high c = leb low c && leb c high

abbrev pub is_digit : ℕ → Bool
is_digit c = within b'0' b'9' c

abbrev pub hex_value : ℕ → Option ℕ
hex_value c =
    if within b'0' b'9' c
    then some (c - b'0')
    else if within b'a' b'f' c
    then some (c - b'a' + 10)
    else if within b'A' b'F' c
    then some (c - b'A' + 10)
    else none

abbrev pub hex_of : Option ℕ → Bytes → Scan ℕ
hex_of none s = invalid
hex_of (some v) s = done v s

unfoldable pub hex_digit : Bytes → Scan ℕ
hex_digit [] = invalid
hex_digit (c ∷ s) = hex_of (hex_value c) s

-- `v * 16 + d` for each of some digits
unfoldable pub hex_digits : ℕ → ℕ → Bytes → Scan ℕ
hex_digits zero v s = done v s
hex_digits (suc n) v s = hex_digit s >>= λ d s. hex_digits n (v * 16 + d) s

abbrev pub hex4 : Bytes → Scan ℕ
hex4 s = hex_digits 4 0 s

unfoldable pub digits : Bytes → Bytes
digits [] = []
digits (c ∷ s) = let rest = digits s in if is_digit c then rest else c ∷ s

unfoldable pub one_or_more_digits : Bytes → Scan Unit₀
one_or_more_digits [] = invalid
one_or_more_digits (c ∷ s) = if is_digit c then done tt (digits (c ∷ s)) else invalid

-- `if self.peek() == Some(byte) { self.i += 1 }`
abbrev pub optional : (ℕ → Bool) → Bytes → Bytes
optional test [] = []
optional test (c ∷ s) = if test c then s else c ∷ s

abbrev pub integer : Bytes → Scan Unit₀
integer [] = invalid
integer (c ∷ s) =
    if c == b'0' then done tt s else if is_digit c then done tt (digits (c ∷ s)) else invalid

abbrev pub fraction : Bytes → Scan Unit₀
fraction [] = done tt []
fraction (c ∷ s) = if c == b'.' then one_or_more_digits s else done tt (c ∷ s)

abbrev pub exponent : Bytes → Scan Unit₀
exponent [] = done tt []
exponent (c ∷ s) =
    if (c == b'e') || (c == b'E')
    then one_or_more_digits (optional (λ c. (c == b'+') || (c == b'-')) s)
    else done tt (c ∷ s)

unfoldable pub number : Bytes → Scan Unit₀
number s = integer (optional (λ c. c == b'-') s) >>= λ _ s. fraction s >>= λ _ s. exponent s

abbrev pub literal_rest : Option Bytes → Scan Unit₀
literal_rest none = invalid
literal_rest (some s) = done tt s

unfoldable pub literal : Bytes → Bytes → Scan Unit₀
literal text s = literal_rest (strip_prefix text s)
