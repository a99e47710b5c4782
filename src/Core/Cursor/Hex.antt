-- ===== src/Core/Cursor/Hex.antt =====
-- crates/osproxy-core/src/cursor.rs: what the hex digits of the envelope say.
use opensearch_proxy.Prelude.{
  ℕ, ◌*◌, ◌/◌, ◌%◌, ◌<◌, ◌≡◌, refl, sym, ap, ◌∙◌, Bool, true, false, ◌&&◌, not, Option, none, some,
  [], ◌∷◌, ◌++◌, ◌==◌, nat_eq, option_eq, eq_sound, eq_refl, length, All, arith, append-nil,
  append_assoc, and-eq-true, Bool-cases, inl, inr,
}
use Prim.Native.Nat.{bit_xor}
use opensearch_proxy.Prelude.Bits.{passes_below, passed, bit_or-zero, bit_xor-zero, bit_xor-same}
use opensearch_proxy.Prelude.Bytes
use opensearch_proxy.Prelude.Bytes.{Bytes}
use opensearch_proxy.Core.Cursor.{
  high_digit, low_digit, push_hex, hex_val, byte_of, pushed, decode_pairs, differs, diff_of,
  hex_eq_ct,
}

abbrev pub AreBytes : Bytes → Type 0
AreBytes = All (λ b. b < 256)

-- The digits of the bytes, in order.
abbrev pub hex_text : Bytes → Bytes
hex_text [] = []
hex_text (b ∷ bytes) = high_digit b ∷ low_digit b ∷ hex_text bytes

pub push_hex-text : (out bytes : Bytes) → push_hex out bytes ≡ out ++ hex_text bytes
unfolding push_hex
push_hex-text out [] = sym (append-nil out)
push_hex-text out (b ∷ bytes) =
    push_hex-text (out ++ (high_digit b ∷ low_digit b ∷ [])) bytes
    ∙ append_assoc out (high_digit b ∷ low_digit b ∷ []) (hex_text bytes)

pub length-hex_text : (bytes : Bytes) → length (hex_text bytes) ≡ length bytes * 2
length-hex_text [] = refl
length-hex_text (b ∷ bytes) = omega (arith, length-hex_text bytes)

-- Every byte is read back from its digits, and no digit is the separator.
abbrev reads_back : ℕ → Bool
reads_back b =
    (hex_val (high_digit b) == some (b / 16))
    && ((hex_val (low_digit b) == some (b % 16))
        && ((byte_of (b / 16) (b % 16) == b)
            && (not (high_digit b == b'.') && not (low_digit b == b'.'))))

byte_table : passes_below reads_back 256 ≡ true
unfolding passes_below hex_val
byte_table = refl

false_of_not : (b : Bool) → not b ≡ true → b ≡ false
false_of_not false h = refl
false_of_not true h = sym h

record IsRead (b : ℕ) : Type 0 where
  high : hex_val (high_digit b) ≡ some (b / 16)
  low : hex_val (low_digit b) ≡ some (b % 16)
  whole : byte_of (b / 16) (b % 16) ≡ b
  high_dot : (high_digit b == b'.') ≡ false
  low_dot : (low_digit b == b'.') ≡ false

byte-IsRead : (b : ℕ) → b < 256 → IsRead b
byte-IsRead b lt =
    let (high, more) = and-eq-true _ _ (passed reads_back 256 b byte_table lt) in
    let (low, more) = and-eq-true _ _ more in
    let (whole, more) = and-eq-true _ _ more in
    let (high_dot, low_dot) = and-eq-true _ _ more in
    record {
      high = eq_sound _ _ high;
      low = eq_sound _ _ low;
      whole = eq_sound _ _ whole;
      high_dot = false_of_not _ high_dot;
      low_dot = false_of_not _ low_dot;
    }

pub decode_pairs-hex_text :
    (bytes : Bytes) → AreBytes bytes → decode_pairs (hex_text bytes) ≡ some bytes
unfolding decode_pairs
decode_pairs-hex_text [] h = refl
decode_pairs-hex_text (b ∷ bytes) (lt, later) =
    let r = byte-IsRead b lt in rw (r.high, r.low, decode_pairs-hex_text bytes later, r.whole) refl

pub split-hex_text :
    (bytes rest : Bytes)
    → AreBytes bytes
    → Bytes.split_at b'.' (hex_text bytes ++ (b'.' ∷ rest)) ≡ some (hex_text bytes, rest)
unfolding Bytes.split_at
split-hex_text [] rest h = refl
split-hex_text (b ∷ bytes) rest (lt, later) =
    let r = byte-IsRead b lt in rw (r.high_dot, r.low_dot, split-hex_text bytes rest later) refl

same_text : (bytes : Bytes) → AreBytes bytes → diff_of 0 (hex_text bytes) bytes ≡ 0
unfolding diff_of
same_text [] h = refl
same_text (b ∷ bytes) (lt, later) =
    let r = byte-IsRead b lt in rw (r.high, r.low, r.whole, bit_xor-same b) (same_text bytes later)

pub hex_eq_ct-hex_text : (bytes : Bytes) → AreBytes bytes → hex_eq_ct (hex_text bytes) bytes ≡ true
unfolding hex_eq_ct
hex_eq_ct-hex_text bytes h =
    rw (length-hex_text bytes, eq_refl (length bytes * 2), same_text bytes h) refl

-- A comparison that ends without a difference had none so far, and the digits are those of the bytes.
undecided :
    (diff want : ℕ) (high low : Option ℕ) (later : Bytes)
    → differs diff high low want ≡ 0
    → (diff ≡ 0) × (pushed high low (some later) ≡ some (want ∷ later))
undecided diff want (some hi) (some lo) later h =
    let (before, here) = bit_or-zero diff (bit_xor (byte_of hi lo) want) h in
    (before, ap (λ b. some (b ∷ later)) (bit_xor-zero (byte_of hi lo) want here))
undecided diff want (some hi) none later h = absurd (omega (arith, (bit_or-zero diff 1 h).1))
undecided diff want none low later h = absurd (omega (arith, (bit_or-zero diff 1 h).1))

no_difference :
    (diff : ℕ) (hex expected : Bytes)
    → length hex ≡ length expected * 2
    → diff_of diff hex expected ≡ 0
    → (diff ≡ 0) × (decode_pairs hex ≡ some expected)
unfolding diff_of decode_pairs
no_difference diff [] [] size h = (h, refl)
no_difference diff [] (e ∷ expected) size h = absurd (omega (arith, size))
no_difference diff (a ∷ []) expected size h = absurd (omega (arith, size))
no_difference diff (a ∷ b ∷ s) [] size h = absurd (omega (arith, size))
no_difference diff (a ∷ b ∷ s) (want ∷ expected) size h =
    let (here, later) =
      no_difference (differs diff (hex_val a) (hex_val b) want) s expected (omega (arith, size))
        h in
    let (before, same) = undecided diff want (hex_val a) (hex_val b) expected here in
    (before, ap (pushed (hex_val a) (hex_val b)) later ∙ same)

pub hex_eq_ct-decode_pairs :
    (hex expected : Bytes) → hex_eq_ct hex expected ≡ true → decode_pairs hex ≡ some expected
unfolding hex_eq_ct
hex_eq_ct-decode_pairs hex expected h = elim (Bool-cases (length hex == (length expected * 2))) [
  | inl same ↦ (no_difference 0 hex expected (eq_sound _ _ same) (eq_sound _ _ (rw same at h))).1
  | inr other ↦ let wrong : false ≡ true = rw other at h in cc
]
