-- ===== src/Core/Cursor.antt =====
-- crates/osproxy-core/src/cursor.rs: the signed envelope that carries the cluster of a cursor.
pub mod Hex
pub mod Envelope
use opensearch_proxy.Prelude.{
  ℕ, zero, suc, ◌*◌, ◌/◌, ◌%◌, Bool, true, false, ◌||◌, not, Option, none, some, List, [], ◌∷◌,
  ◌++◌, ◌==◌, nat_eq, if◌then◌else◌, leb, ◌&&◌, length,
}
use Prim.Native.Nat.{◌-◌, ◌+◌, bit_or, bit_and, bit_xor}
use opensearch_proxy.Prelude.Bytes
use opensearch_proxy.Prelude.Bytes.{Bytes, ascii}
use opensearch_proxy.Prelude.Utf8.{from_utf8}
use opensearch_proxy.Core.Ids.{ClusterId}

-- `DIGITS[i]`; the indices that occur have four bits.
abbrev pub digit_at : Bytes → ℕ → ℕ
digit_at [] i = 0
digit_at (c ∷ s) zero = c
digit_at (c ∷ s) (suc i) = digit_at s i

abbrev pub digits : Bytes
digits = ascii "0123456789abcdef"

-- `b >> 4` and `b & 0x0f` of a byte
abbrev pub high_digit : ℕ → ℕ
high_digit b = digit_at digits (b / 16)

abbrev pub low_digit : ℕ → ℕ
low_digit b = digit_at digits (bit_and b 0x0f)

unfoldable pub push_hex : Bytes → Bytes → Bytes
push_hex out [] = out
push_hex out (b ∷ bytes) = push_hex (out ++ (high_digit b ∷ low_digit b ∷ [])) bytes

abbrev between : ℕ → ℕ → ℕ → Bool
between low high c = leb low c && leb c high

unfoldable pub hex_val : ℕ → Option ℕ
hex_val c =
    if between b'0' b'9' c
    then some (c - b'0')
    else if between b'a' b'f' c
    then some ((c - b'a') + 10)
    else if between b'A' b'F' c
    then some ((c - b'A') + 10)
    else none

-- `(hi << 4) | lo` in a `u8`
abbrev pub byte_of : ℕ → ℕ → ℕ
byte_of hi lo = bit_or ((hi * 16) % 256) lo

-- The loop over `chunks_exact(2)`: an odd digit at the end is in no chunk.
abbrev pub pushed : Option ℕ → Option ℕ → Option Bytes → Option Bytes
pushed (some hi) (some lo) (some later) = some (byte_of hi lo ∷ later)
pushed _ _ _ = none

unfoldable pub decode_pairs : Bytes → Option Bytes
decode_pairs (a ∷ b ∷ s) = pushed (hex_val a) (hex_val b) (decode_pairs s)
decode_pairs _ = some []

abbrev pub utf8_or_none : Option Bytes → Option Bytes
utf8_or_none none = none
utf8_or_none (some out) = if from_utf8 out then some out else none

unfoldable pub decode_hex_to_string : Bytes → Option Bytes
decode_hex_to_string hex =
    if not (length hex % 2 == 0) then none else utf8_or_none (decode_pairs hex)

-- `diff`, over the pairs of digits and the bytes that are expected of them.
abbrev pub differs : ℕ → Option ℕ → Option ℕ → ℕ → ℕ
differs diff (some hi) (some lo) want = bit_or diff (bit_xor (byte_of hi lo) want)
differs diff _ _ want = bit_or diff 1

unfoldable pub diff_of : ℕ → Bytes → Bytes → ℕ
diff_of diff (a ∷ b ∷ s) (want ∷ expected) =
    diff_of (differs diff (hex_val a) (hex_val b) want) s expected
diff_of diff _ _ = diff

unfoldable pub hex_eq_ct : Bytes → Bytes → Bool
hex_eq_ct hex expected =
    if not (length hex == (length expected * 2)) then false else diff_of 0 hex expected == 0

unfoldable pub binding : ClusterId → Bytes → Bytes
binding cluster cursor = cluster ++ (0x1f ∷ cursor)

-- `tag` is the signer: the implementation behind the crypto provider is in no file here.
module _ (tag : Bytes → Bytes) where
  unfoldable pub wrap : ClusterId → Bytes → Bytes
  wrap cluster cursor =
      push_hex (push_hex [] cluster ++ (b'.' ∷ [])) (tag (binding cluster cursor))
      ++ (b'.' ∷ cursor)

  abbrev pub verified : Bytes → Bytes → Option Bytes → Option (ClusterId × Bytes)
  verified tag_hex cursor none = none
  verified tag_hex cursor (some cluster) =
      if hex_eq_ct tag_hex (tag (binding cluster cursor)) then some (cluster, cursor) else none

  -- The second and the third part of `splitn(3, '.')`.
  abbrev pub unwrap_rest : Bytes → Option (Bytes × Bytes) → Option (ClusterId × Bytes)
  unwrap_rest cluster_hex none = none
  unwrap_rest cluster_hex (some (tag_hex, cursor)) =
      verified tag_hex cursor (decode_hex_to_string cluster_hex)

  abbrev pub unwrap_parts : Option (Bytes × Bytes) → Option (ClusterId × Bytes)
  unwrap_parts none = none
  unwrap_parts (some (cluster_hex, rest)) = unwrap_rest cluster_hex (Bytes.split_at b'.' rest)

  unfoldable pub unwrap : Bytes → Option (ClusterId × Bytes)
  unwrap token = unwrap_parts (Bytes.split_at b'.' token)
