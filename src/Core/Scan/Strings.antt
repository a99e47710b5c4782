-- ===== src/Core/Scan/Strings.antt =====
-- crates/osproxy-core/src/json.rs: strings, skipped and decoded.
use opensearch_proxy.Prelude.{
  ℕ, zero, suc, ◌+◌, ◌-◌, ◌*◌, Bool, ◌||◌, Option, none, some, [], ◌∷◌, ◌++◌, ◌==◌, nat_eq, ltb,
  if◌then◌else◌, length,
}
use opensearch_proxy.Prelude.Bytes.{Bytes}
use opensearch_proxy.Prelude.Utf8.{from_utf8, encode_utf8, from_u32}
use opensearch_proxy.Core.Scan.Cursor.{
  Scan, done, invalid, out_of_fuel, ◌>>=◌, Unit₀, expect, hex4, within,
}

abbrev pub is_string_boundary : ℕ → Bool
is_string_boundary c = (c == b'"') || ((c == b'\\') || ltb c 0x20)

-- The ordinary run at the cursor, and the bytes from its boundary on: `next_string_boundary`, and the
-- slices at its offset (below, it is shown that the scan by words finds this boundary).
abbrev pub longer : ℕ → Option (Bytes × Bytes) → Option (Bytes × Bytes)
longer c none = none
longer c (some (run, rest)) = some (c ∷ run, rest)

unfoldable pub run_to_boundary : Bytes → Option (Bytes × Bytes)
run_to_boundary [] = none
run_to_boundary (c ∷ s) =
    let later = run_to_boundary s in
    if is_string_boundary c then some ([], c ∷ s) else longer c later

-- One round of `skip_string`: the run, then the quote, an escape or a control byte.
abbrev pub skip_escape : (Bytes → Scan Unit₀) → Bytes → Scan Unit₀
skip_escape loop [] = invalid
skip_escape loop (e ∷ s) = if e == b'u' then hex4 s >>= (λ _ s. loop s) else loop s

abbrev pub skip_round : (Bytes → Scan Unit₀) → Option (Bytes × Bytes) → Scan Unit₀
skip_round loop none = invalid
skip_round loop (some (run, [])) = invalid
skip_round loop (some (run, c ∷ s)) =
    if c == b'"' then done tt s else if c == b'\\' then skip_escape loop s else invalid

unfoldable pub skip_chars : ℕ → Bytes → Scan Unit₀
skip_chars zero s = out_of_fuel
skip_chars (suc fuel) s = skip_round (skip_chars fuel) (run_to_boundary s)

unfoldable pub skip_string : Bytes → Scan Unit₀
skip_string s = expect b'"' s >>= λ _ s. skip_chars (suc (length s)) s

-- The character of an escape of two.
abbrev pub simple_escape : ℕ → Option ℕ
simple_escape e =
    if e == b'"'
    then some b'"'
    else if e == b'\\'
    then some b'\\'
    else if e == b'/'
    then some b'/'
    else if e == b'b'
    then some 0x08
    else if e == b'f'
    then some 0x0c
    else if e == b'n'
    then some b'\n'
    else if e == b'r'
    then some b'\r'
    else if e == b't'
    then some b'\t'
    else none

-- The code point of `\u`, pairing surrogates.
abbrev pub low_surrogate : ℕ → ℕ → Bytes → Scan ℕ
low_surrogate hi lo s =
    if within 0xdc00 0xdfff lo
    then done (0x1_0000 + (hi - 0xd800) * 1024 + (lo - 0xdc00)) s
    else invalid

abbrev pub code_point : ℕ → Bytes → Scan ℕ
code_point hi s =
    if within 0xd800 0xdbff hi
    then (expect b'\\' s >>= λ _ s.
        expect b'u' s >>= λ _ s. hex4 s >>= λ lo s. low_surrogate hi lo s)
    else if within 0xdc00 0xdfff hi
    then invalid
    else done hi s

abbrev pub push_code : Bytes → Option ℕ → Bytes → Scan Bytes
push_code out none s = invalid
push_code out (some code) s = done (out ++ encode_utf8 code) s

unfoldable pub decode_unicode_escape : Bytes → Bytes → Scan Bytes
decode_unicode_escape out s =
    hex4 s >>= λ hi s. code_point hi s >>= λ code s. push_code out (from_u32 code) s

abbrev pub escaped : Bytes → ℕ → Bytes → Option ℕ → Scan Bytes
escaped out e s (some ch) = done (out ++ encode_utf8 ch) s
escaped out e s none = if e == b'u' then decode_unicode_escape out s else invalid

unfoldable pub decode_escape : Bytes → Bytes → Scan Bytes
decode_escape out [] = invalid
decode_escape out (e ∷ s) = escaped out e s (simple_escape e)

-- One round of `string_decode`.
abbrev pub close_string : Bytes → Bytes → Scan Bytes
close_string out s = if from_utf8 out then done out s else invalid

abbrev pub decode_round : (Bytes → Bytes → Scan Bytes) → Bytes → Option (Bytes × Bytes) → Scan Bytes
decode_round loop out none = invalid
decode_round loop out (some (run, [])) = invalid
decode_round loop out (some (run, c ∷ s)) =
    if c == b'"'
    then close_string (out ++ run) s
    else if c == b'\\'
    then decode_escape (out ++ run) s >>= loop
    else invalid

unfoldable pub decode_chars : ℕ → Bytes → Bytes → Scan Bytes
decode_chars zero out s = out_of_fuel
decode_chars (suc fuel) out s = decode_round (decode_chars fuel) out (run_to_boundary s)

unfoldable pub string_decode : Bytes → Scan Bytes
string_decode s = expect b'"' s >>= λ _ s. decode_chars (suc (length s)) [] s
