-- ===== src/Core/Tests.antt =====
-- Runs of the endpoint names and of the JSON scanner of crates/osproxy-core.
use mathlib.Core.Option
use opensearch_proxy.Prelude.{
  ℕ, zero, suc, ◌+◌, ◌*◌, ◌≡◌, ◌⊎◌, refl, Bool, true, false, some, none, ok, [], ◌∷◌, length, arith,
  ◌==◌, nat_eq, ltb, if◌then◌else◌,
}
use opensearch_proxy.Prelude.Bytes.{Bytes, ascii, strip_prefix, split_chunk}
use opensearch_proxy.Prelude.Utf8.{from_utf8}
use opensearch_proxy.Prelude.Bytes
use opensearch_proxy.Core.Cursor.{
  push_hex, hex_val, decode_pairs, decode_hex_to_string, diff_of, hex_eq_ct, binding, wrap, unwrap,
}
use opensearch_proxy.Core.Cursor.Envelope.{
  unwrap-wrap, presented_tag, AreForged, redirect_needs_collision,
}
use opensearch_proxy.Core.Endpoint.{EndpointKind, from_name}
use opensearch_proxy.Core.Scan.Cursor.{
  invalid, skip_ws, expect, number, digits, one_or_more_digits, literal,
}
use opensearch_proxy.Core.Scan.Strings.{
  run_to_boundary, skip_chars, skip_string, decode_chars, string_decode,
}
use opensearch_proxy.Core.Scan.Boundary.{
  position, Wide, trailing_zeros, boundary_mask, chunk_loop, next_string_boundary,
}
use opensearch_proxy.Core.Scan.Boundary.Lanes.{bits, IsLanewise}
use opensearch_proxy.Core.Scan.Boundary.Words.{next_string_boundary-run}
use opensearch_proxy.Core.Scan.Skip.{skip_value_loop, skip_value}
use opensearch_proxy.Core.Scan.Document.{
  validate, keys_loop, object_members, object_top_level, fields_loop, enter_field, scalar_string,
  walk_path, scalar_at_path,
}
use opensearch_proxy.Core.Scan.Document.Ends.{Answers, IsPathAnswer, document_scans_end}
use opensearch_proxy.Core.Scan.Document.Escapes.{one_escape, unknown_escape_accepted}

search_named : from_name (ascii "Search") ≡ some EndpointKind.search
unfolding from_name
search_named = refl

-- The scanner on a document, on a broken one, and on an escape that JSON does not have.
document_scans_end_example :
    Answers (validate (ascii "{\"a\":[1, 2"))
    × Answers (object_top_level (ascii "{\"a\":[1, 2"))
    × IsPathAnswer (scalar_at_path (ascii "{\"a\":[1, 2") (ascii "a" ∷ ascii "b" ∷ []))
document_scans_end_example = document_scans_end (ascii "{\"a\":[1, 2") (ascii "a" ∷ ascii "b" ∷ [])

reads_seven :
    scalar_at_path (ascii "{\"a\":{\"b\":7}}") (ascii "a" ∷ ascii "b" ∷ []) ≡ some (ok (ascii "7"))
unfolding scalar_at_path walk_path enter_field fields_loop scalar_string skip_ws expect
    string_decode decode_chars run_to_boundary from_utf8 number digits skip_value
reads_seven = refl

validates : validate (ascii "{\"a\":[1,{\"b\":-3.5e2}],\"c\":true}") ≡ some (ok tt)
unfolding validate skip_value skip_value_loop skip_string skip_chars skip_ws expect run_to_boundary
    number digits one_or_more_digits literal strip_prefix
validates = refl

keys_of_object :
    object_top_level (ascii " {\"a\":1 , \"b\":null}")
    ≡ some (ok (record { insert_at = 2; empty = false; keys = ascii "a" ∷ ascii "b" ∷ [] }))
unfolding object_top_level object_members keys_loop validate skip_value skip_value_loop skip_ws
    expect string_decode decode_chars run_to_boundary from_utf8 number digits literal strip_prefix
keys_of_object = refl

-- Vectors as the lists of their lanes; a comparison gives 255 or 0 in each lane.
abbrev lanes : (ℕ → ℕ → Bool) → Bytes → Bytes → Bytes
lanes test (a ∷ v) (b ∷ w) = (if test a b then 255 else 0) ∷ lanes test v w
lanes test _ _ = []

abbrev copies : ℕ → ℕ → Bytes
copies zero c = []
copies (suc n) c = c ∷ copies n c

abbrev high_bits : Bytes → ℕ
high_bits [] = 0
high_bits (b ∷ v) = (if ltb 127 b then 1 else 0) + 2 * high_bits v

abbrev listed : Wide Bytes
listed = record {
  from_lanes = λ v. v;
  splat = copies 32;
  simd_eq = lanes (λ a b. a == b);
  simd_lt = lanes ltb;
  to_bitmask = high_bits;
}

listed_lanes :
    (test : ℕ → ℕ → Bool) (v : Bytes) (c n : ℕ)
    → length v ≡ n
    → high_bits (lanes test v (copies n c)) ≡ bits (λ b. test b c) v
listed_lanes test [] c n h = refl
listed_lanes test (b ∷ v) c zero h = absurd (omega arith)
listed_lanes test (b ∷ v) c (suc n) h = here (test b c) (listed_lanes test v c n (omega arith))
  where
    here :
        (passes : Bool)
        → high_bits (lanes test v (copies n c)) ≡ bits (λ b. test b c) v
        → high_bits ((if passes then 255 else 0) ∷ lanes test v (copies n c))
          ≡ (if passes then 1 else 0) + 2 * bits (λ b. test b c) v
    here true later = omega (arith, later)
    here false later = omega (arith, later)

listed-IsLanewise : IsLanewise listed
listed-IsLanewise = record {
  eq_lanes = λ chunk c size. listed_lanes (λ a b. a == b) chunk c 32 size;
  lt_lanes = λ chunk c size. listed_lanes ltb chunk c 32 size;
}

-- An escape in the second word, and a quote behind both.
abbrev long_run : Bytes
long_run = ascii "a run of more than thirty-two bytes, with an \\ escape in it and then\"rest"

long_run_found : next_string_boundary listed long_run ≡ some 45
unfolding next_string_boundary chunk_loop boundary_mask trailing_zeros split_chunk position
long_run_found = refl

next_string_boundary-run_example :
    next_string_boundary listed long_run
    ≡ Option.map (λ (x : Bytes × Bytes). length x.0) (run_to_boundary long_run)
next_string_boundary-run_example = next_string_boundary-run listed listed-IsLanewise long_run

unknown_escape_accepted_example :
    (validate (one_escape b'q') ≡ some (ok tt)) × (string_decode (one_escape b'q') ≡ invalid)
unknown_escape_accepted_example = unknown_escape_accepted b'q' (omega arith) refl

-- A signer that answers the length of a message.
abbrev length_tag : Bytes → Bytes
length_tag m = length m ∷ []

abbrev wrapped_cursor : Bytes
wrapped_cursor = ascii "65752d31.0c.abc.def"

wrapped_once : wrap length_tag (ascii "eu-1") (ascii "abc.def") ≡ wrapped_cursor
unfolding wrap push_hex binding
wrapped_once = refl

unwrapped_once : unwrap length_tag wrapped_cursor ≡ some (ascii "eu-1", ascii "abc.def")
unfolding unwrap Bytes.split_at decode_hex_to_string decode_pairs hex_val hex_eq_ct diff_of binding
    from_utf8
unwrapped_once = refl

changed_tag_refused : unwrap length_tag (ascii "65752d31.0d.abc.def") ≡ none
unfolding unwrap Bytes.split_at decode_hex_to_string decode_pairs hex_val hex_eq_ct diff_of binding
    from_utf8
changed_tag_refused = refl

unwrap-wrap_example :
    unwrap length_tag (wrap length_tag (ascii "eu-1") (ascii "abc.def"))
    ≡ some (ascii "eu-1", ascii "abc.def")
unfolding binding from_utf8
unwrap-wrap_example =
    unwrap-wrap length_tag (ascii "eu-1") (ascii "abc.def")
      (omega arith, (omega arith, (omega arith, (omega arith, tt)))) refl (omega arith, tt)

presented_once :
    presented_tag wrapped_cursor ≡ some (length_tag (binding (ascii "eu-1") (ascii "abc.def")))
unfolding Bytes.split_at decode_pairs hex_val binding
presented_once = refl

redirect_needs_collision_example :
    ((ascii "eu-1" ≡ ascii "eu-1") × (ascii "abc.def" ≡ ascii "abc.def"))
    ⊎ AreForged length_tag
        (binding (ascii "eu-1") (ascii "abc.def"))
        (binding (ascii "eu-1") (ascii "abc.def"))
redirect_needs_collision_example =
    redirect_needs_collision length_tag wrapped_cursor (ascii "eu-1") (ascii "abc.def")
      (ascii "eu-1") (ascii "abc.def") refl refl presented_once unwrapped_once
