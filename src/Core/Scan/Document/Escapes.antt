-- ===== src/Core/Scan/Document/Escapes.antt =====
-- crates/osproxy-core/src/json.rs: escapes that the skipping scan takes and the decoding scan refuses.
use opensearch_proxy.Prelude.{ℕ, ◌≡◌, ◌≢◌, refl, none, some, [], ◌∷◌, nat_eq, eq_false_of_ne, ok}
use opensearch_proxy.Prelude.Bytes.{Bytes}
use opensearch_proxy.Core.Scan.Cursor.{invalid, skip_ws, expect}
use opensearch_proxy.Core.Scan.Strings.{
  run_to_boundary, skip_chars, skip_string, simple_escape, decode_escape, decode_chars,
  string_decode,
}
use opensearch_proxy.Core.Scan.Skip.{skip_value_loop, skip_value}
use opensearch_proxy.Core.Scan.Document.{validate}

abbrev pub one_escape : ℕ → Bytes
one_escape e = b'"' ∷ b'\\' ∷ e ∷ b'"' ∷ []

-- An escape that JSON does not have passes as a well-formed document when it is skipped, and is refused
-- when it is decoded: for every byte but `u` that is no escape of two characters.
pub unknown_escape_accepted :
    (e : ℕ)
    → e ≢ b'u'
    → simple_escape e ≡ none
    → (validate (one_escape e) ≡ some (ok tt)) × (string_decode (one_escape e) ≡ invalid)
unfolding validate skip_value skip_value_loop skip_string skip_ws expect skip_chars run_to_boundary
    string_decode decode_chars decode_escape
unknown_escape_accepted e ne unknown =
    (rw (eq_false_of_ne e b'u' ne) refl, rw (unknown, eq_false_of_ne e b'u' ne) refl)
