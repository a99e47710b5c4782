-- ===== src/Core/Scan/Skip.antt =====
-- crates/osproxy-core/src/json.rs: skipping one complete value. `skip_value`, `skip_object` and
-- `skip_array` call each other; every round passes over a byte at least.
use opensearch_proxy.Prelude.{ℕ, zero, suc, ◌+◌, ◌||◌, [], ◌∷◌, ◌==◌, nat_eq, if◌then◌else◌, length}
use opensearch_proxy.Prelude.Bytes.{Bytes, ascii}
use opensearch_proxy.Core.Scan.Cursor.{
  Scan, done, invalid, out_of_fuel, ◌>>=◌, Unit₀, skip_ws, expect, is_digit, number, literal,
}
use opensearch_proxy.Core.Scan.Strings.{skip_string}

-- The opening byte is read: the closing byte at once, or the loop.
abbrev pub opened : ℕ → (Bytes → Scan Unit₀) → Bytes → Scan Unit₀
opened close loop [] = loop []
opened close loop (c ∷ s) = if c == close then done tt s else loop (c ∷ s)

-- The end of a round: a comma and the next round, or the closing byte.
abbrev pub next_or_close : ℕ → (Bytes → Scan Unit₀) → Bytes → Scan Unit₀
next_or_close close loop [] = invalid
next_or_close close loop (c ∷ s) =
    if c == b',' then loop s else if c == close then done tt s else invalid

abbrev pub value_round : (Bytes → Scan Unit₀) → (Bytes → Scan Unit₀) → Bytes → Scan Unit₀
value_round members elements [] = invalid
value_round members elements (c ∷ s) =
    if c == b'{'
    then opened b'}' members (skip_ws s)
    else if c == b'['
    then opened b']' elements (skip_ws s)
    else if c == b'"'
    then skip_string (c ∷ s)
    else if c == b't'
    then literal (ascii "true") (c ∷ s)
    else if c == b'f'
    then literal (ascii "false") (c ∷ s)
    else if c == b'n'
    then literal (ascii "null") (c ∷ s)
    else if (c == b'-') || is_digit c
    then number (c ∷ s)
    else invalid

abbrev pub member_round : (Bytes → Scan Unit₀) → (Bytes → Scan Unit₀) → Bytes → Scan Unit₀
member_round value members s = skip_string (skip_ws s) >>= λ _ s.
    expect b':' (skip_ws s) >>= λ _ s. value s >>= λ _ s. next_or_close b'}' members (skip_ws s)

abbrev pub element_round : (Bytes → Scan Unit₀) → (Bytes → Scan Unit₀) → Bytes → Scan Unit₀
element_round value elements s = value s >>= λ _ s. next_or_close b']' elements (skip_ws s)

unfoldable mutual
  pub skip_value_loop : ℕ → Bytes → Scan Unit₀
  skip_value_loop zero s = out_of_fuel
  skip_value_loop (suc fuel) s =
      value_round (λ s. members_loop fuel s) (λ s. elements_loop fuel s) (skip_ws s)

  pub members_loop : ℕ → Bytes → Scan Unit₀
  members_loop zero s = out_of_fuel
  members_loop (suc fuel) s =
      member_round (λ s. skip_value_loop fuel s) (λ s. members_loop fuel s) s

  pub elements_loop : ℕ → Bytes → Scan Unit₀
  elements_loop zero s = out_of_fuel
  elements_loop (suc fuel) s =
      element_round (λ s. skip_value_loop fuel s) (λ s. elements_loop fuel s) s

-- Two steps of fuel for each byte are enough: a round of an array passes its fuel to the value in it
-- before a byte is read.
unfoldable pub skip_value : Bytes → Scan Unit₀
skip_value s = skip_value_loop (suc (length s + length s)) s
