-- ===== src/Core/Scan/Document.antt =====
-- crates/osproxy-core/src/json.rs: the scans of a whole document, and of one path in it.
pub mod Ends
pub mod Escapes
use opensearch_proxy.Prelude.{
  ℕ, zero, suc, ◌+◌, ◌-◌, Bool, true, false, ◌||◌, Option, none, some, List, [], ◌∷◌, ◌++◌, ◌==◌,
  nat_eq, list_eq, if◌then◌else◌, length, Result, ok, err,
}
use opensearch_proxy.Prelude.Bytes.{Bytes, ascii}
use opensearch_proxy.Core.Scan.Cursor.{
  Scan, done, invalid, out_of_fuel, ◌>>=◌, Unit₀, skip_ws, expect, is_digit, number, literal,
}
use opensearch_proxy.Core.Scan.Strings.{string_decode}
use opensearch_proxy.Core.Scan.Skip.{skip_value}

pub data JsonError : Type 0 where
  invalid_json not_an_object : JsonError
  path_not_scalar : Bytes → JsonError

-- `none` where a loop has run out of fuel
abbrev pub Scanned : Type 0 → Type 0
Scanned A = Option (Result A JsonError)

pub record TopLevel : Type 0 where
  pub insert_at : ℕ
  pub empty : Bool
  pub keys : List Bytes

-- `if p.peek().is_some() { return Err(Invalid) }`
abbrev pub at_end : {A : Type 0} → A → Bytes → Scanned A
at_end a [] = some (ok a)
at_end a (c ∷ s) = some (err invalid_json)

abbrev pub ended : {A : Type 0} → Scan A → Scanned A
ended (done a s) = at_end a (skip_ws s)
ended invalid = some (err invalid_json)
ended out_of_fuel = none

unfoldable pub validate : Bytes → Scanned Unit₀
validate body = ended (skip_value body)

-- One round of `object_members`: a key and its value.
abbrev pub next_member :
    (List Bytes → Bytes → Scan (List Bytes)) → List Bytes → Bytes → Scan (List Bytes)
next_member loop keys [] = invalid
next_member loop keys (c ∷ s) =
    if c == b',' then loop keys s else if c == b'}' then done keys s else invalid

abbrev pub key_round :
    (List Bytes → Bytes → Scan (List Bytes)) → List Bytes → Bytes → Scan (List Bytes)
key_round loop keys s = string_decode (skip_ws s) >>= λ key s. expect b':' (skip_ws s) >>= λ _ s.
    skip_value s >>= λ _ s. next_member loop (keys ++ (key ∷ [])) (skip_ws s)

unfoldable pub keys_loop : ℕ → List Bytes → Bytes → Scan (List Bytes)
keys_loop zero keys s = out_of_fuel
keys_loop (suc fuel) keys s = key_round (keys_loop fuel) keys s

-- A member with `keys`, where the object has some.
abbrev pub with_keys : ℕ → List Bytes → Bytes → Scan TopLevel
with_keys at keys s = done (record { insert_at = at; empty = false; keys = keys }) s

abbrev pub members_or_empty : ℕ → Bytes → Scan TopLevel
members_or_empty at [] = keys_loop 1 [] [] >>= with_keys at
members_or_empty at (c ∷ s) =
    if c == b'}'
    then done (record { insert_at = at; empty = true; keys = [] }) s
    else keys_loop (suc (length (c ∷ s))) [] (c ∷ s) >>= with_keys at

-- `object_members`, from past the opening brace at the offset `at`
unfoldable pub object_members : ℕ → Bytes → Scan TopLevel
object_members at s = members_or_empty at (skip_ws s)

-- The error of a body that is no object.
abbrev pub no_object : Scanned Unit₀ → Scanned TopLevel
no_object (some (ok _)) = some (err not_an_object)
no_object (some (err e)) = some (err e)
no_object none = none

abbrev pub top_level_at : Bytes → Bytes → Scanned TopLevel
top_level_at body [] = no_object (validate body)
top_level_at body (c ∷ s) =
    if c == b'{'
    then ended (object_members (length body - length s) s)
    else no_object (validate body)

unfoldable pub object_top_level : Bytes → Scanned TopLevel
object_top_level body = top_level_at body (skip_ws body)

-- `enter_field`: `invalid` is its `None`.
abbrev pub next_field : (Bytes → Scan Unit₀) → Bytes → Scan Unit₀
next_field loop [] = invalid
next_field loop (c ∷ s) = if c == b',' then loop s else invalid

abbrev pub found_or_next : (Bytes → Scan Unit₀) → Bytes → Bytes → Bytes → Scan Unit₀
found_or_next loop key k s =
    if k == key then done tt s else (skip_value s >>= λ _ s. next_field loop (skip_ws s))

abbrev pub field_round : (Bytes → Scan Unit₀) → Bytes → Bytes → Scan Unit₀
field_round loop key s = string_decode (skip_ws s) >>= λ k s.
    expect b':' (skip_ws s) >>= λ _ s. found_or_next loop key k (skip_ws s)

unfoldable pub fields_loop : ℕ → Bytes → Bytes → Scan Unit₀
fields_loop zero key s = out_of_fuel
fields_loop (suc fuel) key s = field_round (fields_loop fuel key) key s

abbrev pub first_field : Bytes → Bytes → Scan Unit₀
first_field key [] = fields_loop 1 key []
first_field key (c ∷ s) =
    if c == b'}' then invalid else fields_loop (suc (length (c ∷ s))) key (c ∷ s)

unfoldable pub enter_field : Bytes → Bytes → Scan Unit₀
enter_field key s = expect b'{' (skip_ws s) >>= λ _ s. first_field key (skip_ws s)

abbrev pub source_text : Bytes → Scan Unit₀ → Scan Bytes
source_text from (done _ s) = done (first_bytes (length from - length s) from) s
  where
    first_bytes : ℕ → Bytes → Bytes
    first_bytes zero s = []
    first_bytes (suc n) [] = []
    first_bytes (suc n) (c ∷ s) = c ∷ first_bytes n s
source_text from invalid = invalid
source_text from out_of_fuel = out_of_fuel

-- `scalar_string`: `invalid` is its `None`. The text of a number is ASCII, hence UTF-8.
unfoldable pub scalar_string : Bytes → Scan Bytes
scalar_string [] = invalid
scalar_string (c ∷ s) =
    if c == b'"'
    then string_decode (c ∷ s)
    else if c == b't'
    then (literal (ascii "true") (c ∷ s) >>= λ _ s. done (ascii "true") s)
    else if c == b'f'
    then (literal (ascii "false") (c ∷ s) >>= λ _ s. done (ascii "false") s)
    else if (c == b'-') || is_digit c
    then source_text (c ∷ s) (number (c ∷ s))
    else invalid

-- `walked.join(".")`
unfoldable pub join : List Bytes → Bytes
join [] = []
join (segment ∷ []) = segment
join (segment ∷ next ∷ later) = segment ++ (b'.' ∷ join (next ∷ later))

abbrev pub scalar_end : List Bytes → Scan Bytes → Scanned Bytes
scalar_end walked (done text s) = some (ok text)
scalar_end walked invalid = some (err (path_not_scalar (join walked)))
scalar_end walked out_of_fuel = none

abbrev pub entered : List Bytes → (Bytes → Scanned Bytes) → Scan Unit₀ → Scanned Bytes
entered walked continue (done _ s) = continue s
entered walked continue invalid = some (err (path_not_scalar (join walked)))
entered walked continue out_of_fuel = none

-- The loop over the segments; `walked` holds those that were seen.
unfoldable pub walk_path : List Bytes → List Bytes → Bytes → Scanned Bytes
walk_path walked [] s = scalar_end walked (scalar_string (skip_ws s))
walk_path walked (segment ∷ later) s =
    entered (walked ++ (segment ∷ [])) (λ s. walk_path (walked ++ (segment ∷ [])) later s)
      (enter_field segment s)

unfoldable pub scalar_at_path : Bytes → List Bytes → Scanned Bytes
scalar_at_path body segments = walk_path [] segments body
