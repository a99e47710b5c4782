-- ===== src/Core/Scan/Document/Ends.antt =====
-- crates/osproxy-core/src/json.rs: the scans of a document end, and the errors they answer.
use opensearch_proxy.Prelude.{
  ℕ, zero, suc, ◌-◌, ◌<◌, ◌≡◌, refl, Bool, true, false, ◌||◌, none, some, List, [], ◌∷◌, ◌++◌, ◌==◌,
  nat_eq, list_eq, if◌then◌else◌, length, arith, Result, ok, err,
}
use opensearch_proxy.Prelude.Bytes.{Bytes, ascii}
use opensearch_proxy.Core.Scan.Cursor.{
  Scan, done, invalid, out_of_fuel, ◌>>=◌, Unit₀, skip_ws, expect, is_digit, number, literal,
}
use opensearch_proxy.Core.Scan.Strings.{string_decode}
use opensearch_proxy.Core.Scan.Skip.{skip_value}
use opensearch_proxy.Core.Scan.Bounds.{
  Within, Within-le, if-Within, bind-Within, length-skip_ws, expect-Within, number-Within,
  literal-Within,
}
use opensearch_proxy.Core.Scan.Reach.{Loops, string_decode-Within}
use opensearch_proxy.Core.Scan.Values.{after_ws-Within, skip_value-Within}
use opensearch_proxy.Core.Scan.Document.{
  JsonError, invalid_json, not_an_object, path_not_scalar, Scanned, at_end, ended, validate,
  next_member, key_round, keys_loop, with_keys, members_or_empty, object_members, no_object,
  top_level_at, object_top_level, next_field, found_or_next, field_round, fields_loop, first_field,
  enter_field, source_text, scalar_string, scalar_end, entered, walk_path, scalar_at_path,
}

-- The scan answered: a value, or an error of the source.
abbrev pub Answers : {A : Type 0} → Scanned A → Type 0
Answers {A} o = (r : Result A JsonError) × (o ≡ some r)

at_end-Answers : {A : Type 0} (a : A) (s : Bytes) → Answers (at_end a s)
at_end-Answers a [] = (_, refl)
at_end-Answers a (c ∷ s) = (_, refl)

ended-Answers : {A : Type 0} (p : Scan A) (n : ℕ) → Within p n → Answers (ended p)
ended-Answers (done a s) n h = at_end-Answers a (skip_ws s)
ended-Answers invalid n h = (_, refl)
ended-Answers out_of_fuel n h = elim h [ ]

next_member-Within :
    (loop : List Bytes → Bytes → Scan (List Bytes)) (keys : List Bytes) (s : Bytes) (n : ℕ)
    → Loops (loop keys) n
    → length s < n
    → Within (next_member loop keys s) n
next_member-Within loop keys [] n loops h = tt
next_member-Within loop keys (c ∷ s) n loops h =
    if-Within (c == b',') _ _ _ (loops s (omega arith))
      (if-Within (c == b'}') _ _ _ (omega arith) tt)

key_round-Within :
    (loop : List Bytes → Bytes → Scan (List Bytes)) (keys : List Bytes) (s : Bytes)
    → ((keys : List Bytes) → Loops (loop keys) (length s))
    → Within (key_round loop keys s) (length s)
key_round-Within loop keys s loops =
    bind-Within (string_decode (skip_ws s)) _ (length s) _
      (after_ws-Within string_decode s (length s) (string_decode-Within (skip_ws s)) (omega arith))
      (λ key t h.
        bind-Within (expect b':' (skip_ws t)) _ (length s) _
          (after_ws-Within (expect b':') t (length s) (expect-Within b':' (skip_ws t))
            (omega (arith, h)))
          (λ _ u k.
            bind-Within (skip_value u) _ (length s) _
              (Within-le (skip_value u) _ _ (omega (arith, k)) (skip_value-Within u))
              (λ _ v l.
                next_member-Within loop (keys ++ (key ∷ [])) (skip_ws v) (length s) (loops _)
                  (omega (arith, l, length-skip_ws v)))))

keys_loop-Within :
    (fuel : ℕ) (keys : List Bytes) (s : Bytes)
    → length s < fuel
    → Within (keys_loop fuel keys s) (length s)
unfolding keys_loop
keys_loop-Within zero keys s h = elim h [ ]
keys_loop-Within (suc fuel) keys s h = key_round-Within (keys_loop fuel) keys s (λ ks t less.
    Within-le (keys_loop fuel ks t) _ _ (omega (arith, less))
      (keys_loop-Within fuel ks t (omega (arith, h, less))))

keyed-Within :
    (at fuel : ℕ) (s : Bytes)
    → length s < fuel
    → Within (keys_loop fuel [] s >>= with_keys at) (length s)
keyed-Within at fuel s h =
    bind-Within (keys_loop fuel [] s) _ (length s) _ (keys_loop-Within fuel [] s h) (λ keys t k. k)

members-Within : (at : ℕ) (s : Bytes) → Within (members_or_empty at s) (length s)
members-Within at [] = keyed-Within at 1 [] (omega arith)
members-Within at (c ∷ s) =
    if-Within (c == b'}') _ _ _ (omega arith)
      (keyed-Within at (suc (suc (length s))) (c ∷ s) (omega arith))

no_object-Answers : (o : Scanned Unit₀) → Answers o → Answers (no_object o)
no_object-Answers none (r, h) = cc
no_object-Answers (some (ok _)) h = (_, refl)
no_object-Answers (some (err e)) h = (_, refl)

pub validate-Answers : (body : Bytes) → Answers (validate body)
unfolding validate
validate-Answers body = ended-Answers (skip_value body) _ (skip_value-Within body)

if-Answers :
    {A : Type 0} (b : Bool) (p q : Scanned A) → Answers p → Answers q → Answers (if b then p else q)
if-Answers true p q h k = h
if-Answers false p q h k = k

top_level-Answers : (body s : Bytes) → Answers (top_level_at body s)
unfolding object_members
top_level-Answers body [] = no_object-Answers (validate body) (validate-Answers body)
top_level-Answers body (c ∷ s) =
    if-Answers (c == b'{') _ _
      (ended-Answers (members_or_empty (length body - length s) (skip_ws s)) _
        (members-Within (length body - length s) (skip_ws s)))
      (no_object-Answers (validate body) (validate-Answers body))

-- `enter_field` moves on from any bytes.
next_field-Within :
    (loop : Bytes → Scan Unit₀) (s : Bytes) (n : ℕ)
    → Loops loop n
    → length s < n
    → Within (next_field loop s) n
next_field-Within loop [] n loops h = tt
next_field-Within loop (c ∷ s) n loops h = if-Within (c == b',') _ _ _ (loops s (omega arith)) tt

found_or_next-Within :
    (loop : Bytes → Scan Unit₀) (key k s : Bytes) (n : ℕ)
    → Loops loop n
    → length s < n
    → Within (found_or_next loop key k s) n
found_or_next-Within loop key k s n loops h = if-Within (k == key) _ _ _ h (
    bind-Within (skip_value s) _ n n
      (Within-le (skip_value s) _ _ (omega (arith, h)) (skip_value-Within s))
      (λ _ t l. next_field-Within loop (skip_ws t) n loops (omega (arith, l, length-skip_ws t))))

field_round-Within :
    (loop : Bytes → Scan Unit₀) (key s : Bytes)
    → Loops loop (length s)
    → Within (field_round loop key s) (length s)
field_round-Within loop key s loops =
    bind-Within (string_decode (skip_ws s)) _ (length s) _
      (after_ws-Within string_decode s (length s) (string_decode-Within (skip_ws s)) (omega arith))
      (λ k t h.
        bind-Within (expect b':' (skip_ws t)) _ (length s) _
          (after_ws-Within (expect b':') t (length s) (expect-Within b':' (skip_ws t))
            (omega (arith, h)))
          (λ _ u l.
            found_or_next-Within loop key k (skip_ws u) (length s) loops
              (omega (arith, l, length-skip_ws u))))

fields_loop-Within :
    (fuel : ℕ) (key s : Bytes) → length s < fuel → Within (fields_loop fuel key s) (length s)
unfolding fields_loop
fields_loop-Within zero key s h = elim h [ ]
fields_loop-Within (suc fuel) key s h = field_round-Within (fields_loop fuel key) key s (λ t less.
    Within-le (fields_loop fuel key t) _ _ (omega (arith, less))
      (fields_loop-Within fuel key t (omega (arith, h, less))))

first_field-Within : (key s : Bytes) → Within (first_field key s) (length s)
first_field-Within key [] = fields_loop-Within 1 key [] (omega arith)
first_field-Within key (c ∷ s) =
    if-Within (c == b'}') _ _ _ tt
      (fields_loop-Within (suc (suc (length s))) key (c ∷ s) (omega arith))

enter_field-Within : (key s : Bytes) → Within (enter_field key s) (length s)
unfolding enter_field
enter_field-Within key s =
    bind-Within (expect b'{' (skip_ws s)) _ (length s) _
      (after_ws-Within (expect b'{') s (length s) (expect-Within b'{' (skip_ws s)) (omega arith))
      (λ _ t h.
        after_ws-Within (first_field key) t (length s) (first_field-Within key (skip_ws t))
          (omega (arith, h)))

source_text-Within :
    (from : Bytes) (p : Scan Unit₀) (n : ℕ) → Within p n → Within (source_text from p) n
source_text-Within from (done _ s) n h = h
source_text-Within from invalid n h = tt
source_text-Within from out_of_fuel n h = h

scalar_string-Within : (s : Bytes) → Within (scalar_string s) (length s)
unfolding scalar_string
scalar_string-Within [] = tt
scalar_string-Within (c ∷ s) = if-Within (c == b'"') _ _ _ (string_decode-Within (c ∷ s)) (
    if-Within (c == b't') _ _ _ (text-Within (ascii "true") (omega arith)) (
      if-Within (c == b'f') _ _ _ (text-Within (ascii "false") (omega arith)) (
        if-Within ((c == b'-') || is_digit c) _ _ _
          (source_text-Within (c ∷ s) (number (c ∷ s)) _ (number-Within (c ∷ s))) tt)))
  where
    text-Within :
        (text : Bytes)
        → 0 < length text
        → Within (literal text (c ∷ s) >>= λ _ s. done text s) (suc (length s))
    text-Within text pos =
        bind-Within (literal text (c ∷ s)) _ (suc (length s)) _ (literal-Within text (c ∷ s) pos)
          (λ _ t h. h)

-- A path's scan answers a text, or that the path is no scalar: never another error.
abbrev pub IsPathAnswer : Scanned Bytes → Type 0
IsPathAnswer none = ⊥
IsPathAnswer (some (ok text)) = Unit
IsPathAnswer (some (err (path_not_scalar path))) = Unit
IsPathAnswer (some (err invalid_json)) = ⊥
IsPathAnswer (some (err not_an_object)) = ⊥

scalar_end-IsPathAnswer :
    (walked : List Bytes) (p : Scan Bytes) (n : ℕ) → Within p n → IsPathAnswer (scalar_end walked p)
scalar_end-IsPathAnswer walked (done text s) n h = tt
scalar_end-IsPathAnswer walked invalid n h = tt
scalar_end-IsPathAnswer walked out_of_fuel n h = h

entered-IsPathAnswer :
    (walked : List Bytes) (continue : Bytes → Scanned Bytes) (p : Scan Unit₀) (n : ℕ)
    → Within p n
    → ((s : Bytes) → IsPathAnswer (continue s))
    → IsPathAnswer (entered walked continue p)
entered-IsPathAnswer walked continue (done _ s) n h each = each s
entered-IsPathAnswer walked continue invalid n h each = tt
entered-IsPathAnswer walked continue out_of_fuel n h each = h

walk_path-IsPathAnswer :
    (walked segments : List Bytes) (s : Bytes) → IsPathAnswer (walk_path walked segments s)
unfolding walk_path
walk_path-IsPathAnswer walked [] s =
    scalar_end-IsPathAnswer walked (scalar_string (skip_ws s)) _ (scalar_string-Within (skip_ws s))
walk_path-IsPathAnswer walked (segment ∷ later) s =
    entered-IsPathAnswer (walked ++ (segment ∷ [])) _ (enter_field segment s) _
      (enter_field-Within segment s)
      (λ t. walk_path-IsPathAnswer (walked ++ (segment ∷ [])) later t)

scalar_at_path-IsPathAnswer :
    (body : Bytes) (segments : List Bytes) → IsPathAnswer (scalar_at_path body segments)
unfolding scalar_at_path
scalar_at_path-IsPathAnswer body segments = walk_path-IsPathAnswer [] segments body

-- The scans of a document end for every body, well-formed or not: validating it and finding the top level
-- of its object, with an answer or an error of the source, and looking up any path in it, with the text
-- of a scalar or with the error that names the path; malformed JSON is no error of its own there.
pub document_scans_end :
    (body : Bytes) (segments : List Bytes)
    → Answers (validate body)
      × Answers (object_top_level body)
      × IsPathAnswer (scalar_at_path body segments)
unfolding object_top_level
document_scans_end body segments = (
  validate-Answers body,
  top_level-Answers body (skip_ws body),
  scalar_at_path-IsPathAnswer body segments,
)
