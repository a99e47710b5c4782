-- ===== src/Rewrite/Fields.antt =====
-- crates/osproxy-rewrite/src/fields.rs: injecting tenancy fields and stripping them. A function on
-- `&mut Value` answers the new value; after an error of `inject_update` the body is not used.
pub mod Inverse
pub mod Splice
use opensearch_proxy.Prelude.{
  ℕ, zero, suc, ◌+◌, Bool, true, false, Option, none, some, List, [], ◌∷◌, ◌++◌, Result, ok, err,
  ◌>>=◌, ◌==◌, nat_eq, list_eq, is_some, if◌then◌else◌, any, map,
}
use opensearch_proxy.Prelude.Map
use opensearch_proxy.Prelude.Map.{Entries}
use opensearch_proxy.Prelude.Bytes.{Bytes, ascii}
use opensearch_proxy.Core.Ids.{FieldName}
use opensearch_proxy.Core.Json.{Value, object, as_object, of_entries}
use opensearch_proxy.Core.Scan.Document.{
  JsonError, invalid_json, not_an_object, path_not_scalar, Scanned, TopLevel, object_top_level,
}
use opensearch_proxy.Rewrite.Failure
use opensearch_proxy.Rewrite.Failure.{RewriteError, reserved_field_collision}

abbrev pub Injected : Type 0
Injected = List (FieldName × Value)

-- The first field that is already there.
unfoldable pub collision : Injected → Entries Bytes Value → Option FieldName
collision [] obj = none
collision ((name, _) ∷ later) obj =
    let rest = collision later obj in if is_some (Map.get name obj) then some name else rest

unfoldable pub insert_all : Injected → Entries Bytes Value → Entries Bytes Value
insert_all [] obj = obj
insert_all ((name, value) ∷ later) obj = insert_all later (Map.insert name value obj)

abbrev pub inserted : Injected → Entries Bytes Value → Option FieldName → Result Value RewriteError
inserted fields obj (some name) = err (reserved_field_collision name)
inserted fields obj none = ok (object (of_entries (insert_all fields obj)))

abbrev pub inject_into : Injected → Option (Entries Bytes Value) → Result Value RewriteError
inject_into fields none = err Failure.not_an_object
inject_into fields (some obj) = inserted fields obj (collision fields obj)

unfoldable pub inject_fields : Value → Injected → Result Value RewriteError
inject_fields doc fields = inject_into fields (as_object doc)

-- One of the two sub-documents of an update, where it is present.
abbrev pub put_back : Bytes → Entries Bytes Value → Value → Entries Bytes Value
put_back key obj sub = Map.insert key sub obj

abbrev pub update_sub :
    Injected
    → Bytes
    → Entries Bytes Value
    → Option Value
    → Result (Entries Bytes Value) RewriteError
update_sub fields key obj none = ok obj
update_sub fields key obj (some sub) = inject_fields sub fields >>= λ new. ok (put_back key obj new)

abbrev pub update_object : Injected → Option (Entries Bytes Value) → Result Value RewriteError
update_object fields none = err Failure.not_an_object
update_object fields (some obj) =
    update_sub fields (ascii "doc") obj (Map.get (ascii "doc") obj) >>= λ obj.
    update_sub fields (ascii "upsert") obj (Map.get (ascii "upsert") obj) >>= λ obj.
    ok (object (of_entries obj))

unfoldable pub inject_update : Value → Injected → Result Value RewriteError
inject_update update fields = update_object fields (as_object update)

-- The removals in order, with how many there were.
abbrev pub counted : Bool → Entries Bytes Value × ℕ → Entries Bytes Value × ℕ
counted removed (obj, n) = (obj, if removed then suc n else n)

unfoldable pub remove_all : List FieldName → Entries Bytes Value → Entries Bytes Value × ℕ
remove_all [] obj = (obj, 0)
remove_all (name ∷ later) obj =
    counted (is_some (Map.get name obj)) (remove_all later (Map.remove name obj))

abbrev pub strip_from : Value → List FieldName → Option (Entries Bytes Value) → Value × ℕ
strip_from doc names none = (doc, 0)
strip_from doc names (some obj) =
    let (left, n) = remove_all names obj in (object (of_entries left), n)

unfoldable pub strip_fields : Value → List FieldName → Value × ℕ
strip_fields doc names = strip_from doc names (as_object doc)

-- The byte-level twin. `quoted` and `printed` are what `serde_json::to_writer` writes for a name and for
-- a value.
abbrev pub first_bytes : ℕ → Bytes → Bytes
first_bytes zero s = []
first_bytes (suc n) [] = []
first_bytes (suc n) (c ∷ s) = c ∷ first_bytes n s

abbrev pub bytes_from : ℕ → Bytes → Bytes
bytes_from zero s = s
bytes_from (suc n) [] = []
bytes_from (suc n) (c ∷ s) = bytes_from n s

-- `From<JsonError> for RewriteError`
unfoldable pub rewrite_error : JsonError → RewriteError
rewrite_error invalid_json = Failure.invalid_json
rewrite_error not_an_object = Failure.not_an_object
rewrite_error (path_not_scalar path) = Failure.path_not_scalar path

abbrev pub taken : Injected → List Bytes → Option FieldName
taken [] keys = none
taken ((name, _) ∷ later) keys =
    let rest = taken later keys in if any (λ k. k == name) keys then some name else rest

module _ (quoted : Bytes → Bytes) (printed : Value → Bytes) where
  abbrev pub member_text : FieldName × Value → Bytes
  member_text (name, value) = quoted name ++ (b':' ∷ printed value)

  unfoldable pub members_text : Injected → Bytes
  members_text [] = []
  members_text (f ∷ []) = member_text f
  members_text (f ∷ g ∷ later) = member_text f ++ (b',' ∷ members_text (g ∷ later))

  abbrev pub spliced : Bytes → Injected → TopLevel → Bytes
  spliced body fields top =
      first_bytes top.insert_at body
      ++ (members_text fields
          ++ ((if top.empty then [] else b',' ∷ []) ++ bytes_from top.insert_at body))

  abbrev pub splice_or_refuse :
      Bytes → Injected → TopLevel → Option FieldName → Result Bytes RewriteError
  splice_or_refuse body fields top (some name) = err (reserved_field_collision name)
  splice_or_refuse body fields top none = ok (spliced body fields top)

  abbrev pub inject_top : Bytes → Injected → TopLevel → Result Bytes RewriteError
  inject_top body [] top = ok body
  inject_top body (f ∷ fields) top =
      splice_or_refuse body (f ∷ fields) top (taken (f ∷ fields) top.keys)

  abbrev pub injected_bytes :
      Bytes → Injected → Scanned TopLevel → Option (Result Bytes RewriteError)
  injected_bytes body fields none = none
  injected_bytes body fields (some (err e)) = some (err (rewrite_error e))
  injected_bytes body fields (some (ok top)) = some (inject_top body fields top)

  unfoldable pub inject_fields_bytes : Bytes → Injected → Option (Result Bytes RewriteError)
  unfolding rewrite_error
  inject_fields_bytes body fields = injected_bytes body fields (object_top_level body)
