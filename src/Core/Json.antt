-- ===== src/Core/Json.antt =====
-- `serde_json::Value` as the source uses it: it matches on these six constructors, and uses an
-- object as a map from names to values. A number is held by the text that it renders to.
use opensearch_proxy.Prelude.{◌≡◌, refl, ap, Bool, Option, none, some, [], ◌∷◌, nat_eq, list_eq}
use opensearch_proxy.Prelude.Bytes.{Bytes}
use opensearch_proxy.Prelude.Map
use opensearch_proxy.Prelude.Map.{Entries}

mutual
  pub data Value : Type 0 where
    null : Value
    bool : Bool → Value
    number : Bytes → Value
    string : Bytes → Value
    array : Items → Value
    object : Fields → Value

  pub data Items : Type 0 where
    nil : Items
    cons : Value → Items → Items

  pub data Fields : Type 0 where
    end : Fields
    field : Bytes → Value → Fields → Fields

-- The entries of an object.
abbrev pub entries : Fields → Entries Bytes Value
entries end = []
entries (field k v fs) = (k, v) ∷ entries fs

abbrev pub of_entries : Entries Bytes Value → Fields
of_entries [] = end
of_entries ((k, v) ∷ m) = field k v (of_entries m)

pub of_entries-entries : (fs : Fields) → of_entries (entries fs) ≡ fs
of_entries-entries end = refl
of_entries-entries (field k v fs) = ap (field k v) (of_entries-entries fs)

pub entries-of_entries : (m : Entries Bytes Value) → entries (of_entries m) ≡ m
entries-of_entries [] = refl
entries-of_entries ((k, v) ∷ m) = ap (λ r. (k, v) ∷ r) (entries-of_entries m)

-- `Value::as_object`
abbrev pub as_object : Value → Option (Entries Bytes Value)
as_object (object fs) = some (entries fs)
as_object _ = none

-- `Value::as_str`
abbrev pub as_str : Value → Option Bytes
as_str (string s) = some s
as_str _ = none

-- `Value::get` with a name: none but an object has members.
abbrev pub member : Value → Bytes → Option Value
member v name = elim (as_object v) [ none ↦ none | some fields ↦ Map.get name fields ]
