-- ===== src/Rewrite/Fields/Inverse.antt =====
-- crates/osproxy-rewrite/src/fields.rs: stripping undoes injecting.
use opensearch_proxy.Prelude.{
  ℕ, ◌≡◌, ◌≢◌, refl, sym, ap, ◌∙◌, true, Option, none, some, List, [], ◌∷◌, ok, nat_eq, list_eq,
  is_some, if◌then◌else◌, length, arith, eq_refl, eq_false_of_ne, All,
}
use opensearch_proxy.Prelude.Map
use opensearch_proxy.Prelude.Map.{Entries, get-insert, get-remove}
use opensearch_proxy.Prelude.Bytes.{Bytes}
use opensearch_proxy.Core.Ids.{FieldName}
use opensearch_proxy.Core.Json.{
  Value, Fields, null, bool, number, string, array, object, as_object, entries, of_entries,
  of_entries-entries, entries-of_entries,
}
use opensearch_proxy.Rewrite.Fields.{
  Injected, collision, insert_all, inserted, inject_fields, counted, remove_all, strip_from,
  strip_fields,
}

abbrev pub names : Injected → List FieldName
names [] = []
names ((name, _) ∷ later) = name ∷ names later

-- No name is listed twice.
abbrev pub AreDistinct : Injected → Type 0
AreDistinct [] = Unit
AreDistinct ((name, _) ∷ later) = All (λ other. name ≢ other) (names later) × AreDistinct later

remove_absent : (k : Bytes) (m : Entries Bytes Value) → Map.get k m ≡ none → Map.remove k m ≡ m
unfolding Map.get Map.remove
remove_absent k [] h = refl
remove_absent k ((j, v) ∷ m) h = ground (arith, remove_absent k m)

remove_twice :
    (j k : Bytes) (m : Entries Bytes Value)
    → Map.remove j (Map.remove k m) ≡ Map.remove k (Map.remove j m)
unfolding Map.remove
remove_twice j k [] = refl
remove_twice j k ((i, v) ∷ m) = ground (arith, remove_twice j k m)

remove-insert_ne :
    (j k : Bytes) (v : Value) (m : Entries Bytes Value)
    → j ≢ k
    → Map.remove j (Map.insert k v m) ≡ Map.insert k v (Map.remove j m)
unfolding Map.insert Map.remove
remove-insert_ne j k v m ne =
    rw (eq_false_of_ne k j (λ h. ne (sym h))) (ap (λ t. (k, v) ∷ t) (remove_twice j k m))

remove-insert :
    (k : Bytes) (v : Value) (m : Entries Bytes Value)
    → Map.get k m ≡ none
    → Map.remove k (Map.insert k v m) ≡ m
unfolding Map.insert Map.remove
remove-insert k v m absent =
    rw (eq_refl k) (ap (Map.remove k) (remove_absent k m absent) ∙ remove_absent k m absent)

remove-insert_all :
    (k : Bytes) (fields : Injected) (m : Entries Bytes Value)
    → All (λ other. k ≢ other) (names fields)
    → Map.remove k (insert_all fields m) ≡ insert_all fields (Map.remove k m)
unfolding insert_all
remove-insert_all k [] m apart = refl
remove-insert_all k ((name, v) ∷ fields) m (ne, apart) =
    remove-insert_all k fields (Map.insert name v m) apart
    ∙ ap (insert_all fields) (remove-insert_ne k name v m ne)

get-insert_ne :
    (j k : Bytes) (v : Value) (m : Entries Bytes Value)
    → k ≢ j
    → Map.get j (Map.insert k v m) ≡ Map.get j m
get-insert_ne j k v m ne =
    get-insert k j v m ∙ ap (λ b. if b then some v else Map.get j m) (eq_false_of_ne k j ne)

get-insert_all :
    (k : Bytes) (fields : Injected) (m : Entries Bytes Value)
    → All (λ other. k ≢ other) (names fields)
    → Map.get k (insert_all fields m) ≡ Map.get k m
unfolding insert_all
get-insert_all k [] m apart = refl
get-insert_all k ((name, v) ∷ fields) m (ne, apart) =
    get-insert_all k fields (Map.insert name v m) apart ∙ get-insert_ne k name v m (λ h. ne (sym h))

found_after :
    (k : Bytes) (v : Value) (m : Entries Bytes Value) → Map.get k (Map.insert k v m) ≡ some v
found_after k v m = get-insert k k v m ∙ ap (λ b. if b then some v else Map.get k m) (eq_refl k)

-- No field is there before.
abbrev AreNew : Injected → Entries Bytes Value → Type 0
AreNew fields m = All (λ name. Map.get name m ≡ none) (names fields)

remove_all-insert_all :
    (fields : Injected) (m : Entries Bytes Value)
    → AreDistinct fields
    → AreNew fields m
    → remove_all (names fields) (insert_all fields m) ≡ (m, length fields)
unfolding remove_all insert_all
remove_all-insert_all [] m distinct new = refl
remove_all-insert_all ((name, v) ∷ fields) m (apart, distinct) (absent, new) =
    let inside : Map.get name (insert_all fields (Map.insert name v m)) ≡ some v =
      get-insert_all name fields (Map.insert name v m) apart ∙ found_after name v m in
    let gone : Map.remove name (insert_all fields (Map.insert name v m)) ≡ insert_all fields m =
      remove-insert_all name fields (Map.insert name v m) apart
      ∙ ap (insert_all fields) (remove-insert name v m absent) in
    (ap
        (λ b.
          counted (is_some b)
            (remove_all (names fields) (Map.remove name (insert_all fields (Map.insert name v m)))))
        inside
      ∙ ap (λ t. counted true (remove_all (names fields) t)) gone)
    ∙ ap (counted true) (remove_all-insert_all fields m distinct new)

no_collision :
    (name : Bytes) (o : Option Value) (later : Option FieldName)
    → (if is_some o then some name else later) ≡ none
    → (o ≡ none) × (later ≡ none)
no_collision name none later h = (refl, h)
no_collision name (some v) later h = cc

collision-AreNew :
    (fields : Injected) (m : Entries Bytes Value) → collision fields m ≡ none → AreNew fields m
unfolding collision
collision-AreNew [] m h = tt
collision-AreNew ((name, v) ∷ fields) m h =
    let (absent, later) = no_collision name (Map.get name m) (collision fields m) h in
    (absent, collision-AreNew fields m later)

stripped :
    (fields : Injected) (fs : Fields) (out : Value) (o : Option FieldName)
    → AreDistinct fields
    → collision fields (entries fs) ≡ o
    → inserted fields (entries fs) o ≡ ok out
    → strip_fields out (names fields) ≡ (object fs, length fields)
unfolding strip_fields
stripped fields fs out (some name) distinct none_there h = cc
stripped fields fs out none distinct none_there h =
    let same : object (of_entries (insert_all fields (entries fs))) ≡ out = cc in
    let left : remove_all (names fields) (insert_all fields (entries fs))
        ≡ (entries fs, length fields) =
      remove_all-insert_all fields (entries fs) distinct
        (collision-AreNew fields (entries fs) none_there) in
    (sym (ap (λ v. strip_from v (names fields) (as_object v)) same)
      ∙ ap (λ m. let (l, n) = remove_all (names fields) m in (object (of_entries l), n))
          (entries-of_entries (insert_all fields (entries fs))))
    ∙ (ap (λ (x : Entries Bytes Value × ℕ). (object (of_entries x.0), x.1)) left
        ∙ ap (λ f. (object f, length fields)) (of_entries-entries fs))

-- Stripping undoes injecting: if fields with distinct names are injected into a document, stripping
-- their names from the result gives back the document, and counts every field.
pub strip_fields-inject_fields :
    (doc out : Value) (fields : Injected)
    → AreDistinct fields
    → inject_fields doc fields ≡ ok out
    → strip_fields out (names fields) ≡ (doc, length fields)
unfolding inject_fields
strip_fields-inject_fields null out fields distinct h = cc
strip_fields-inject_fields (bool b) out fields distinct h = cc
strip_fields-inject_fields (number n) out fields distinct h = cc
strip_fields-inject_fields (string s) out fields distinct h = cc
strip_fields-inject_fields (array items) out fields distinct h = cc
strip_fields-inject_fields (object fs) out fields distinct h =
    stripped fields fs out (collision fields (entries fs)) distinct refl h
