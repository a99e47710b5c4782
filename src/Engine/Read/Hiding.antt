-- ===== src/Engine/Read/Hiding.antt =====
-- crates/osproxy-engine/src/read.rs: what a client sees of a hit.
use opensearch_proxy.Prelude.{
  ◌≡◌, refl, ap, ◌∙◌, Option, none, some, List, [], ◌∷◌, ◌==◌, nat_eq, list_eq, All, Result, ok,
  err, eq_refl, if◌then◌else◌, Bool, true, false,
}
use opensearch_proxy.Prelude.Map
use opensearch_proxy.Prelude.Map.{Entries, get-insert, get-remove}
use opensearch_proxy.Prelude.Bytes.{Bytes, ascii}
use opensearch_proxy.Core.Ids.{FieldName}
use opensearch_proxy.Core.Json.{
  Value, Fields, null, bool, number, string, array, object, entries, entries-of_entries,
}
use opensearch_proxy.Spi.Rules.{DocIdRule}
use opensearch_proxy.Rewrite.Failure.{RewriteError}
use opensearch_proxy.Rewrite.Fields.{remove_all, strip_fields}
use opensearch_proxy.Rewrite.Id.{map_logical_to_physical, map_physical_to_logical}
use opensearch_proxy.Rewrite.Id.Roundtrip.{physical-of-logical}
use opensearch_proxy.Engine.Read.{
  ReadShape, logical_or_same, with_logical_id, with_rule, with_source, shape_object, shape_hit,
}

-- No name is bound.
abbrev pub AreAbsent : List FieldName → Entries Bytes Value → Type 0
AreAbsent names obj = All (λ name. Map.get name obj ≡ none) names

-- A source without the injected fields; one that is no object has no fields.
abbrev pub IsStripped : List FieldName → Option Value → Type 0
IsStripped names (some (object fs)) = AreAbsent names (entries fs)
IsStripped names _ = Unit

abbrev pub logical_of : Option (Result (Option Bytes) RewriteError) → Option Bytes
logical_of (some (ok logical)) = logical
logical_of _ = none

abbrev pub text_of : Option Value → Option Bytes
text_of (some (string text)) = some text
text_of _ = none

-- The `_id` of a stored hit, and the one that its client is to see: the id that the write path maps to
-- the stored one. An id that is not of the template's form, or no text, or stored with no template, is
-- shown as it is.
pub data ShownAs (partition : Bytes) : Option DocIdRule → Option Value → Option Value → Type 0 where
  mapped_back :
      {rule : DocIdRule} {logical physical : Bytes}
      → map_logical_to_physical rule.template partition logical ≡ some (ok physical)
      → ShownAs partition (some rule) (some (string physical)) (some (string logical))
  foreign :
      {rule : DocIdRule} {physical : Bytes}
      → logical_of (map_physical_to_logical rule.template partition physical) ≡ none
      → ShownAs partition (some rule) (some (string physical)) (some (string physical))
  no_text :
      {rule : DocIdRule} {o : Option Value} → text_of o ≡ none → ShownAs partition (some rule) o o
  no_rule : {o : Option Value} → ShownAs partition none o o

-- The hit has the index and the `_id` that are given, no routing, and none of the names in its source.
abbrev pub IsHidden : List FieldName → Bytes → Option Value → Value → Type 0
IsHidden names logical_index shown (object fs) =
    (Map.get (ascii "_index") (entries fs) ≡ some (string logical_index))
    × ((Map.get (ascii "_id") (entries fs) ≡ shown)
        × ((Map.get (ascii "_routing") (entries fs) ≡ none)
            × IsStripped names (Map.get (ascii "_source") (entries fs))))
IsHidden names logical_index shown _ = ⊥

stays_absent :
    (k : Bytes) (names : List FieldName) (m : Entries Bytes Value)
    → Map.get k m ≡ none
    → Map.get k (remove_all names m).0 ≡ none
unfolding remove_all
stays_absent k [] m h = h
stays_absent k (name ∷ names) m h =
    stays_absent k names (Map.remove name m) (get-remove name k m ∙ rest (name == k))
  where
    rest : (b : Bool) → (if b then none else Map.get k m) ≡ none
    rest true = refl
    rest false = h

remove_all-AreAbsent :
    (names : List FieldName) (m : Entries Bytes Value) → AreAbsent names (remove_all names m).0
unfolding remove_all
remove_all-AreAbsent [] m = tt
remove_all-AreAbsent (name ∷ names) m = (
  stays_absent name names (Map.remove name m)
      (get-remove name name m ∙ ap (λ b. if b then none else Map.get name m) (eq_refl name)),
  remove_all-AreAbsent names (Map.remove name m),
)

strip_fields-IsStripped :
    (names : List FieldName) (source : Value)
    → IsStripped names (some (strip_fields source names).0)
unfolding strip_fields
strip_fields-IsStripped names (object fs) =
    rw (entries-of_entries (remove_all names (entries fs)).0)
      (remove_all-AreAbsent names (entries fs))
strip_fields-IsStripped names null = tt
strip_fields-IsStripped names (bool b) = tt
strip_fields-IsStripped names (number n) = tt
strip_fields-IsStripped names (string s) = tt
strip_fields-IsStripped names (array vs) = tt

-- The id is the only key that mapping it back writes.
id_only :
    (k : Bytes) (obj : Entries Bytes Value) (r : Option (Result (Option Bytes) RewriteError))
    → (ascii "_id" == k) ≡ false
    → Map.get k (logical_or_same obj r) ≡ Map.get k obj
id_only k obj (some (ok (some logical))) h =
    get-insert (ascii "_id") k (string logical) obj
    ∙ ap (λ b. if b then some (string logical) else Map.get k obj) h
id_only k obj (some (ok none)) h = refl
id_only k obj (some (err e)) h = refl
id_only k obj none h = refl

rule_only :
    (k : Bytes) (rule : Option DocIdRule) (partition : Bytes) (obj : Entries Bytes Value)
    → (ascii "_id" == k) ≡ false
    → Map.get k (with_rule rule partition obj) ≡ Map.get k obj
rule_only k none partition obj h = refl
rule_only k (some rule) partition obj h = by_id (Map.get (ascii "_id") obj)
  where
    by_id : (o : Option Value) → Map.get k (with_logical_id rule partition obj o) ≡ Map.get k obj
    by_id (some (string physical)) =
        id_only k obj (map_physical_to_logical rule.template partition physical) h
    by_id (some (object fs)) = refl
    by_id (some null) = refl
    by_id (some (bool b)) = refl
    by_id (some (number n)) = refl
    by_id (some (array vs)) = refl
    by_id none = refl

source_only :
    (k : Bytes) (names : List FieldName) (obj : Entries Bytes Value) (o : Option Value)
    → (ascii "_source" == k) ≡ false
    → Map.get k (with_source names obj o) ≡ Map.get k obj
source_only k names obj none h = refl
source_only k names obj (some source) h =
    get-insert (ascii "_source") k (strip_fields source names).0 obj
    ∙ ap (λ b. if b then some (strip_fields source names).0 else Map.get k obj) h

source-IsStripped :
    (names : List FieldName) (obj : Entries Bytes Value) (o : Option Value)
    → Map.get (ascii "_source") obj ≡ o
    → IsStripped names (Map.get (ascii "_source") (with_source names obj o))
source-IsStripped names obj none h = rw h tt
source-IsStripped names obj (some source) h =
    rw (get-insert (ascii "_source") (ascii "_source") (strip_fields source names).0 obj)
      (strip_fields-IsStripped names source)

-- What mapping the id back leaves under `_id`.
unmapped :
    (obj : Entries Bytes Value) (physical : Bytes) (r : Option (Result (Option Bytes) RewriteError))
    → Map.get (ascii "_id") obj ≡ some (string physical)
    → logical_of r ≡ none
    → Map.get (ascii "_id") (logical_or_same obj r) ≡ some (string physical)
unmapped obj physical (some (ok (some logical))) h no_logical = cc
unmapped obj physical (some (ok none)) h no_logical = h
unmapped obj physical (some (err e)) h no_logical = h
unmapped obj physical none h no_logical = h

no_text-same :
    (rule : DocIdRule) (partition : Bytes) (obj : Entries Bytes Value) (o : Option Value)
    → text_of o ≡ none
    → with_logical_id rule partition obj o ≡ obj
no_text-same rule partition obj (some (string text)) h = cc
no_text-same rule partition obj (some (object fs)) h = refl
no_text-same rule partition obj (some null) h = refl
no_text-same rule partition obj (some (bool b)) h = refl
no_text-same rule partition obj (some (number n)) h = refl
no_text-same rule partition obj (some (array vs)) h = refl
no_text-same rule partition obj none h = refl

with_rule-ShownAs :
    (rule : Option DocIdRule) (partition : Bytes) (obj : Entries Bytes Value)
    (stored shown : Option Value)
    → Map.get (ascii "_id") obj ≡ stored
    → ShownAs partition rule stored shown
    → Map.get (ascii "_id") (with_rule rule partition obj) ≡ shown
with_rule-ShownAs _ partition obj _ _ h
      (mapped_back {rule = rule} {logical = logical} {physical = physical} written) =
    rw (h, physical-of-logical rule.template partition logical physical written)
      (get-insert (ascii "_id") (ascii "_id") (string logical) obj)
with_rule-ShownAs _ partition obj _ _ h (foreign {rule = rule} {physical = physical} unframed) =
    ap (λ o. Map.get (ascii "_id") (with_logical_id rule partition obj o)) h
    ∙ unmapped obj physical (map_physical_to_logical rule.template partition physical) h unframed
with_rule-ShownAs _ partition obj _ _ h (no_text {rule = rule} {o = o} other) =
    ap (λ o. Map.get (ascii "_id") (with_logical_id rule partition obj o)) h
    ∙ (ap (Map.get (ascii "_id")) (no_text-same rule partition obj o other) ∙ h)
with_rule-ShownAs _ partition obj _ _ h no_rule = h

-- A hit that is an object is shown with the index of the client, without a routing, and with the id
-- that the write path maps to the stored one (an id that no template frames stays as it
-- is); and its source, if it is an object, has none of the injected fields.
pub shape_hit-IsHidden :
    (fs : Fields) (logical_index partition : Bytes) (shape : ReadShape) (shown : Option Value)
    → ShownAs partition shape.id_rule (Map.get (ascii "_id") (entries fs)) shown
    → IsHidden shape.inject_names logical_index shown
        (shape_hit (object fs) logical_index partition shape)
unfolding shape_hit
shape_hit-IsHidden fs logical_index partition shape shown id =
    let first = Map.insert (ascii "_index") (string logical_index) (entries fs) in
    let second = Map.remove (ascii "_routing") first in
    let third = with_rule shape.id_rule partition second in
    let unsourced : (k : Bytes)
        → (ascii "_source" == k) ≡ false
        → Map.get k (with_source shape.inject_names third (Map.get (ascii "_source") third))
          ≡ Map.get k third =
      λ k not_source.
        source_only k shape.inject_names third (Map.get (ascii "_source") third) not_source in
    let same_id : Map.get (ascii "_id") second ≡ Map.get (ascii "_id") (entries fs) =
      get-remove (ascii "_routing") (ascii "_id") first
      ∙ get-insert (ascii "_index") (ascii "_id") (string logical_index) (entries fs) in
    rw (entries-of_entries (shape_object logical_index partition shape (entries fs))) (
      unsourced (ascii "_index") refl
          ∙ (rule_only (ascii "_index") shape.id_rule partition second refl
              ∙ (get-remove (ascii "_routing") (ascii "_index") first
                  ∙ get-insert (ascii "_index") (ascii "_index") (string logical_index)
                      (entries fs))),
      (
        unsourced (ascii "_id") refl
            ∙ with_rule-ShownAs shape.id_rule partition second _ shown same_id id,
        (
          unsourced (ascii "_routing") refl
              ∙ (rule_only (ascii "_routing") shape.id_rule partition second refl
                  ∙ get-remove (ascii "_routing") (ascii "_routing") first),
          source-IsStripped shape.inject_names third (Map.get (ascii "_source") third) refl,
        ),
      ),
    )
