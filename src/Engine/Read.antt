-- ===== src/Engine/Read.antt =====
-- crates/osproxy-engine/src/read.rs: what a hit becomes in the view of the client, and the terms of the
-- partition filter.
pub mod Hiding
use opensearch_proxy.Prelude.{Option, none, some, List, [], ◌∷◌, map, nat_eq, list_eq, Result, ok}
use opensearch_proxy.Prelude.Map
use opensearch_proxy.Prelude.Map.{Entries}
use opensearch_proxy.Prelude.Bytes.{Bytes, ascii}
use opensearch_proxy.Core.Ids.{FieldName}
use opensearch_proxy.Core.Json.{Value, string, object, as_object, of_entries}
use opensearch_proxy.Spi.Rules.{DocIdRule, InjectedField, InjectedValue, partition_id}
use opensearch_proxy.Rewrite.Failure.{RewriteError}
use opensearch_proxy.Rewrite.Fields.{Injected, strip_fields}
use opensearch_proxy.Rewrite.Id.{map_physical_to_logical}
use opensearch_proxy.Tenancy.Router.{BodyTransform, unchanged, inject, construct_id, both}

pub record ReadShape : Type 0 where
  pub inject_names : List FieldName
  pub id_rule : Option DocIdRule

abbrev pub field_names : List InjectedField → List FieldName
field_names fields = map (λ (f : InjectedField). f.name) fields

unfoldable pub read_shape : BodyTransform → ReadShape
read_shape unchanged = record { inject_names = []; id_rule = none }
read_shape (inject fields) = record { inject_names = field_names fields; id_rule = none }
read_shape (construct_id rule) = record { inject_names = []; id_rule = some rule }
read_shape (both fields id) = record { inject_names = field_names fields; id_rule = some id }

-- The fields that hold the partition, with its id.
abbrev pub term_of : FieldName → InjectedValue → Bytes → Injected → Injected
term_of name partition_id partition later = (name, string partition) ∷ later
term_of name _ partition later = later

abbrev pub terms_of : List InjectedField → Bytes → Injected
terms_of [] partition = []
terms_of (f ∷ fields) partition = term_of f.name f.value partition (terms_of fields partition)

unfoldable pub filter_terms : BodyTransform → Bytes → Injected
filter_terms (inject fields) partition = terms_of fields partition
filter_terms (both fields id) partition = terms_of fields partition
filter_terms unchanged partition = []
filter_terms (construct_id rule) partition = []

-- `_id`, mapped back to the id of the client where that is possible.
abbrev pub logical_or_same :
    Entries Bytes Value → Option (Result (Option Bytes) RewriteError) → Entries Bytes Value
logical_or_same obj (some (ok (some logical))) = Map.insert (ascii "_id") (string logical) obj
logical_or_same obj _ = obj

abbrev pub with_logical_id :
    DocIdRule → Bytes → Entries Bytes Value → Option Value → Entries Bytes Value
with_logical_id rule partition obj (some (string physical)) =
    logical_or_same obj (map_physical_to_logical rule.template partition physical)
with_logical_id rule partition obj _ = obj

abbrev pub with_rule : Option DocIdRule → Bytes → Entries Bytes Value → Entries Bytes Value
with_rule none partition obj = obj
with_rule (some rule) partition obj = with_logical_id rule partition obj (Map.get (ascii "_id") obj)

abbrev pub with_source : List FieldName → Entries Bytes Value → Option Value → Entries Bytes Value
with_source names obj none = obj
with_source names obj (some source) =
    let (stripped, _) = strip_fields source names in Map.insert (ascii "_source") stripped obj

abbrev pub shape_object : Bytes → Bytes → ReadShape → Entries Bytes Value → Entries Bytes Value
shape_object logical_index partition shape obj =
    let obj = Map.insert (ascii "_index") (string logical_index) obj in
    let obj = Map.remove (ascii "_routing") obj in
    let obj = with_rule shape.id_rule partition obj in
    with_source shape.inject_names obj (Map.get (ascii "_source") obj)

abbrev pub shaped_or_same : Value → Bytes → Bytes → ReadShape → Option (Entries Bytes Value) → Value
shaped_or_same hit logical_index partition shape none = hit
shaped_or_same hit logical_index partition shape (some obj) =
    object (of_entries (shape_object logical_index partition shape obj))

unfoldable pub shape_hit : Value → Bytes → Bytes → ReadShape → Value
shape_hit hit logical_index partition shape =
    shaped_or_same hit logical_index partition shape (as_object hit)
