-- ===== src/Engine/Bulk/Item.antt =====
-- crates/osproxy-engine/src/bulkprep.rs: the write operation of one bulk item by its verb, with its ids and its
-- routing. `Serde` is what the code takes of serde_json. The loops over an id template and over a document
-- end on every input, so `.ok()` drops their fuel with the error.
use opensearch_proxy.Prelude.{
  ℕ, Option, none, some, List, [], map, Result, ok, err, ok_or, ◌>>=◌, nat_eq, list_eq, pair_eq,
  if◌then◌else◌,
}
use opensearch_proxy.Prelude.Bytes.{Bytes, ascii, split_on}
use opensearch_proxy.Prelude.Map
use opensearch_proxy.Core.Ids.{PartitionId}
use opensearch_proxy.Core.Json.{Value, string}
use opensearch_proxy.Core.Scan.Document.{scalar_at_path}
use opensearch_proxy.Engine.Bulk.Line.{Line, error_line_of}
use opensearch_proxy.Rewrite.Bulk.{BulkAction, BulkItem}
use opensearch_proxy.Rewrite.Failure.{RewriteError}
use opensearch_proxy.Rewrite.Fields.{Injected, inject_update, inject_fields_bytes, rewrite_error}
use opensearch_proxy.Rewrite.Id.{
  Looped, construct_id_with, map_logical_to_physical, map_physical_to_logical,
}
use opensearch_proxy.Sink.Batch.{DocOp, WriteOp}
use opensearch_proxy.Spi.Request.{RequestCtx}
use opensearch_proxy.Spi.Rules.{DocIdRule, InjectedField, InjectedValue, constant}
use opensearch_proxy.Tenancy.Router.{BodyTransform, unchanged, inject, construct_id, both}
use opensearch_proxy.Tenancy.Routing.{Resolved}

pub record Serde : Type 0 where
  pub parse : Bytes → Option Value
  pub to_vec : Value → Option Bytes
  pub quoted : Bytes → Bytes
  pub printed : Value → Bytes
  pub decimal : ℕ → Bytes

-- `Result::ok`, of a loop that ends
abbrev pub ok_of : {A : Type 0} → Looped A → Option A
ok_of none = none
ok_of (some (ok a)) = some a
ok_of (some (err e)) = none

pub record Prepared : Type 0 where
  pub op : WriteOp
  pub partition : PartitionId
  pub action : Bytes
  pub logical_index : Bytes
  pub logical_id : Bytes

pub record ItemFailure : Type 0 where
  pub action : Bytes
  pub logical_index : Bytes
  pub logical_id : Option Bytes
  pub status : ℕ
  pub error : Bytes

unfoldable pub into_line : ItemFailure → Line
into_line f = error_line_of f.action f.logical_index f.logical_id f.status f.error

abbrev pub fail : Bytes → Bytes → Option Bytes → ℕ → Bytes → ItemFailure
fail action logical_index logical_id status error = record {
  action = action;
  logical_index = logical_index;
  logical_id = logical_id;
  status = status;
  error = error;
}

pub record CachedResolution : Type 0 where
  pub resolved : Resolved
  pub inject : Injected

abbrev pub ResolutionCache : Type 0
ResolutionCache = Map.Entries (PartitionId × Bytes) CachedResolution

abbrev pub inject_constant : InjectedValue → Bytes → Value
inject_constant (constant v) partition = v
inject_constant _ partition = string partition

abbrev pub fields_of : BodyTransform → List InjectedField
fields_of (inject fields) = fields
fields_of (both fields id) = fields
fields_of unchanged = []
fields_of (construct_id rule) = []

unfoldable pub inject_pairs : BodyTransform → Bytes → Injected
inject_pairs transform partition =
    map (λ (f : InjectedField). (f.name, inject_constant f.value partition)) (fields_of transform)

abbrev pub id_rule_of : BodyTransform → Option DocIdRule
id_rule_of (construct_id rule) = some rule
id_rule_of (both fields id) = some id
id_rule_of unchanged = none
id_rule_of (inject fields) = none

abbrev pub routing_for : Option DocIdRule → Bytes → Option Bytes
routing_for none value = none
routing_for (some rule) value = if rule.set_routing then some value else none

unfoldable pub physical_id : Option DocIdRule → Bytes → Bytes → Option Bytes
physical_id (some rule) partition logical =
    ok_of (map_logical_to_physical rule.template partition logical)
physical_id none partition logical = some logical

-- `scalar_at_path(body, path.split('.')).map_err(RewriteError::from)`
abbrev pub body_scalar : Bytes → Bytes → Result Bytes RewriteError
body_scalar source path = elim (scalar_at_path source (split_on b'.' path)) [
  | some (ok text) ↦ ok text
  | some (err e) ↦ err (rewrite_error e)
  | none ↦ err RewriteError.invalid_json
]

-- of crates/osproxy-rewrite/src/id.rs
unfoldable pub construct_id_bytes : Bytes → Bytes → Bytes → Looped Bytes
unfolding split_on rewrite_error
construct_id_bytes template partition source =
    construct_id_with (body_scalar source) partition template

-- `.ok().flatten().unwrap_or_else(|| physical.clone())`
abbrev pub recovered : Bytes → Option (Option Bytes) → Bytes
recovered physical (some (some logical)) = logical
recovered physical _ = physical

abbrev pub mapped_id : Bytes → Option Bytes → Option (Option Bytes × Bytes)
mapped_id logical none = none
mapped_id logical (some physical) = some (some physical, logical)

abbrev pub constructed_id : Bytes → Bytes → Option Bytes → Option (Option Bytes × Bytes)
constructed_id template partition none = none
constructed_id template partition (some physical) = some (
  some physical,
  recovered physical (ok_of (map_physical_to_logical template partition physical)),
)

abbrev pub or_empty : Option Bytes → Bytes
or_empty none = []
or_empty (some id) = id

unfoldable pub index_id :
    Option DocIdRule → Bytes → Option Bytes → Bytes → Option (Option Bytes × Bytes)
unfolding construct_id_bytes
index_id (some rule) partition (some logical) source =
    mapped_id logical (ok_of (map_logical_to_physical rule.template partition logical))
index_id (some rule) partition none source =
    constructed_id rule.template partition
      (ok_of (construct_id_bytes rule.template partition source))
index_id none partition id source = some (id, or_empty id)

-- What a preparation leaves: its outcome, the world, and the cache.
pub record Preparation (W : Type 0) : Type 0 where
  pub outcome : Result Prepared ItemFailure
  pub world : W
  pub cache : ResolutionCache

-- The index of the operation: its own, or that of the request.
abbrev pub index_or : RequestCtx → Option Bytes → Bytes
index_or ctx none = ctx.logical_index
index_or ctx (some index) = index

abbrev pub build_delete :
    BulkItem
    → Option DocIdRule
    → Bytes
    → Bytes
    → (Bytes → ItemFailure)
    → Result (DocOp × Bytes) ItemFailure
build_delete item rule partition routing_value bad = do
  logical ← ok_or item.id (bad (ascii "delete_without_id"))
  id ← ok_or (physical_id rule partition logical) (bad (ascii "irreversible_id"))
  ok (DocOp.delete id (routing_for rule routing_value), logical)

abbrev pub routed_if_id : Option Bytes → Option DocIdRule → Bytes → Option Bytes
routed_if_id none rule routing_value = none
routed_if_id (some id) rule routing_value = routing_for rule routing_value

abbrev pub write_doc : BulkAction → Option Bytes → Option Bytes → Bytes → DocOp
write_doc BulkAction.create id routing body = DocOp.create id routing body
write_doc _ id routing body = DocOp.index id routing body

module _ (serde : Serde) where
  -- Each step of `build_op` that fails names the failure of the item.
  abbrev pub build_update :
      BulkItem
      → Injected
      → Option DocIdRule
      → Bytes
      → Bytes
      → (Bytes → ItemFailure)
      → Result (DocOp × Bytes) ItemFailure
  build_update item fields rule partition routing_value bad = do
    logical ← ok_or item.id (bad (ascii "update_without_id"))
    id ← ok_or (physical_id rule partition logical) (bad (ascii "irreversible_id"))
    source ← ok_or item.source (bad (ascii "missing_source"))
    update ← ok_or (serde.parse source) (bad (ascii "invalid_json"))
    injected ←
        ok_or (ok_of (some (inject_update update fields))) (bad (ascii "reserved_field_collision"))
    body ← ok_or (serde.to_vec injected) (bad (ascii "serialize"))
    ok (DocOp.update id (routing_for rule routing_value) body, logical)

  abbrev pub build_index :
      BulkItem
      → Injected
      → Option DocIdRule
      → Bytes
      → Bytes
      → (Bytes → ItemFailure)
      → Result (DocOp × Bytes) ItemFailure
  build_index item fields rule partition routing_value bad = do
    source ← ok_or item.source (bad (ascii "missing_source"))
    body ←
        ok_or (ok_of (inject_fields_bytes serde.quoted serde.printed source fields))
          (bad (ascii "reserved_field_collision"))
    ids ← ok_or (index_id rule partition item.id source) (bad (ascii "id_construction"))
    ok (write_doc item.action ids.0 (routed_if_id ids.0 rule routing_value) body, ids.1)

  abbrev pub doc_of :
      BulkAction
      → BulkItem
      → Injected
      → Option DocIdRule
      → Bytes
      → Bytes
      → (Bytes → ItemFailure)
      → Result (DocOp × Bytes) ItemFailure
  doc_of BulkAction.delete item fields rule partition routing_value bad =
      build_delete item rule partition routing_value bad
  doc_of BulkAction.update item fields rule partition routing_value bad =
      build_update item fields rule partition routing_value bad
  doc_of BulkAction.index item fields rule partition routing_value bad =
      build_index item fields rule partition routing_value bad
  doc_of BulkAction.create item fields rule partition routing_value bad =
      build_index item fields rule partition routing_value bad
