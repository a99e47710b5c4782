-- ===== src/Rewrite/Bulk.antt =====
-- crates/osproxy-rewrite/src/bulk.rs: the NDJSON body of `_bulk` as its operations. `parse` is
-- `serde_json::from_slice` to a value; the scan that validates a source line runs on fuel.

use opensearch_proxy.Prelude.{
  ℕ, Bool, true, false, Option, none, some, List, [], ◌∷◌, Result, ok, err, ok_or, ◌>>=◌, ◌==◌,
  nat_eq, list_eq, is_some, if◌then◌else◌, any,
}
use opensearch_proxy.Prelude.Bytes.{Bytes, ascii}
use opensearch_proxy.Prelude.Map.{Entries}
use opensearch_proxy.Core.Json.{Value, as_object, as_str, member}
use opensearch_proxy.Core.Scan.Cursor.{Unit₀}
use opensearch_proxy.Core.Scan.Document.{Scanned, validate}
use opensearch_proxy.Rewrite.Failure
use opensearch_proxy.Rewrite.Failure.{RewriteError, malformed_bulk_action}
use opensearch_proxy.Rewrite.Id.{Looped}
use opensearch_proxy.Rewrite.Ndjson.{non_blank_lines}

pub data BulkAction : Type 0 where
  index create update delete : BulkAction

unfoldable pub has_source : BulkAction → Bool
has_source delete = false
has_source _ = true

abbrev pub keyword : BulkAction → Bytes
keyword index = ascii "index"
keyword create = ascii "create"
keyword update = ascii "update"
keyword delete = ascii "delete"

pub record BulkItem : Type 0 where
  pub action : BulkAction
  pub index : Option Bytes
  pub id : Option Bytes
  pub routing : Option Bytes
  pub concurrency_control : Bool
  pub source : Option Bytes

pub record ActionMeta : Type 0 where
  pub index : Option Bytes
  pub id : Option Bytes
  pub routing : Option Bytes
  pub concurrency_control : Bool

abbrev pub text_of : Option Value → Option Bytes
text_of none = none
text_of (some v) = as_str v

abbrev precondition_names : List Bytes
precondition_names =
    ascii "if_seq_no" ∷ ascii "if_primary_term" ∷ ascii "version" ∷ ascii "version_type" ∷ []

unfoldable pub action_meta : Value → ActionMeta
action_meta meta = record {
  index = text_of (member meta (ascii "_index"));
  id = text_of (member meta (ascii "_id"));
  routing = text_of (member meta (ascii "routing"));
  concurrency_control = any (λ k. is_some (member meta k)) precondition_names;
}

abbrev pub action_named : Bytes → Result BulkAction RewriteError
action_named verb =
    if verb == ascii "index"
    then ok index
    else if verb == ascii "create"
    then ok create
    else if verb == ascii "update"
    then ok update
    else if verb == ascii "delete"
    then ok delete
    else err malformed_bulk_action

-- Exactly one key.
abbrev pub single_key : Entries Bytes Value → Result (BulkAction × ActionMeta) RewriteError
single_key ((verb, meta) ∷ []) = action_named verb >>= λ action. ok (action, action_meta meta)
single_key _ = err malformed_bulk_action

abbrev pub bulk_item : BulkAction → ActionMeta → Option Bytes → BulkItem
bulk_item action meta source = record {
  action = action;
  index = meta.index;
  id = meta.id;
  routing = meta.routing;
  concurrency_control = meta.concurrency_control;
  source = source;
}

abbrev pub pushed : BulkItem → Looped (List BulkItem) → Looped (List BulkItem)
pushed item none = none
pushed item (some (err e)) = some (err e)
pushed item (some (ok items)) = some (ok (item ∷ items))

-- `json::validate(source_line).map_err(…)?`, before the rest
abbrev pub if_valid : Scanned Unit₀ → BulkItem → Looped (List BulkItem) → Looped (List BulkItem)
if_valid none item later = none
if_valid (some (err e)) item later = some (err Failure.invalid_json)
if_valid (some (ok _)) item later = pushed item later

-- the action has no line behind it
abbrev pub last_action : Result (BulkAction × ActionMeta) RewriteError → Looped (List BulkItem)
last_action (err e) = some (err e)
last_action (ok (action, meta)) =
    if has_source action
    then some (err malformed_bulk_action)
    else some (ok (bulk_item action meta none ∷ []))

-- `behind` are the items of the lines after the source, `next` those of the line itself and after it
abbrev pub action_before :
    Bytes
    → Looped (List BulkItem)
    → Looped (List BulkItem)
    → Result (BulkAction × ActionMeta) RewriteError
    → Looped (List BulkItem)
action_before line behind next (err e) = some (err e)
action_before line behind next (ok (action, meta)) =
    if has_source action
    then if_valid (validate line) (bulk_item action meta (some line)) behind
    else pushed (bulk_item action meta none) next

-- The entry points of the streaming demux.
pub record ParsedAction : Type 0 where
  pub action : BulkAction
  pub meta : ActionMeta

abbrev pub sourced : BulkAction → ActionMeta → Bytes → Scanned Unit₀ → Looped BulkItem
sourced action meta line none = none
sourced action meta line (some (err e)) = some (err Failure.invalid_json)
sourced action meta line (some (ok _)) = some (ok (bulk_item action meta (some line)))

abbrev pub with_source_line : ParsedAction → Option Bytes → Looped BulkItem
with_source_line p none = some (err malformed_bulk_action)
with_source_line p (some line) = sourced p.action p.meta line (validate line)

unfoldable pub into_item : ParsedAction → Option Bytes → Looped BulkItem
unfolding has_source
into_item p source_line =
    if has_source p.action
    then with_source_line p source_line
    else some (ok (bulk_item p.action p.meta none))

module _ (parse : Bytes → Option Value) where
  unfoldable pub parse_action_line : Bytes → Result (BulkAction × ActionMeta) RewriteError
  parse_action_line line = do
    value ← ok_or (parse line) Failure.invalid_json
    obj ← ok_or (as_object value) malformed_bulk_action
    single_key obj

  unfoldable pub parse_lines : List Bytes → Looped (List BulkItem)
  unfolding has_source
  parse_lines [] = some (ok [])
  parse_lines (line ∷ []) = last_action (parse_action_line line)
  parse_lines (line ∷ source ∷ later) =
      let behind = parse_lines later in
      let next = parse_lines (source ∷ later) in
      action_before source behind next (parse_action_line line)

  unfoldable pub parse_bulk : (ℕ → Bytes → Option ℕ) → Bytes → Looped (List BulkItem)
  parse_bulk memchr body = parse_lines (non_blank_lines memchr body)

  unfoldable pub parse_bulk_action : Bytes → Result ParsedAction RewriteError
  parse_bulk_action line =
      parse_action_line line >>= λ parsed. ok (record { action = parsed.0; meta = parsed.1 })
