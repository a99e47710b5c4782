-- ===== src/Engine/Bulk/Tests.antt =====
-- Runs of the bulk demux of crates/osproxy-engine over the memory sink of crates/osproxy-sink and a placement
-- table of crates/osproxy-tenancy.
use opensearch_proxy.Prelude.{
  ℕ, suc, length, ◌≡◌, refl, Bool, true, false, Option, none, some, List, [], ◌∷◌, ◌++◌, Result, ok,
  err, ◌==◌, ltb, if◌then◌else◌, All, All-append, arith, nat_eq, list_eq, map,
}
use mathlib.Core.List.Permᴰ as PermD
use opensearch_proxy.Prelude.Bytes.{Bytes, ascii}
use opensearch_proxy.Prelude.Map
use opensearch_proxy.Core.Endpoint.{ingest_bulk}
use opensearch_proxy.Core.Ids.{PartitionId, Epoch}
use opensearch_proxy.Core.Json.{Value, object, end}
use opensearch_proxy.Engine.Bulk.Gate.{OnlyWritesDeliver, Refuses, demux_delivers_no_stale}
use opensearch_proxy.Engine.Bulk.Ingest.{Setting, take_items, demux_items, take_item}
use opensearch_proxy.Engine.Bulk.Item.{Serde, into_line, index_id, inject_pairs}
use opensearch_proxy.Engine.Bulk.Positions.{demux_items-Answered}
use opensearch_proxy.Engine.Bulk.Positions.Slots.{Answered}
use opensearch_proxy.Engine.Bulk.Stream.{read_ops}
use opensearch_proxy.Engine.Bulk.Stream.Buffered.{lines_of, parse_bulk-streamed}
use opensearch_proxy.Engine.Bulk.Demux.{
  flush_remaining, dispatch_all, dispatch, gate, build_batch, apply_all, apply_flushed, stale_lines,
  outcome_lines, buffer_and_flush, pending, body_len,
}
use opensearch_proxy.Engine.Bulk.Prepare.{prepare, with_entry, build_op}
use opensearch_proxy.Engine.Bulk.Line.{Line}
use opensearch_proxy.Tenancy.Router.{build_transform, target_for}
use opensearch_proxy.Rewrite.Fields.{inject_fields_bytes}
use opensearch_proxy.Core.Scan.Cursor.{skip_ws}
use opensearch_proxy.Core.Scan.Document.{object_members, object_top_level}
use opensearch_proxy.Engine.Retry.{default_policy, with_retry, retry_loop}
use opensearch_proxy.Rewrite.Bulk.{BulkItem, BulkAction, parse_bulk}
use opensearch_proxy.Rewrite.Failure.{RewriteError}
use opensearch_proxy.Rewrite.Ndjson.Splitting.{first_position}
use opensearch_proxy.Sink.Batch.{WriteOp, WriteBatch}
use opensearch_proxy.Sink.Memory
use opensearch_proxy.Sink.Memory.{MemorySink, memory_sink, write}
use opensearch_proxy.Sink.Memory.Store.{memory_sink-IsPositional}
use opensearch_proxy.Spi.Failure.{SpiError, partition_unresolved}
use opensearch_proxy.Spi.Placement.{dedicated_cluster, placement_at}
use opensearch_proxy.Spi.Request.{RequestCtx, request_ctx, HttpMethod, http1}
use opensearch_proxy.Spi.Rules.{all_sensitive}
use opensearch_proxy.Spi.Tenancy.{TenancySpi}
use opensearch_proxy.Tenancy.Migration.{WriteAdmission, admit, reject, active, write_placement}
use opensearch_proxy.Tenancy.PlacementTable.{
  PlacementTable, Entry, admit_write, admit_of, may_commit,
}
use opensearch_proxy.Tenancy.Routing.{tenancy_router, resolve_placement}

abbrev acme : Bytes
acme = ascii "acme"

-- serde_json, as far as these runs need it.
abbrev parse_any : Bytes → Option Value
parse_any text = some (object end)

abbrev print_any : Value → Option Bytes
print_any v = some (ascii "{}")

abbrev serde : Serde
serde = record {
  parse = parse_any;
  to_vec = print_any;
  quoted = λ name. name;
  printed = λ v. ascii "0";
  decimal = λ n. ascii "0";
}

-- The partition has moved on to epoch 2; the requests are still resolved at epoch 1.
abbrev entry : Entry
entry = record { state = active (dedicated_cluster (ascii "c2")); epoch = 2 }

abbrev table : PlacementTable
table = record { entries = (acme, entry) ∷ []; generation = 2 }

abbrev is_admit : WriteAdmission → Bool
is_admit admit = true
is_admit reject = false

abbrev partition_or_none : Bytes → Result PartitionId SpiError
partition_or_none [] = err (partition_unresolved [])
partition_or_none (c ∷ body) = ok acme

abbrev spi : TenancySpi MemorySink
spi = record {
  resolve_partition = λ ctx body. partition_or_none body;
  doc_id_rule = none;
  injected_fields = [];
  sensitive_fields = all_sensitive;
  placement_for = λ w partition attempt. ok (placement_at (dedicated_cluster (ascii "c1")) 1);
  admit_write = λ w partition epoch. (is_admit (admit_write table partition epoch), w);
  cluster_endpoint = λ cluster. none;
  routing_hint = λ partition. none;
}

abbrev bulk_ctx : RequestCtx
bulk_ctx = request_ctx [] [] HttpMethod.post ingest_bulk http1 (ascii "orders") [] []

abbrev setting : Setting MemorySink
setting = record {
  serde = serde;
  router = tenancy_router spi (λ w. w);
  sink = memory_sink parse_any print_any;
  ctx = bulk_ctx;
  retry = default_policy;
  up_trace = none;
  ended = λ xs. xs;
}

abbrev item : BulkAction → Option Bytes → Option Bytes → BulkItem
item action id source = record {
  action = action;
  index = none;
  id = id;
  routing = none;
  concurrency_control = false;
  source = source;
}

abbrev two_items : List BulkItem
two_items =
    item BulkAction.index (some (ascii "7")) (some (ascii "{}"))
    ∷ item BulkAction.delete none none
    ∷ []

demux_items-Answered_example :
    Answered bulk_ctx two_items (demux_items setting Memory.new two_items).lines
demux_items-Answered_example =
    demux_items-Answered setting (memory_sink-IsPositional parse_any print_any) two_items
      (λ xs. PermD.refl xs) Memory.new

abbrev ops_of : List WriteBatch → List WriteOp
ops_of [] = []
ops_of (b ∷ later) = b.ops ++ ops_of later

abbrev delivered : MemorySink → List WriteOp
delivered w = ops_of w.recorded

All-parts {ℓ κ} :
    {A : Type ℓ} (P : A → Type κ) (xs ys : List A) → All P (xs ++ ys) → All P xs × All P ys
All-parts P [] ys h = (tt, h)
All-parts P (x ∷ xs) ys h = let (a, b) = All-parts P xs ys h.1 in ((h.0, a), b)

recorded-All :
    (Q : WriteOp → Type 0) (bs : List WriteBatch) (b : WriteBatch)
    → All Q b.ops
    → All Q (ops_of bs)
    → All Q (ops_of (bs ++ (b ∷ [])))
recorded-All Q [] b h k = All-append Q b.ops [] h tt
recorded-All Q (a ∷ bs) b h k =
    let (here, later) = All-parts Q a.ops (ops_of bs) k in
    All-append Q a.ops (ops_of (bs ++ (b ∷ []))) here (recorded-All Q bs b h later)

memory_delivers : OnlyWritesDeliver setting delivered
unfolding write
memory_delivers = record {
  written = λ Q w batch fresh before. recorded-All Q w.recorded batch fresh before;
  asked = λ w p e. refl;
  waited = λ w. refl;
}

abbrev superseded : Epoch → Bool
superseded e = ltb e 2

old_refused :
    (found : Bool) (e : Epoch)
    → superseded e ≡ true
    → is_admit (admit_of e (if found then some entry else none)) ≡ false
unfolding admit_of may_commit write_placement
old_refused false e old = refl
old_refused true e old = ground arith

superseded_refused : Refuses setting superseded
unfolding admit_write Map.get
superseded_refused w p e old = old_refused (acme == p) e old

demux_delivers_no_stale_example :
    All
      (λ op. superseded op.epoch ≡ false)
      (delivered (demux_items setting Memory.new two_items).world)
demux_delivers_no_stale_example =
    demux_delivers_no_stale setting delivered memory_delivers superseded superseded_refused
      Memory.new two_items tt

-- Two deletes with a blank line between them.
abbrev cut_short : Bytes
cut_short = ascii "{\"delete\":{}}\n\n{\"delete\":{}}"

parse_bulk-streamed_example :
    (parse_bulk parse_any first_position cut_short
      ≡ read_ops parse_any
          (suc (length (lines_of parse_any cut_short)))
          (lines_of parse_any cut_short))
    × ((r : Result (List BulkItem) RewriteError) × (parse_bulk parse_any first_position cut_short
          ≡ some r))
parse_bulk-streamed_example = parse_bulk-streamed parse_any first_position (λ b s. refl) cut_short

-- The write was routed by an outdated epoch, and the delete names no partition.
abbrev status_of : Option Line → ℕ
status_of none = 0
status_of (some line) = line.status

two_statuses : map status_of (demux_items setting Memory.new two_items).lines ≡ 409 ∷ 400 ∷ []
unfolding demux_items take_items take_item prepare flush_remaining dispatch_all dispatch gate
    build_batch apply_all apply_flushed stale_lines outcome_lines buffer_and_flush pending into_line
    with_entry build_op index_id with_retry retry_loop resolve_placement build_transform target_for
    inject_pairs inject_fields_bytes object_top_level admit_write admit_of may_commit write Map.get
    Map.insert Map.remove write_placement body_len skip_ws object_members
two_statuses = refl
