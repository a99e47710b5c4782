-- ===== src/Engine/Bulk/Ingest.antt =====
-- crates/osproxy-engine/src/bulk.rs: `ingest_bulk`, from the buffered body to the response. `max_dispatch`
-- bounds how many tasks of the last flush run at once and leaves no trace in the response.
use opensearch_proxy.Prelude.{
  ℕ, suc, Bool, true, false, Option, none, some, List, [], ◌∷◌, Result, ok, err, ok_or, ◌>>=◌,
  if◌then◌else◌,
}
use opensearch_proxy.Prelude.Bytes.{Bytes, ascii}
use opensearch_proxy.Core.Ids.{Epoch}
use opensearch_proxy.Core.Trace.{TraceContext}
use opensearch_proxy.Engine.Bulk.Demux.{
  Lines, set_line, Demux, buffer_and_flush, flush_remaining, Entries,
}
use opensearch_proxy.Engine.Bulk.Item.{Serde, Prepared, ItemFailure, into_line, ResolutionCache}
use opensearch_proxy.Engine.Bulk.Line.{is_error, bulk_body}
use opensearch_proxy.Engine.Bulk.Prepare.{prepare}
use opensearch_proxy.Engine.Retry.{RetryPolicy}
use opensearch_proxy.Rewrite.Bulk.{BulkItem, parse_bulk}
use opensearch_proxy.Rewrite.Failure.{RewriteError}
use opensearch_proxy.Rewrite.Id.{Looped}
use opensearch_proxy.Sink.Batch.{SinkError}
use opensearch_proxy.Sink.Interface.{Sink}
use opensearch_proxy.Spi.Failure.{SpiError}
use opensearch_proxy.Spi.Request.{RequestCtx}
use opensearch_proxy.Tenancy.Routing.{Router}

-- crates/osproxy-engine/src/error.rs
pub data RequestError : Type 0 where
  spi : SpiError → RequestError
  rewrite : RewriteError → RequestError
  sink : SinkError → RequestError
  stale_epoch : Epoch → RequestError
  internal cursor payload_too_large : Bytes → RequestError

-- crates/osproxy-engine/src/pipeline.rs
pub record PipelineResponse : Type 0 where
  pub status : ℕ
  pub body : Bytes
  pub content_type : Option Bytes

abbrev pub response : Bytes → PipelineResponse
response body = record { status = 200; body = body; content_type = none }

-- `lines.iter().flatten().any(Line::is_error)`
unfoldable pub any_error : Lines → Bool
any_error [] = false
any_error (none ∷ later) = any_error later
any_error (some line ∷ later) = let rest = any_error later in if is_error line then true else rest

unfoldable pub render : Serde → Lines → Result PipelineResponse RequestError
unfolding any_error bulk_body
render serde lines =
    ok_or (serde.to_vec (bulk_body serde.decimal 0 (any_error lines) lines))
      (internal (ascii "serializing bulk response"))
    >>= λ body. ok (response body)

abbrev pub no_lines : List BulkItem → Lines
no_lines [] = []
no_lines (item ∷ items) = none ∷ no_lines items

-- The request, and what its operations go through.
pub record Setting (W : Type 0) : Type 0 where
  pub serde : Serde
  pub router : Router W
  pub sink : Sink W
  pub ctx : RequestCtx
  pub retry : RetryPolicy
  pub up_trace : Option TraceContext
  pub ended : List Entries → List Entries

pub record Progress (W : Type 0) : Type 0 where
  pub demux : Demux W
  pub cache : ResolutionCache

module _ {W : Type 0} (s : Setting W) where
  abbrev pub settle : ℕ → Demux W → Result Prepared ItemFailure → Demux W
  settle ordinal d (ok p) = buffer_and_flush s.router s.sink ordinal p d
  settle ordinal d (err failure) = record d { lines = set_line d.lines ordinal (into_line failure) }

  -- one round of the loop
  unfoldable pub take_item : ℕ → BulkItem → Progress W → Progress W
  take_item ordinal item p =
      let prepared = prepare s.serde s.router s.retry s.ctx s.up_trace p.demux.world p.cache item in
      record {
        demux = settle ordinal (record (p.demux) { world = prepared.world }) prepared.outcome;
        cache = prepared.cache;
      }

  unfoldable pub take_items : ℕ → List BulkItem → Progress W → Progress W
  take_items ordinal [] p = p
  take_items ordinal (item ∷ later) p = take_items (suc ordinal) later (take_item ordinal item p)

  abbrev pub start : W → List BulkItem → Progress W
  start w items = record {
    demux = record { world = w; buffers = []; sizes = []; lines = no_lines items };
    cache = [];
  }

  unfoldable pub demux_items : W → List BulkItem → Demux W
  unfolding take_items
  demux_items w items =
      flush_remaining s.router s.sink s.ended (take_items 0 items (start w items)).demux

  abbrev pub answered : W → Looped (List BulkItem) → Option (Result PipelineResponse RequestError)
  answered w none = none
  answered w (some (err e)) = some (err (rewrite e))
  answered w (some (ok items)) = some (render s.serde (demux_items w items).lines)

  unfoldable pub ingest_bulk :
      (ℕ → Bytes → Option ℕ) → W → Option (Result PipelineResponse RequestError)
  unfolding render demux_items
  ingest_bulk memchr w = answered w (parse_bulk s.serde.parse memchr s.ctx.body)
