-- ===== src/Engine/Bulk/Prepare.antt =====
-- crates/osproxy-engine/src/bulkprep.rs: `prepare`, from one parsed operation to the write that is dispatched
-- for it, or to the line of its failure, with the cache of placements.
use opensearch_proxy.Prelude.{
  Option, none, some, List, Result, ok, err, ◌>>=◌, nat_eq, list_eq, pair_eq,
}
use opensearch_proxy.Prelude.Bytes.{Bytes, ascii}
use opensearch_proxy.Prelude.Map
use opensearch_proxy.Core.Ids.{PartitionId}
use opensearch_proxy.Core.Trace.{TraceContext}
use opensearch_proxy.Engine.Retry.{RetryPolicy, Run, with_retry}
use opensearch_proxy.Rewrite.Bulk.{BulkItem, keyword}
use opensearch_proxy.Rewrite.Fields.{Injected}
use opensearch_proxy.Sink.Batch.{DocOp, write_op, with_protocol, with_trace, with_forward_headers}
use opensearch_proxy.Spi.Failure.{SpiError}
use opensearch_proxy.Spi.Request.{RequestCtx}
use opensearch_proxy.Tenancy.Routing.{Router, Resolved}
use opensearch_proxy.Engine.Bulk.Item.{
  Serde, Prepared, ItemFailure, fail, CachedResolution, ResolutionCache, inject_pairs, id_rule_of,
  physical_id, index_id, or_empty, index_or, doc_of, Preparation,
}

abbrev pub hint_or : Option Bytes → Bytes → Bytes
hint_or none partition = partition
hint_or (some hint) partition = hint

abbrev pub prepared_of : Resolved → Bytes → Bytes → DocOp × Bytes → Prepared
prepared_of resolved action logical_index (doc, logical_id) = record {
  op =
      with_protocol resolved.decision.upstream_protocol
        (write_op resolved.decision.target doc resolved.decision.epoch);
  partition = resolved.partition;
  action = action;
  logical_index = logical_index;
  logical_id = logical_id;
}

abbrev pub traced : Option TraceContext → List (Bytes × Bytes) → Prepared → Prepared
traced trace headers p = record p { op = with_forward_headers headers (with_trace trace p.op) }

abbrev pub placement_missing : BulkItem → Bytes → ItemFailure
placement_missing item logical_index =
    fail (keyword item.action) logical_index item.id 404 (ascii "placement_missing")

module _ (serde : Serde) where
  unfoldable pub build_op :
      Resolved → Injected → BulkItem → Bytes → Bytes → Result Prepared ItemFailure
  unfolding physical_id index_id
  build_op resolved fields item action logical_index =
      let rule = id_rule_of resolved.decision.body_transform in
      let routing_value = hint_or resolved.routing_hint resolved.partition in
      doc_of serde item.action item fields rule resolved.partition routing_value
        (λ code. fail action logical_index item.id 400 code)
      >>= λ built. ok (prepared_of resolved action logical_index built)

  -- The end of `prepare`, with the entry of the cache.
  unfoldable pub with_entry :
      RequestCtx
      → BulkItem
      → Bytes
      → Option TraceContext
      → CachedResolution
      → Result Prepared ItemFailure
  unfolding build_op
  with_entry ctx item logical_index trace entry =
      build_op entry.resolved entry.inject item (keyword item.action) logical_index >>= λ p.
      ok (traced trace ctx.forward_headers p)

  module _ {W : Type 0} (router : Router W) (policy : RetryPolicy) where
    -- `map_err(…)?`, then the entry goes into the cache
    abbrev pub cache_resolved :
        RequestCtx
        → BulkItem
        → Bytes
        → Option TraceContext
        → PartitionId × Bytes
        → ResolutionCache
        → W
        → Result Resolved SpiError
        → Preparation W
    cache_resolved ctx item logical_index trace key cache w (err e) = record {
      outcome = err (placement_missing item logical_index);
      world = w;
      cache = cache;
    }
    cache_resolved ctx item logical_index trace key cache w (ok resolved) =
        let entry : CachedResolution = record {
          resolved = resolved;
          inject = inject_pairs resolved.decision.body_transform resolved.partition;
        } in
        record {
          outcome = with_entry ctx item logical_index trace entry;
          world = w;
          cache = Map.insert key entry cache;
        }

    -- what the retried lookup answered; a run that ends without one has no answer
    abbrev pub looked_up :
        RequestCtx
        → BulkItem
        → Bytes
        → Option TraceContext
        → PartitionId × Bytes
        → ResolutionCache
        → W
        → Option (Run Resolved)
        → Preparation W
    looked_up ctx item logical_index trace key cache w none = record {
      outcome = err (placement_missing item logical_index);
      world = w;
      cache = cache;
    }
    looked_up ctx item logical_index trace key cache w (some run) =
        cache_resolved ctx item logical_index trace key cache w run.answer

    abbrev pub cached_or_lookup :
        RequestCtx
        → BulkItem
        → Bytes
        → Option TraceContext
        → PartitionId
        → ResolutionCache
        → W
        → Option CachedResolution
        → Preparation W
    cached_or_lookup ctx item logical_index trace partition cache w (some entry) = record {
      outcome = with_entry ctx item logical_index trace entry;
      world = w;
      cache = cache;
    }
    cached_or_lookup ctx item logical_index trace partition cache w none =
        looked_up ctx item logical_index trace (partition, logical_index) cache (router.waited w)
          (with_retry policy (router.resolve_placement w ctx partition logical_index))

    abbrev pub in_partition :
        RequestCtx
        → BulkItem
        → Bytes
        → Option TraceContext
        → ResolutionCache
        → W
        → Result PartitionId SpiError
        → Preparation W
    in_partition ctx item logical_index trace cache w (err e) = record {
      outcome =
          err (fail (keyword item.action) logical_index item.id 400 (ascii "partition_unresolved"));
      world = w;
      cache = cache;
    }
    in_partition ctx item logical_index trace cache w (ok partition) =
        cached_or_lookup ctx item logical_index trace partition cache w
          (Map.get (partition, logical_index) cache)

    unfoldable pub prepare :
        RequestCtx → Option TraceContext → W → ResolutionCache → BulkItem → Preparation W
    unfolding with_entry inject_pairs with_retry
    prepare ctx trace w cache item =
        in_partition ctx item (index_or ctx item.index) trace cache w
          (router.resolve_partition ctx (or_empty item.source))
