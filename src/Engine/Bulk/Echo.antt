-- ===== src/Engine/Bulk/Echo.antt =====
-- crates/osproxy-engine/src/bulkprep.rs: what the line of an operation shows is the client's own view of it.
use opensearch_proxy.Prelude.{
  nat_eq, list_eq, pair_eq, ℕ, ◌≡◌, refl, ap, Option, none, some, Result, ok, err, ok_or, ◌>>=◌,
}
use opensearch_proxy.Prelude.Bytes.{Bytes, ascii}
use opensearch_proxy.Prelude.Map
use opensearch_proxy.Core.Json.{Value}
use opensearch_proxy.Core.Trace.{TraceContext}
use opensearch_proxy.Engine.Bulk.Item.{
  Serde, Prepared, id_rule_of, ItemFailure, into_line, fail, CachedResolution, ResolutionCache,
  Preparation, or_empty, ok_of, physical_id, index_id, mapped_id, build_update, build_delete,
  build_index, doc_of, index_or,
}
use opensearch_proxy.Engine.Bulk.Line.{Line}
use opensearch_proxy.Engine.Bulk.Prepare.{
  cache_resolved, prepared_of, traced, hint_or, build_op, with_entry, prepare, looked_up,
  cached_or_lookup, in_partition,
}
use opensearch_proxy.Engine.Retry.{RetryPolicy, Run, with_retry}
use opensearch_proxy.Rewrite.Bulk.{BulkAction, BulkItem, keyword}
use opensearch_proxy.Rewrite.Fields.{Injected, inject_update, inject_fields_bytes}
use opensearch_proxy.Sink.Batch.{DocOp}
use opensearch_proxy.Spi.Failure.{SpiError}
use opensearch_proxy.Spi.Request.{RequestCtx}
use opensearch_proxy.Spi.Rules.{DocIdRule}
use opensearch_proxy.Tenancy.Routing.{Router, Resolved}

-- An id that the client gave is shown as it was given.
abbrev pub Shows : Option Bytes → Option Bytes → Type 0
Shows none shown = Unit
Shows (some id) shown = shown ≡ some id

pub record Answers (ctx : RequestCtx) (item : BulkItem) (line : Line) : Type 0 where
  pub verb : line.action ≡ keyword item.action
  pub index : line.index ≡ index_or ctx item.index
  pub id : Shows item.id line.id

pub record Describes (ctx : RequestCtx) (item : BulkItem) (p : Prepared) : Type 0 where
  pub verb : p.action ≡ keyword item.action
  pub index : p.logical_index ≡ index_or ctx item.index
  pub id : Shows item.id (some p.logical_id)

-- The outcome of a preparation belongs to its operation.
abbrev pub IsOutcomeFor : RequestCtx → BulkItem → Result Prepared ItemFailure → Type 0
IsOutcomeFor ctx item (ok p) = Describes ctx item p
IsOutcomeFor ctx item (err failure) = Answers ctx item (into_line failure)

Shows-refl : (id : Option Bytes) → Shows id id
Shows-refl none = tt
Shows-refl (some id) = refl

ok_or_cases {ℓ κ μ ν} :
    {A : Type ℓ} {B : Type κ} {E : Type μ} (P : Result B E → Type ν) (o : Option A) (e : E)
    (f : A → Result B E)
    → P (err e)
    → ((a : A) → o ≡ some a → P (f a))
    → P (ok_or o e >>= f)
ok_or_cases P none e f missing found = missing
ok_or_cases P (some a) e f missing found = found a refl

module _ (ctx : RequestCtx) (item : BulkItem) where
  abbrev IsDocFor : Result (DocOp × Bytes) ItemFailure → Type 0
  IsDocFor (ok (doc, logical)) = Shows item.id (some logical)
  IsDocFor (err failure) = Answers ctx item (into_line failure)

  fail-Answers :
      (status : ℕ) (code : Bytes)
      → Answers ctx item
          (into_line (fail (keyword item.action) (index_or ctx item.index) item.id status code))
  unfolding into_line
  fail-Answers status code = record { verb = refl; index = refl; id = Shows-refl item.id }

Shows-given : (o : Option Bytes) (a : Bytes) → o ≡ some a → Shows o (some a)
Shows-given none a h = tt
Shows-given (some id) a h = cc

module _ (ctx : RequestCtx) (item : BulkItem) (bad : Bytes → ItemFailure)
    (refused : (code : Bytes) → Answers ctx item (into_line (bad code))) where
  build_delete-IsDocFor :
      (rule : Option DocIdRule) (partition routing_value : Bytes)
      → IsDocFor ctx item (build_delete item rule partition routing_value bad)
  build_delete-IsDocFor rule partition routing_value =
      ok_or_cases (IsDocFor ctx item) item.id _ _ (refused _) λ logical given.
        ok_or_cases (IsDocFor ctx item) (physical_id rule partition logical) _ _ (refused _)
          λ id _. Shows-given item.id logical given

  module _ (serde : Serde) (fields : Injected) (rule : Option DocIdRule)
      (partition routing_value : Bytes) where
    build_update-IsDocFor :
        IsDocFor ctx item (build_update serde item fields rule partition routing_value bad)
    build_update-IsDocFor = ok_or_cases (IsDocFor ctx item) item.id _ _ (refused _) λ logical given.
        ok_or_cases (IsDocFor ctx item) (physical_id rule partition logical) _ _ (refused _) λ id _.
          ok_or_cases (IsDocFor ctx item) item.source _ _ (refused _) λ source _.
            ok_or_cases (IsDocFor ctx item) (serde.parse source) _ _ (refused _) λ update _.
              ok_or_cases (IsDocFor ctx item)
                (ok_of {A = Value} (some (inject_update update fields))) _ _ (refused _)
                λ injected _.
                  ok_or_cases (IsDocFor ctx item) (serde.to_vec injected) _ _ (refused _)
                    λ body _. Shows-given item.id logical given

    mapped_id-Shows :
        (logical : Bytes) (o physical : Option Bytes) (shown : Bytes)
        → mapped_id logical o ≡ some (physical, shown)
        → shown ≡ logical
    mapped_id-Shows logical none physical shown h = cc
    mapped_id-Shows logical (some p) physical shown h = cc

    index_id-Shows :
        (r : Option DocIdRule) (id physical : Option Bytes) (source shown : Bytes)
        → index_id r partition id source ≡ some (physical, shown)
        → Shows id (some shown)
    unfolding index_id
    index_id-Shows r none physical source shown h = tt
    index_id-Shows (some r) (some logical) physical source shown h =
        ap some (mapped_id-Shows logical _ physical shown h)
    index_id-Shows none (some logical) physical source shown h = cc

    build_index-IsDocFor :
        IsDocFor ctx item (build_index serde item fields rule partition routing_value bad)
    build_index-IsDocFor = ok_or_cases (IsDocFor ctx item) item.source _ _ (refused _) λ source _.
        ok_or_cases (IsDocFor ctx item)
          (ok_of (inject_fields_bytes serde.quoted serde.printed source fields)) _ _ (refused _)
          λ body _.
            ok_or_cases (IsDocFor ctx item) (index_id rule partition item.id source) _ _ (refused _)
              λ (ids : Option Bytes × Bytes) found.
                index_id-Shows rule item.id ids.0 source ids.1 found

    doc_of-IsDocFor :
        (action : BulkAction)
        → IsDocFor ctx item (doc_of serde action item fields rule partition routing_value bad)
    doc_of-IsDocFor BulkAction.delete = build_delete-IsDocFor rule partition routing_value
    doc_of-IsDocFor BulkAction.update = build_update-IsDocFor
    doc_of-IsDocFor BulkAction.index = build_index-IsDocFor
    doc_of-IsDocFor BulkAction.create = build_index-IsDocFor

module _ (ctx : RequestCtx) (item : BulkItem) where
  -- The write that is built around a document shows what the document was built for.
  prepared_of-IsOutcomeFor :
      (resolved : Resolved) (r : Result (DocOp × Bytes) ItemFailure)
      → IsDocFor ctx item r
      → IsOutcomeFor ctx item (
          r >>= λ built.
          ok (prepared_of resolved (keyword item.action) (index_or ctx item.index) built))
  prepared_of-IsOutcomeFor resolved (ok (doc, logical)) h = record {
    verb = refl;
    index = refl;
    id = h;
  }
  prepared_of-IsOutcomeFor resolved (err failure) h = h

  traced-IsOutcomeFor :
      (trace : Option TraceContext) (r : Result Prepared ItemFailure)
      → IsOutcomeFor ctx item r
      → IsOutcomeFor ctx item (r >>= λ p. ok (traced trace ctx.forward_headers p))
  traced-IsOutcomeFor trace (ok p) h = record { verb = h.verb; index = h.index; id = h.id }
  traced-IsOutcomeFor trace (err failure) h = h

module _ (serde : Serde) (ctx : RequestCtx) (item : BulkItem) where
  build_op-IsOutcomeFor :
      (resolved : Resolved) (fields : Injected)
      → IsOutcomeFor ctx item
          (build_op serde resolved fields item (keyword item.action) (index_or ctx item.index))
  unfolding build_op
  build_op-IsOutcomeFor resolved fields = prepared_of-IsOutcomeFor ctx item resolved _ (
      doc_of-IsDocFor ctx item _ (λ code. fail-Answers ctx item 400 code) serde fields
        (id_rule_of resolved.decision.body_transform) resolved.partition
        (hint_or resolved.routing_hint resolved.partition) item.action)

  with_entry-IsOutcomeFor :
      (trace : Option TraceContext) (entry : CachedResolution)
      → IsOutcomeFor ctx item (with_entry serde ctx item (index_or ctx item.index) trace entry)
  unfolding with_entry
  with_entry-IsOutcomeFor trace entry =
      traced-IsOutcomeFor ctx item trace _ (build_op-IsOutcomeFor entry.resolved entry.inject)

  module _ {W : Type 0} (router : Router W) (policy : RetryPolicy) (trace : Option TraceContext)
      (w : W) where
    abbrev IsFor : Preparation W → Type 0
    IsFor p = IsOutcomeFor ctx item p.outcome

    cache_resolved-IsFor :
        (key : Bytes × Bytes) (cache : ResolutionCache) (r : Result Resolved SpiError)
        → IsFor (
            cache_resolved serde router policy ctx item
              (index_or ctx item.index)
              trace
              key
              cache
              w
              r)
    cache_resolved-IsFor key cache (err e) = fail-Answers ctx item 404 (ascii "placement_missing")
    cache_resolved-IsFor key cache (ok resolved) = with_entry-IsOutcomeFor trace _

    looked_up-IsFor :
        (key : Bytes × Bytes) (cache : ResolutionCache) (run : Option (Run Resolved))
        → IsFor
            (looked_up serde router policy ctx item (index_or ctx item.index) trace key cache w run)
    looked_up-IsFor key cache none = fail-Answers ctx item 404 (ascii "placement_missing")
    looked_up-IsFor key cache (some run) = cache_resolved-IsFor key cache run.answer

  module _ {W : Type 0} (router : Router W) (policy : RetryPolicy) (trace : Option TraceContext)
      (w : W) where
    cached_or_lookup-IsFor :
        (partition : Bytes) (cache : ResolutionCache) (o : Option CachedResolution)
        → IsFor router policy trace w (
            cached_or_lookup serde router policy ctx item
              (index_or ctx item.index)
              trace
              partition
              cache
              w
              o)
    cached_or_lookup-IsFor partition cache (some entry) = with_entry-IsOutcomeFor trace entry
    cached_or_lookup-IsFor partition cache none =
        looked_up-IsFor router policy trace (router.waited w) (partition, index_or ctx item.index)
          cache
          (with_retry policy (router.resolve_placement w ctx partition (index_or ctx item.index)))

    in_partition-IsFor :
        (cache : ResolutionCache) (r : Result Bytes SpiError)
        → IsFor router policy trace w
            (in_partition serde router policy ctx item (index_or ctx item.index) trace cache w r)
    in_partition-IsFor cache (err e) = fail-Answers ctx item 400 (ascii "partition_unresolved")
    in_partition-IsFor cache (ok partition) =
        cached_or_lookup-IsFor partition cache (Map.get (partition, index_or ctx item.index) cache)

    pub prepare-IsOutcomeFor :
        (cache : ResolutionCache)
        → IsOutcomeFor ctx item (prepare serde router policy ctx trace w cache item).outcome
    unfolding prepare
    prepare-IsOutcomeFor cache =
        in_partition-IsFor cache (router.resolve_partition ctx (or_empty item.source))
