-- ===== src/Engine/Tests.antt =====
-- Runs of the retry loop and of the hits of crates/osproxy-engine.
use opensearch_proxy.Prelude.{ℕ, zero, suc, ◌≡◌, true, some, Result, ok, err}
use opensearch_proxy.Core.Endpoint.{ingest_doc}
use opensearch_proxy.Spi.Request.{request_ctx, HttpMethod, http1}
use opensearch_proxy.Spi.Failure.{SpiError, placement_backend}
use opensearch_proxy.Engine.Retry.{Run, default_policy, with_retry}
use opensearch_proxy.Engine.Retry.Attempts.{Tried, with_retry-Tried}
use opensearch_proxy.Prelude.{refl, [], ◌∷◌}
use opensearch_proxy.Prelude.Map
use opensearch_proxy.Prelude.Bytes.{ascii, split_at, strip_prefix}
use opensearch_proxy.Core.Json.{Fields, string, object, end, field}
use opensearch_proxy.Core.Endpoint.{ingest_doc}
use opensearch_proxy.Spi.Request.{request_ctx, HttpMethod, http1}
use opensearch_proxy.Rewrite.Id.{map_logical_to_physical, id_frame, frame_loop, next, placeholder}
use opensearch_proxy.Spi.Rules.{DocIdRule, InjectedField, constant, references_partition}
use opensearch_proxy.Spi.Placement.{shared_index}
use opensearch_proxy.Tenancy.Router.{build_transform, resolve_inject, both}
use opensearch_proxy.Engine.Read.{filter_terms, ReadShape, shape_hit}
use opensearch_proxy.Engine.Read.Hiding.{IsHidden, mapped_back, shape_hit-IsHidden}

-- The backend is unavailable once.
abbrev recovers : ℕ → Result ℕ SpiError
recovers zero = err (placement_backend true)
recovers (suc _) = ok 7

with_retry-Tried_example :
    (run : Run ℕ) × (with_retry default_policy recovers ≡ some run)
    × Tried default_policy recovers 0 run
with_retry-Tried_example = with_retry-Tried default_policy recovers

-- A hit of the shared index, with the id of document 7 of the tenant.
abbrev hit : Fields
hit = field (ascii "_index") (string (ascii "shared")) (
    field (ascii "_id") (string (ascii "acme:7")) (
      field (ascii "_routing") (string (ascii "acme")) (
        field (ascii "_source")
          (object (
            field (ascii "_tenant") (string (ascii "acme"))
              (field (ascii "msg") (string (ascii "hi")) end)))
          end)))

abbrev tenant_rule : DocIdRule
tenant_rule = record { template = ascii "{partition}:{body.id}"; set_routing = true }

abbrev tenant_shape : ReadShape
tenant_shape = record { inject_names = ascii "_tenant" ∷ []; id_rule = some tenant_rule }

written_id :
    map_logical_to_physical (ascii "{partition}:{body.id}") (ascii "acme") (ascii "7")
    ≡ some (ok (ascii "acme:7"))
unfolding map_logical_to_physical id_frame frame_loop next placeholder split_at strip_prefix
written_id = refl

shape_hit-IsHidden_example :
    IsHidden
      (ascii "_tenant" ∷ [])
      (ascii "logs")
      (some (string (ascii "7")))
      (shape_hit (object hit) (ascii "logs") (ascii "acme") tenant_shape)
unfolding Map.get
shape_hit-IsHidden_example =
    shape_hit-IsHidden hit (ascii "logs") (ascii "acme") tenant_shape (some (string (ascii "7")))
      (mapped_back written_id)

-- A shared index whose fields do not hold the partition is accepted, and a search of it has no filter.
abbrev scoped_rule : DocIdRule
scoped_rule = record { template = ascii "{partition}"; set_routing = true }

abbrev region : InjectedField
region = record { name = ascii "_region"; value = constant (string (ascii "eu")) }

shared_index_accepted :
    build_transform
      (some scoped_rule)
      (shared_index (ascii "c1") (ascii "shared") (region ∷ []))
      (request_ctx [] [] HttpMethod.get ingest_doc http1 [] [] [])
    ≡ ok (both (region ∷ []) scoped_rule)
unfolding build_transform resolve_inject references_partition
shared_index_accepted = refl

search_unfiltered : filter_terms (both (region ∷ []) scoped_rule) (ascii "acme") ≡ []
unfolding filter_terms
search_unfiltered = refl
