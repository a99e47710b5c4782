-- ===== src/Tenancy/Resolve.antt =====
-- crates/osproxy-tenancy/src/resolve.rs: the partition of a request by the sources of a specification.
-- `body path` is what `BodyDoc::scalar` answers for the document.
pub mod Order
use opensearch_proxy.Prelude.{Option, none, some, List, [], ◌∷◌, ◌++◌, Result, ok, err}
use opensearch_proxy.Prelude.Bytes.{Bytes}
use opensearch_proxy.Core.Ids.{PartitionId}
use opensearch_proxy.Spi.Rules.{PartitionKeySpec, Specs, PartitionKeySpecKind}
use opensearch_proxy.Spi.Failure.{SpiError, partition_unresolved}
use opensearch_proxy.Spi.Request.{RequestCtx, header_value, attr}

-- What a try answers, with `tried` after it.
abbrev pub Try : Type 0
Try = Option Bytes × List PartitionKeySpecKind

-- `find_map`: the next try only if this one did not resolve.
abbrev pub or_else : Try → (List PartitionKeySpecKind → Try) → Try
or_else (some id, tried) later = (some id, tried)
or_else (none, tried) later = later tried

module _ (ctx : RequestCtx) (body : Bytes → Option Bytes) where
  unfoldable mutual
    pub try_spec : PartitionKeySpec → List PartitionKeySpecKind → Try
    try_spec (PartitionKeySpec.body_field path) tried =
        (body path, tried ++ (PartitionKeySpecKind.body_field ∷ []))
    try_spec (PartitionKeySpec.header name) tried =
        (header_value ctx name, tried ++ (PartitionKeySpecKind.header ∷ []))
    try_spec (PartitionKeySpec.principal_attr name) tried =
        (attr ctx name, tried ++ (PartitionKeySpecKind.principal_attr ∷ []))
    try_spec (PartitionKeySpec.any_of specs) tried = try_each specs tried

    pub try_each : Specs → List PartitionKeySpecKind → Try
    try_each Specs.nil tried = (none, tried)
    try_each (Specs.cons spec specs) tried =
        or_else (try_spec spec tried) (λ tried. try_each specs tried)

  abbrev pub resolved_or_tried : Try → Result PartitionId SpiError
  resolved_or_tried (some id, tried) = ok id
  resolved_or_tried (none, tried) = err (partition_unresolved tried)

  unfoldable pub resolve_partition_spec : PartitionKeySpec → Result PartitionId SpiError
  resolve_partition_spec spec = resolved_or_tried (try_spec spec [])
