-- ===== src/Spi/Failure.antt =====
-- crates/osproxy-spi/src/error.rs: the errors of an SPI implementation.
use opensearch_proxy.Prelude.{Bool, false, List}
use opensearch_proxy.Prelude.Bytes.{Bytes}
use opensearch_proxy.Core.Ids.{PartitionId}
use opensearch_proxy.Core.Endpoint.{EndpointKind}
use opensearch_proxy.Spi.Rules.{PartitionKeySpecKind}

pub data SpiError : Type 0 where
  partition_unresolved : List PartitionKeySpecKind → SpiError
  placement_missing : PartitionId → SpiError
  placement_backend : Bool → SpiError
  unsupported_endpoint : EndpointKind → SpiError
  principal_attr_missing header_missing : Bytes → SpiError
  id_rule_missing_partition : SpiError

-- the codes of crates/osproxy-core/src/error.rs that these errors have
pub data ErrorCode : Type 0 where
  partition_unresolved placement_missing placement_backend_unavailable unsupported_endpoint :
      ErrorCode

unfoldable pub error_code : SpiError → ErrorCode
error_code (SpiError.partition_unresolved _) = ErrorCode.partition_unresolved
error_code (SpiError.placement_missing _) = ErrorCode.placement_missing
error_code (SpiError.placement_backend _) = ErrorCode.placement_backend_unavailable
error_code _ = ErrorCode.unsupported_endpoint

unfoldable pub retryable : SpiError → Bool
retryable (placement_backend again) = again
retryable _ = false
