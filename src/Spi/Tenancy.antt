-- ===== src/Spi/Tenancy.antt =====
-- crates/osproxy-spi/src/tenancy.rs: what an implementer provides. `W` is what the operations can see and
-- change: the backend of the placements, and what other requests do meanwhile. `placement_for` is asked
-- again by a retry, so it is given the number of the call. The credentials of a cluster, which dress a
-- target and are not part of its identity, are left out.
use opensearch_proxy.Prelude.{ℕ, Bool, true, Option, List, Result}
use opensearch_proxy.Prelude.Bytes.{Bytes}
use opensearch_proxy.Core.Ids.{PartitionId, ClusterId, Epoch}
use opensearch_proxy.Spi.Failure.{SpiError}
use opensearch_proxy.Spi.Placement.{PlacementAt}
use opensearch_proxy.Spi.Request.{RequestCtx}
use opensearch_proxy.Spi.Rules.{DocIdRule, InjectedField, SensitivitySpec}

pub record TenancySpi (W : Type 0) : Type 0 where
  pub resolve_partition : RequestCtx → Bytes → Result PartitionId SpiError
  pub doc_id_rule : Option DocIdRule
  pub injected_fields : List InjectedField
  pub sensitive_fields : SensitivitySpec
  pub placement_for : W → PartitionId → ℕ → Result PlacementAt SpiError
  pub admit_write : W → PartitionId → Epoch → Bool × W
  pub cluster_endpoint : ClusterId → Option Bytes
  pub routing_hint : PartitionId → Option Bytes

-- The provided method: no gate.
abbrev pub admit_always : {W : Type 0} → W → PartitionId → Epoch → Bool × W
admit_always w partition epoch = (true, w)
