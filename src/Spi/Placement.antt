-- ===== src/Spi/Placement.antt =====
-- crates/osproxy-spi/src/placement.rs: where a partition currently lives.
use opensearch_proxy.Prelude.{List, Option, none}
use opensearch_proxy.Prelude.Bytes.{Bytes}
use opensearch_proxy.Core.Ids.{ClusterId, IndexName, Epoch}
use opensearch_proxy.Spi.Rules.{InjectedField}

pub data Placement : Type 0 where
  dedicated_cluster : ClusterId → Placement
  dedicated_index : ClusterId → IndexName → Placement
  shared_index : ClusterId → IndexName → List InjectedField → Placement

unfoldable pub cluster : Placement → ClusterId
cluster (dedicated_cluster c) = c
cluster (dedicated_index c _) = c
cluster (shared_index c _ _) = c

pub data MigrationPhase : Type 0 where
  settled draining cutover : MigrationPhase

pub record PlacementAt : Type 0 where
  pub placement : Placement
  pub epoch : Epoch
  pub phase : MigrationPhase
  pub endpoint : Option Bytes

-- `PlacementAt::new`
abbrev pub placement_at : Placement → Epoch → PlacementAt
placement_at p e = record { placement = p; epoch = e; phase = settled; endpoint = none }

-- `PlacementAt::with_phase`
abbrev pub with_phase : PlacementAt → MigrationPhase → PlacementAt
with_phase at p = record at { phase = p }
