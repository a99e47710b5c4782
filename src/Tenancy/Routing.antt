-- ===== src/Tenancy/Routing.antt =====
-- crates/osproxy-tenancy/src/router.rs: `TenancyRouter` over an implementer's rules, and the seam `Router`
-- through which the engine drives it.
use opensearch_proxy.Prelude.{ℕ, Bool, Option, List, [], Result, ok, err, ◌>>=◌, if◌then◌else◌}
use opensearch_proxy.Prelude.Bytes.{Bytes}
use opensearch_proxy.Core.Ids.{PartitionId, ClusterId, Epoch}
use opensearch_proxy.Core.Endpoint.{is_tenancy_aware}
use opensearch_proxy.Spi.Failure.{SpiError, unsupported_endpoint}
use opensearch_proxy.Spi.Placement.{PlacementAt, MigrationPhase}
use opensearch_proxy.Spi.Request.{RequestCtx, Protocol}
use opensearch_proxy.Spi.Tenancy.{TenancySpi}
use opensearch_proxy.Tenancy.Router.{BodyTransform, Target, target_for, build_transform}

-- `HeaderOp` of crates/osproxy-spi/src/decision.rs
pub data HeaderOp : Type 0 where
  add replace : Bytes → Bytes → HeaderOp
  remove : Bytes → HeaderOp

pub record RouteDecision : Type 0 where
  pub target : Target
  pub upstream_protocol : Protocol
  pub header_ops : List HeaderOp
  pub body_transform : BodyTransform
  pub epoch : Epoch

pub record Resolved : Type 0 where
  pub partition : PartitionId
  pub decision : RouteDecision
  pub migration : MigrationPhase
  pub routing_hint : Option Bytes

-- The trait `Router`. `admit_write` may change the world, and so may the wait for a placement.
pub record Router (W : Type 0) : Type 0 where
  pub resolve : W → RequestCtx → ℕ → Result Resolved SpiError
  pub resolve_partition : RequestCtx → Bytes → Result PartitionId SpiError
  pub resolve_placement : W → RequestCtx → PartitionId → Bytes → ℕ → Result Resolved SpiError
  pub waited : W → W
  pub admit_write : W → PartitionId → Epoch → Bool × W
  pub cluster_endpoint : ClusterId → Option Bytes

module _ {W : Type 0} (spi : TenancySpi W) where
  abbrev pub decided : RequestCtx → PartitionId → Bytes → PlacementAt → BodyTransform → Resolved
  decided ctx partition logical_index at transform = record {
    partition = partition;
    decision = record {
      target = target_for at.placement logical_index;
      upstream_protocol = ctx.protocol;
      header_ops = [];
      body_transform = transform;
      epoch = at.epoch;
    };
    migration = at.phase;
    routing_hint = spi.routing_hint partition;
  }

  unfoldable pub resolve_placement :
      W → RequestCtx → PartitionId → Bytes → ℕ → Result Resolved SpiError
  resolve_placement w ctx partition logical_index attempt = do
    at ← spi.placement_for w partition attempt
    transform ← build_transform spi.doc_id_rule at.placement ctx
    ok (decided ctx partition logical_index at transform)

  unfoldable pub resolve : W → RequestCtx → ℕ → Result Resolved SpiError
  unfolding resolve_placement is_tenancy_aware
  resolve w ctx attempt =
      if is_tenancy_aware ctx.endpoint
      then (spi.resolve_partition ctx ctx.body >>= λ partition.
          resolve_placement w ctx partition ctx.logical_index attempt)
      else err (unsupported_endpoint ctx.endpoint)

  -- `impl Router for TenancyRouter`
  abbrev pub tenancy_router : (W → W) → Router W
  tenancy_router waited = record {
    resolve = resolve;
    resolve_partition = spi.resolve_partition;
    resolve_placement = resolve_placement;
    waited = waited;
    admit_write = spi.admit_write;
    cluster_endpoint = spi.cluster_endpoint;
  }
