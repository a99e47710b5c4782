-- ===== src/Sink/Batch.antt =====
-- crates/osproxy-sink/src/batch.rs, ack.rs and error.rs: what a sink is given and what it answers. A builder
-- that takes `mut self` is a function to the new value.
use opensearch_proxy.Prelude.{
  ℕ, Bool, true, false, ◌&&◌, Option, none, List, [], ◌∷◌, ◌++◌, ltb, leb, all,
}
use opensearch_proxy.Prelude.Bytes.{Bytes}
use opensearch_proxy.Core.Ids.{Epoch}
use opensearch_proxy.Core.Trace.{TraceContext}
use opensearch_proxy.Spi.Request.{Protocol, http1}
use opensearch_proxy.Tenancy.Router.{Target}

-- The document id (where none is given, OpenSearch assigns one), the routing value, the body.
pub data DocOp : Type 0 where
  index create : Option Bytes → Option Bytes → Bytes → DocOp
  update : Bytes → Option Bytes → Bytes → DocOp
  delete : Bytes → Option Bytes → DocOp

pub record WriteOp : Type 0 where
  pub target : Target
  pub doc : DocOp
  pub epoch : Epoch
  pub protocol : Protocol
  pub trace : Option TraceContext
  pub forward_headers : List (Bytes × Bytes)

abbrev pub write_op : Target → DocOp → Epoch → WriteOp
write_op target doc epoch = record {
  target = target;
  doc = doc;
  epoch = epoch;
  protocol = http1;
  trace = none;
  forward_headers = [];
}

abbrev pub with_protocol : Protocol → WriteOp → WriteOp
with_protocol protocol op = record op { protocol = protocol }

abbrev pub with_trace : Option TraceContext → WriteOp → WriteOp
with_trace trace op = record op { trace = trace }

abbrev pub with_forward_headers : List (Bytes × Bytes) → WriteOp → WriteOp
with_forward_headers headers op = record op { forward_headers = headers }

pub record WriteBatch : Type 0 where
  pub ops : List WriteOp

abbrev pub empty_batch : WriteBatch
empty_batch = record { ops = [] }

abbrev pub single : WriteOp → WriteBatch
single op = record { ops = op ∷ [] }

abbrev pub with_op : WriteBatch → WriteOp → WriteBatch
with_op batch op = record { ops = batch.ops ++ (op ∷ []) }

pub record OpResult : Type 0 where
  pub id : Bytes
  pub status : ℕ
  pub created : Bool

abbrev pub op_result : Bytes → ℕ → Bool → OpResult
op_result id status created = record { id = id; status = status; created = created }

abbrev pub is_success : OpResult → Bool
is_success r = leb 200 r.status && ltb r.status 300

pub record WriteAck : Type 0 where
  pub results : List OpResult
  pub pool_reuse : Bool

abbrev pub write_ack : List OpResult → WriteAck
write_ack results = record { results = results; pool_reuse = false }

unfoldable pub all_succeeded : WriteAck → Bool
all_succeeded ack = all is_success ack.results

pub data SinkError : Type 0 where
  upstream : ℕ → Bool → SinkError
  transport : Bytes → SinkError
  stale_epoch : Epoch → Epoch → SinkError

-- `SinkError::retryable`
unfoldable pub may_retry : SinkError → Bool
may_retry (upstream status again) = again
may_retry (transport kind) = true
may_retry (stale_epoch stamped current) = true
