-- ===== src/Sink/Read.antt =====
-- crates/osproxy-sink/src/read.rs: the operations and the outcomes of the read side. The streamed outcomes
-- hold a live body and are left out.
use opensearch_proxy.Prelude.{ℕ, Bool, true, false, Option, none, List, []}
use opensearch_proxy.Prelude.Bytes.{Bytes}
use opensearch_proxy.Core.Trace.{TraceContext}
use opensearch_proxy.Spi.Request.{Protocol, http1}
use opensearch_proxy.Tenancy.Router.{Target}

pub record ReadOp : Type 0 where
  pub target : Target
  pub id : Bytes
  pub routing : Option Bytes
  pub protocol : Protocol
  pub trace : Option TraceContext
  pub forward_headers : List (Bytes × Bytes)

abbrev pub read_op : Target → Bytes → Option Bytes → ReadOp
read_op target id routing = record {
  target = target;
  id = id;
  routing = routing;
  protocol = http1;
  trace = none;
  forward_headers = [];
}

pub record ReadOutcome : Type 0 where
  pub status : ℕ
  pub found : Bool
  pub body : Bytes
  pub pool_reuse : Bool

abbrev pub found_outcome : ℕ → Bytes → ReadOutcome
found_outcome status body = record {
  status = status;
  found = true;
  body = body;
  pool_reuse = false;
}

abbrev pub not_found_outcome : ℕ → Bytes → ReadOutcome
not_found_outcome status body = record {
  status = status;
  found = false;
  body = body;
  pool_reuse = false;
}

pub record SearchOp : Type 0 where
  pub target : Target
  pub body : Bytes
  pub protocol : Protocol
  pub query : Option Bytes
  pub trace : Option TraceContext
  pub forward_headers : List (Bytes × Bytes)

abbrev pub search_op : Target → Bytes → SearchOp
search_op target body = record {
  target = target;
  body = body;
  protocol = http1;
  query = none;
  trace = none;
  forward_headers = [];
}

pub record SearchOutcome : Type 0 where
  pub status : ℕ
  pub body : Bytes
  pub pool_reuse : Bool

abbrev pub search_outcome : ℕ → Bytes → SearchOutcome
search_outcome status body = record { status = status; body = body; pool_reuse = false }

pub record CountOutcome : Type 0 where
  pub status : ℕ
  pub count : ℕ
  pub pool_reuse : Bool

abbrev pub count_outcome : ℕ → ℕ → CountOutcome
count_outcome status count = record { status = status; count = count; pool_reuse = false }
