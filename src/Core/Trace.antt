-- ===== src/Core/Trace.antt =====
-- crates/osproxy-core/src/trace.rs: the trace context that a request carries to every upstream call.
use opensearch_proxy.Prelude.{Bool, Option}
use opensearch_proxy.Prelude.Bytes.{Bytes}

pub record TraceContext : Type 0 where
  pub trace_id : Bytes
  pub span_id : Bytes
  pub parent_span_id : Option Bytes
  pub tracestate : Option Bytes
  pub sampled : Bool
