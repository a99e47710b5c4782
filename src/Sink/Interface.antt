-- ===== src/Sink/Interface.antt =====
-- crates/osproxy-sink/src/sink.rs: the trait `Sink`. `W` is what a write can see and change: the upstream
-- clusters, and what other requests do meanwhile.
use opensearch_proxy.Prelude.{◌≡◌, Result, ok, length}
use opensearch_proxy.Sink.Batch.{WriteBatch, WriteAck, SinkError}

pub record Sink (W : Type 0) : Type 0 where
  pub write : W → WriteBatch → Result WriteAck SinkError × W

-- What the trait documents of an acknowledgement: one result for each operation of the batch.
pub record IsPositional {W : Type 0} (sink : Sink W) : Type 0 where
  pub one_each :
      (w : W) (batch : WriteBatch) (ack : WriteAck)
      → (sink.write w batch).0 ≡ ok ack
      → length ack.results ≡ length batch.ops
