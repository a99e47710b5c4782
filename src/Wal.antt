-- ===== src/Wal.antt =====
-- crates/osproxy-kafka-wal: the write-ahead log in front of a message broker.
pub mod Segment
pub mod Drain
mod Tests
