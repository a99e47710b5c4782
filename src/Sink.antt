-- ===== src/Sink.antt =====
-- crates/osproxy-sink: delivery to the clusters.
pub mod Batch
pub mod Interface
pub mod Read
pub mod Memory
pub mod Breaker
mod Tests
