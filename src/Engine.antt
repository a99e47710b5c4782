-- ===== src/Engine.antt =====
-- crates/osproxy-engine: the request pipeline.
pub mod Retry
pub mod Read
pub mod Bulk
pub mod SearchScan
mod Tests
