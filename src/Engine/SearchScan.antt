-- ===== src/Engine/SearchScan.antt =====
-- crates/osproxy-engine/src/search_scan.rs: the transform of a search response while it streams.
pub mod State
pub mod Handlers
pub mod Machine
pub mod Forwarding
pub mod Steps
pub mod Streaming
mod Tests
