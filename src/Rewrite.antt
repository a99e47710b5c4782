-- ===== src/Rewrite.antt =====
-- crates/osproxy-rewrite: pure transforms of bodies and identifiers.
pub mod Failure
pub mod Id
pub mod Fields
pub mod Query
pub mod Ndjson
pub mod Bulk
mod Tests
