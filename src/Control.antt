-- ===== src/Control.antt =====
-- crates/osproxy-control: the migration control plane and cursor affinity.
pub mod Migration
pub mod Affinity
mod Tests
