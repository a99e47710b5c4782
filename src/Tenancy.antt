-- ===== src/Tenancy.antt =====
-- crates/osproxy-tenancy: from tenancy rules to routing decisions.
pub mod Migration
pub mod PlacementTable
mod Tests
pub mod Resolve
pub mod Router
pub mod Routing
