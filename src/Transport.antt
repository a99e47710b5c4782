-- ===== src/Transport.antt =====
-- crates/osproxy-transport: the ingress.
pub mod Admission
pub mod Classify
mod Tests
