-- ===== src/Spi.antt =====
-- crates/osproxy-spi: the contracts between the proxy and an implementer's tenancy rules.
pub mod Rules
pub mod Placement
pub mod Failure
pub mod Request
pub mod Tenancy
