-- ===== src/Core.antt =====
-- crates/osproxy-core: identifiers, time, targets, endpoint classes, the cursor envelope.
pub mod Ids
pub mod Json
pub mod Time
pub mod Trace
pub mod Endpoint
mod Tests
pub mod Scan
pub mod Cursor
