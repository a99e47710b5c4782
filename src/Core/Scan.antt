-- ===== src/Core/Scan.antt =====
-- crates/osproxy-core/src/json.rs: the scanner over raw JSON bytes. The parser's cursor is modelled by the
-- bytes from the cursor on; a method that moves the cursor answers the bytes that are left.
pub mod Cursor
pub mod Bounds
pub mod Strings
pub mod Boundary
pub mod Skip
pub mod Reach
pub mod Values
pub mod Document
