-- ===== src/Engine/Bulk.antt =====
-- crates/osproxy-engine/src/bulk.rs and its helpers bulkprep.rs and bulkline.rs: the demux of `_bulk`.
pub mod Line
pub mod Item
pub mod Prepare
pub mod Demux
pub mod Ingest
pub mod Echo
pub mod Positions
pub mod Bounds
pub mod Gate
pub mod Stream
mod Tests
