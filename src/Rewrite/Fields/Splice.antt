-- ===== src/Rewrite/Fields/Splice.antt =====
-- crates/osproxy-rewrite/src/fields.rs: the splice of fields into raw bytes, scanned again.
mod Keys
mod Object
mod Body
pub use Keys.{Reads, IsDelimited}
pub use Body.{AreFree, inject_fields_bytes-top}
