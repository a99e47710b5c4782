-- ===== src/Rewrite/Failure.antt =====
-- crates/osproxy-rewrite/src/error.rs
use opensearch_proxy.Prelude.Bytes.{Bytes}
use opensearch_proxy.Core.Ids.{FieldName}

pub data RewriteError : Type 0 where
  not_an_object invalid_json malformed_bulk_action irreversible_id_template : RewriteError
  reserved_field_collision : FieldName → RewriteError
  path_not_scalar unsupported_placeholder unfilterable : Bytes → RewriteError
