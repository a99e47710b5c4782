-- ===== src/Core/Endpoint.antt =====
-- crates/osproxy-core/src/endpoint.rs: the classes of requests and their names.
pub mod Names
use opensearch_proxy.Prelude.{
  Bool, true, false, Option, none, some, if◌then◌else◌, ◌==◌, list_eq, nat_eq,
}
use opensearch_proxy.Prelude.Bytes.{Bytes, ascii}

pub data EndpointKind : Type 0 where
  ingest_doc ingest_bulk search multi_search count get_by_id multi_get delete_by_id : EndpointKind
  delete_by_query cursor admin unknown : EndpointKind

unfoldable pub as_str : EndpointKind → Bytes
as_str ingest_doc = ascii "IngestDoc"
as_str ingest_bulk = ascii "IngestBulk"
as_str search = ascii "Search"
as_str multi_search = ascii "MultiSearch"
as_str count = ascii "Count"
as_str get_by_id = ascii "GetById"
as_str multi_get = ascii "MultiGet"
as_str delete_by_id = ascii "DeleteById"
as_str delete_by_query = ascii "DeleteByQuery"
as_str cursor = ascii "Cursor"
as_str admin = ascii "Admin"
as_str unknown = ascii "Unknown"

-- one arm of the `match` on a name, and the arms after it
abbrev pub arm : Bytes → Bytes → EndpointKind → Option EndpointKind → Option EndpointKind
arm name text kind later = if name == text then some kind else later

unfoldable pub from_name : Bytes → Option EndpointKind
from_name name = arm name (ascii "IngestDoc") ingest_doc (
    arm name (ascii "IngestBulk") ingest_bulk (
      arm name (ascii "Search") search (
        arm name (ascii "MultiSearch") multi_search (
          arm name (ascii "Count") count (
            arm name (ascii "GetById") get_by_id (
              arm name (ascii "MultiGet") multi_get (
                arm name (ascii "DeleteById") delete_by_id (
                  arm name (ascii "DeleteByQuery") delete_by_query (
                    arm name (ascii "Cursor") cursor (
                      arm name (ascii "Admin") admin
                        (arm name (ascii "Unknown") unknown none)))))))))))

unfoldable pub is_tenancy_aware : EndpointKind → Bool
is_tenancy_aware admin = false
is_tenancy_aware unknown = false
is_tenancy_aware ingest_doc = true
is_tenancy_aware ingest_bulk = true
is_tenancy_aware search = true
is_tenancy_aware multi_search = true
is_tenancy_aware count = true
is_tenancy_aware get_by_id = true
is_tenancy_aware multi_get = true
is_tenancy_aware delete_by_id = true
is_tenancy_aware delete_by_query = true
is_tenancy_aware cursor = true

unfoldable pub is_write : EndpointKind → Bool
is_write ingest_doc = true
is_write ingest_bulk = true
is_write delete_by_id = true
is_write _ = false
