-- ===== src/Rewrite/Tests.antt =====
-- Runs of the id templates and of the fields of crates/osproxy-rewrite.
use opensearch_proxy.Prelude.{suc, ◌≡◌, refl, true, false, some, Result, ok, length, ◌∷◌, ◌++◌, []}
use opensearch_proxy.Prelude.Bytes
use opensearch_proxy.Prelude.Bytes.{Bytes, ascii}
use opensearch_proxy.Spi.Rules.{references_partition}
use opensearch_proxy.Rewrite.Failure.{RewriteError}
use opensearch_proxy.Rewrite.Id.{
  next, placeholder, construct_id_with, frame_loop, id_frame, map_logical_to_physical,
  map_physical_to_logical,
}
use opensearch_proxy.Rewrite.Id.Totality.{Ends, id_operations_end}
use opensearch_proxy.Rewrite.Id.Roundtrip.{
  body_paths, AllResolve, physical-of-logical, construct_id-map_logical,
}
use opensearch_proxy.Rewrite.Id.Collision.{colon_template, admitted_template_collides}
use opensearch_proxy.Prelude.Map
use opensearch_proxy.Prelude.Utf8.{from_utf8}
use opensearch_proxy.Core.Ids.{FieldName}
use opensearch_proxy.Core.Json.{Value, bool, number, string, object, end, field}
use opensearch_proxy.Core.Scan.Cursor.{done, skip_ws, expect}
use opensearch_proxy.Core.Scan.Strings.{
  run_to_boundary, skip_chars, skip_string, decode_chars, string_decode,
}
use opensearch_proxy.Core.Scan.Skip.{skip_value_loop, skip_value}
use opensearch_proxy.Core.Scan.Document.{TopLevel, keys_loop, object_members, object_top_level}
use opensearch_proxy.Rewrite.Ndjson.{lines_loop, non_blank_lines}
use opensearch_proxy.Rewrite.Ndjson.Splitting.{first_position}
use opensearch_proxy.Rewrite.Fields.{
  collision, insert_all, inject_fields, members_text, strip_fields, inject_fields_bytes,
}
use opensearch_proxy.Rewrite.Fields.Inverse.{strip_fields-inject_fields}
use opensearch_proxy.Rewrite.Fields.Splice.{Reads, IsDelimited, AreFree, inject_fields_bytes-top}

-- A document whose every field is `1001`.
abbrev only_1001 : Bytes → Result Bytes RewriteError
only_1001 path = ok (ascii "1001")

mapped :
    map_logical_to_physical colon_template (ascii "acme") (ascii "1001")
    ≡ some (ok (ascii "acme:1001"))
unfolding map_logical_to_physical id_frame frame_loop next placeholder Bytes.split_at
    Bytes.strip_prefix
mapped = refl

physical-of-logical_example :
    map_physical_to_logical colon_template (ascii "acme") (ascii "acme:1001")
    ≡ some (ok (some (ascii "1001")))
physical-of-logical_example =
    physical-of-logical colon_template (ascii "acme") (ascii "1001") (ascii "acme:1001") mapped

resolves :
    AllResolve only_1001
      (ascii "acme")
      (ascii "1001")
      (body_paths (suc (length colon_template)) colon_template)
unfolding body_paths next placeholder Bytes.split_at Bytes.strip_prefix
resolves = (refl, tt)

construct_id-map_logical_example :
    construct_id_with only_1001 (ascii "acme") colon_template ≡ some (ok (ascii "acme:1001"))
construct_id-map_logical_example =
    construct_id-map_logical only_1001 (ascii "acme") (ascii "1001") colon_template
      (ascii "acme:1001") resolves mapped

id_operations_end_example :
    Ends (construct_id_with only_1001 (ascii "acme") (ascii "{partition"))
    × Ends (map_logical_to_physical (ascii "{partition") (ascii "acme") (ascii "1"))
    × Ends (map_physical_to_logical (ascii "{partition") (ascii "acme") (ascii "1"))
id_operations_end_example =
    id_operations_end only_1001 (ascii "{partition") (ascii "acme") (ascii "1")

admitted_template_collides_example :
    (references_partition colon_template ≡ true)
    × (map_logical_to_physical colon_template (ascii "a:b") (ascii "1")
        ≡ map_logical_to_physical colon_template (ascii "a") (ascii "b:1"))
admitted_template_collides_example = admitted_template_collides (ascii "a") (ascii "b") (ascii "1")

-- A serializer that is enough for these runs.
abbrev plain_name : Bytes → Bytes
plain_name k = b'"' ∷ (k ++ ascii "\"")

abbrev plain_value : Value → Bytes
plain_value (string text) = plain_name text
plain_value (number text) = text
plain_value (bool true) = ascii "true"
plain_value _ = ascii "null"

abbrev tenant : FieldName × Value
tenant = (ascii "_tenant", string (ascii "acme"))

tenant_name :
    (t : Bytes) → string_decode (plain_name (ascii "_tenant") ++ t) ≡ done (ascii "_tenant") t
unfolding string_decode decode_chars run_to_boundary from_utf8 expect
tenant_name t = refl

tenant_value : (t : Bytes) → IsDelimited t → skip_value (plain_name (ascii "acme") ++ t) ≡ done tt t
unfolding skip_value skip_value_loop skip_string skip_chars run_to_boundary expect skip_ws
tenant_value t h = refl

tenant-Reads : Reads plain_name plain_value tenant
tenant-Reads = record {
  inside = ascii "_tenant\"";
  quote_first = refl;
  name_read = tenant_name;
  value_read = tenant_value;
}

abbrev message : Bytes
message = ascii "{\"msg\":\"hi\"}"

abbrev message_top : TopLevel
message_top = record { insert_at = 1; empty = false; keys = ascii "msg" ∷ [] }

message_scanned : object_top_level message ≡ some (ok message_top)
unfolding object_top_level object_members keys_loop skip_value skip_value_loop skip_string
    skip_chars skip_ws expect string_decode decode_chars run_to_boundary from_utf8
message_scanned = refl

abbrev stamped : Bytes
stamped = ascii "{\"_tenant\":\"acme\",\"msg\":\"hi\"}"

stamped_text : inject_fields_bytes plain_name plain_value message (tenant ∷ []) ≡ some (ok stamped)
unfolding inject_fields_bytes members_text object_top_level object_members keys_loop skip_value
    skip_value_loop skip_string skip_chars skip_ws expect string_decode decode_chars run_to_boundary
    from_utf8
stamped_text = refl

inject_fields_bytes-top_example :
    AreFree (tenant ∷ []) (ascii "msg" ∷ [])
    × (object_top_level stamped
        ≡ some (
            ok
              (record { insert_at = 1; empty = false; keys = ascii "_tenant" ∷ ascii "msg" ∷ [] })))
inject_fields_bytes-top_example =
    inject_fields_bytes-top plain_name plain_value message stamped tenant [] message_top
      (tenant-Reads, tt) message_scanned stamped_text

abbrev letter : Value
letter = object (field (ascii "msg") (string (ascii "hi")) end)

letter_stamped :
    inject_fields letter (tenant ∷ [])
    ≡ ok (
        object (
          field
            (ascii "_tenant")
            (string (ascii "acme"))
            (field (ascii "msg") (string (ascii "hi")) end)))
unfolding inject_fields collision insert_all Map.get Map.insert Map.remove
letter_stamped = refl

strip_fields-inject_fields_example :
    strip_fields
      (object (
        field
          (ascii "_tenant")
          (string (ascii "acme"))
          (field (ascii "msg") (string (ascii "hi")) end)))
      (ascii "_tenant" ∷ [])
    ≡ (letter, 1)
strip_fields-inject_fields_example =
    strip_fields-inject_fields letter
      (object (
        field (ascii "_tenant") (string (ascii "acme"))
          (field (ascii "msg") (string (ascii "hi")) end)))
      (tenant ∷ []) (tt, tt) letter_stamped

two_lines : non_blank_lines first_position (ascii "a\n\n b") ≡ ascii "a" ∷ ascii " b" ∷ []
unfolding non_blank_lines lines_loop first_position
two_lines = refl
