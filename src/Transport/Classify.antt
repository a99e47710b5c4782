-- ===== src/Transport/Classify.antt =====
-- crates/osproxy-transport/src/classify.rs: from the method and the path of a request to its class, its
-- logical index and its document id.
pub mod Buffer
pub mod Guards
use opensearch_proxy.Prelude.{
  ℕ, zero, suc, Bool, true, false, Option, none, some, List, [], ◌∷◌, ◌&&◌, ◌||◌, if◌then◌else◌,
  ltb, ◌==◌, list_eq, nat_eq,
}
use opensearch_proxy.Prelude.Bytes.{Bytes, ascii}
use opensearch_proxy.Core.Endpoint.{EndpointKind}
use opensearch_proxy.Spi.Request.{HttpMethod, get, put, post, delete, head}

pub record Classified : Type 0 where
  pub endpoint : EndpointKind
  pub logical_index : Bytes
  pub doc_id : Option Bytes

-- `path.split('/')`
abbrev extend : ℕ → List Bytes → List Bytes
extend c [] = (c ∷ []) ∷ []
extend c (s ∷ later) = (c ∷ s) ∷ later

unfoldable pub split : Bytes → List Bytes
split [] = [] ∷ []
split (c ∷ path) = if c == b'/' then [] ∷ split path else extend c (split path)

abbrev pub kept : Bytes → List Bytes → List Bytes
kept [] later = later
kept (c ∷ s) later = (c ∷ s) ∷ later

-- `filter(|s| !s.is_empty())`
unfoldable pub non_empty : List Bytes → List Bytes
non_empty [] = []
non_empty (s ∷ later) = kept s (non_empty later)

-- The stack buffer of four segments: `buf[count] = seg`.
abbrev pub set_at : ℕ → Bytes → List Bytes → List Bytes
set_at i seg [] = []
set_at zero seg (x ∷ buf) = seg ∷ buf
set_at (suc i) seg (x ∷ buf) = x ∷ set_at i seg buf

unfoldable pub fill : List Bytes → List Bytes → ℕ → List Bytes × ℕ
fill [] buf count = (buf, count)
fill (seg ∷ later) buf count =
    fill later (if ltb count 4 then set_at count seg buf else buf) (suc count)

abbrev pub take : ℕ → List Bytes → List Bytes
take zero xs = []
take (suc n) [] = []
take (suc n) (x ∷ xs) = x ∷ take n xs

abbrev pub at_most : ℕ → ℕ → ℕ
at_most a b = if ltb a b then a else b

abbrev pub filled : List Bytes × ℕ → List Bytes
filled (buf, count) = take (at_most count 4) buf

unfoldable pub segments : Bytes → List Bytes
segments path = filled (fill (non_empty (split path)) ([] ∷ [] ∷ [] ∷ [] ∷ []) 0)

abbrev pub classified : EndpointKind → Bytes → Classified
classified endpoint index = record { endpoint = endpoint; logical_index = index; doc_id = none }

abbrev with_id : EndpointKind → Bytes → Bytes → Classified
with_id endpoint index id = record { endpoint = endpoint; logical_index = index; doc_id = some id }

unfoldable pub by_id_endpoint : HttpMethod → Bytes → EndpointKind
by_id_endpoint get verb = EndpointKind.get_by_id
by_id_endpoint head verb = EndpointKind.get_by_id
by_id_endpoint delete verb = EndpointKind.delete_by_id
by_id_endpoint put verb =
    if (verb == ascii "_create") || (verb == ascii "_doc")
    then EndpointKind.ingest_doc
    else EndpointKind.unknown
by_id_endpoint post verb =
    if (verb == ascii "_create") || (verb == ascii "_doc")
    then EndpointKind.ingest_doc
    else EndpointKind.unknown

unfoldable pub doc_endpoint : HttpMethod → EndpointKind
doc_endpoint post = EndpointKind.ingest_doc
doc_endpoint put = EndpointKind.ingest_doc
doc_endpoint _ = EndpointKind.unknown

-- the last two arms: the administrative paths, and the rest
abbrev pub is_admin : Bytes → Bool
is_admin first =
    (first == ascii "_cat") || ((first == ascii "_cluster") || (first == ascii "_nodes"))

abbrev pub admin_or_unknown : Bytes → Classified
admin_or_unknown first =
    if is_admin first
    then classified EndpointKind.admin []
    else classified EndpointKind.unknown first

-- the arms of the `match`, by the number of segments, in the order of the source
abbrev pub classify_one : Bytes → Classified
classify_one a =
    if a == ascii "_search"
    then classified EndpointKind.search []
    else if a == ascii "_mget"
    then classified EndpointKind.multi_get []
    else if a == ascii "_msearch"
    then classified EndpointKind.multi_search []
    else if a == ascii "_bulk"
    then classified EndpointKind.ingest_bulk []
    else admin_or_unknown a

abbrev pub classify_two : HttpMethod → Bytes → Bytes → Classified
classify_two method a b =
    if b == ascii "_doc"
    then classified (doc_endpoint method) a
    else if (a == ascii "_search") && ((b == ascii "scroll") || (b == ascii "point_in_time"))
    then classified EndpointKind.cursor []
    else if b == ascii "_search"
    then classified EndpointKind.search a
    else if b == ascii "_count"
    then classified EndpointKind.count a
    else if b == ascii "_mget"
    then classified EndpointKind.multi_get a
    else if b == ascii "_msearch"
    then classified EndpointKind.multi_search a
    else if b == ascii "_bulk"
    then classified EndpointKind.ingest_bulk a
    else if b == ascii "_delete_by_query"
    then classified EndpointKind.delete_by_query a
    else admin_or_unknown a

abbrev pub classify_three : HttpMethod → Bytes → Bytes → Bytes → Classified
classify_three method a b c =
    if (b == ascii "_doc") || (b == ascii "_create")
    then with_id (by_id_endpoint method b) a c
    else if (a == ascii "_search") && (b == ascii "scroll")
    then with_id EndpointKind.cursor [] c
    else if (b == ascii "_search") && (c == ascii "point_in_time")
    then classified EndpointKind.cursor a
    else admin_or_unknown a

unfoldable pub classify_segments : HttpMethod → List Bytes → Classified
classify_segments method [] = classified EndpointKind.unknown []
classify_segments method (a ∷ []) = classify_one a
classify_segments method (a ∷ b ∷ []) = classify_two method a b
classify_segments method (a ∷ b ∷ c ∷ []) = classify_three method a b c
classify_segments method (a ∷ b ∷ c ∷ d ∷ later) = admin_or_unknown a

unfoldable pub classify : HttpMethod → Bytes → Classified
classify method path = classify_segments method (segments path)
