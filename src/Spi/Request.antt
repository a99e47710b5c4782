-- ===== src/Spi/Request.antt =====
-- crates/osproxy-spi/src/request.rs and principal.rs: what rules read of a request.
use opensearch_proxy.Prelude.{
  ℕ, ◌+◌, Bool, true, false, ◌&&◌, Option, none, some, List, [], ◌∷◌, ltb, if◌then◌else◌, ◌==◌,
  nat_eq, list_eq, ok, err,
}
use opensearch_proxy.Prelude.Bytes.{Bytes, split_on}
use opensearch_proxy.Core.Ids.{RequestId}
use opensearch_proxy.Core.Endpoint.{EndpointKind}
use opensearch_proxy.Core.Scan.Document.{Scanned, scalar_at_path}

pub data Protocol : Type 0 where
  http1 http2 grpc : Protocol

pub data HttpMethod : Type 0 where
  get put post delete head : HttpMethod

-- The principal is its attributes in their order; the id of a request is only passed on.
pub record RequestCtx : Type 0 where
  pub attrs : List (Bytes × Bytes)
  pub request_id : RequestId
  pub method : HttpMethod
  pub endpoint : EndpointKind
  pub protocol : Protocol
  pub logical_index : Bytes
  pub doc_id : Option Bytes
  pub headers : List (Bytes × Bytes)
  pub body : Bytes
  pub query : Option Bytes
  pub path : Bytes
  pub forward_headers : List (Bytes × Bytes)

abbrev pub request_ctx :
    List (Bytes × Bytes)
    → RequestId
    → HttpMethod
    → EndpointKind
    → Protocol
    → Bytes
    → List (Bytes × Bytes)
    → Bytes
    → RequestCtx
request_ctx attrs request_id method endpoint protocol logical_index headers body = record {
  attrs = attrs;
  request_id = request_id;
  method = method;
  endpoint = endpoint;
  protocol = protocol;
  logical_index = logical_index;
  doc_id = none;
  headers = headers;
  body = body;
  query = none;
  path = [];
  forward_headers = [];
}

-- `BodyDoc::scalar`: the scan of the body for a dotted path. It ends on every body.
abbrev pub scalar_or_none : Scanned Bytes → Option Bytes
scalar_or_none (some (ok text)) = some text
scalar_or_none (some (err e)) = none
scalar_or_none none = none

unfoldable pub scalar : Bytes → Bytes → Option Bytes
unfolding split_on
scalar body path = scalar_or_none (scalar_at_path body (split_on b'.' path))

abbrev lower : ℕ → ℕ
lower c = if ltb 64 c && ltb c 91 then c + 32 else c

-- `str::eq_ignore_ascii_case`
abbrev eq_ignore_ascii_case : Bytes → Bytes → Bool
eq_ignore_ascii_case [] [] = true
eq_ignore_ascii_case (a ∷ s) (b ∷ t) = (lower a == lower b) && eq_ignore_ascii_case s t
eq_ignore_ascii_case _ _ = false

-- `iter().find(…).map(…)`: the value of the first entry whose name passes the test.
abbrev find_value : (Bytes → Bool) → List (Bytes × Bytes) → Option Bytes
find_value test [] = none
find_value test ((k, v) ∷ later) = if test k then some v else find_value test later

-- `HeaderView::get`
unfoldable pub header_value : RequestCtx → Bytes → Option Bytes
header_value ctx name = find_value (λ k. eq_ignore_ascii_case k name) ctx.headers

-- `Principal::attr`
unfoldable pub attr : RequestCtx → Bytes → Option Bytes
attr ctx key = find_value (λ k. k == key) ctx.attrs
