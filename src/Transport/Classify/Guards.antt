-- ===== src/Transport/Classify/Guards.antt =====
-- crates/osproxy-transport/src/classify.rs: what a class says of the method and the path.
use opensearch_proxy.Prelude.{◌≡◌, true, List, [], ◌∷◌, list_eq, nat_eq, ◌⊎◌}
use opensearch_proxy.Prelude.Bytes.{Bytes}
use opensearch_proxy.Core.Endpoint.{EndpointKind}
use opensearch_proxy.Spi.Request.{HttpMethod}
use opensearch_proxy.Transport.Classify.{Classified, is_admin}

-- The path starts with a name that is kept for administration.
abbrev pub Reserved : List Bytes → Type 0
Reserved [] = ⊥
Reserved (first ∷ _) = is_admin first ≡ true

-- What a class says of a request: administration is under a reserved name, a document is stored by
-- PUT or POST, deleted by DELETE, and read by GET or HEAD.
abbrev pub Guard : HttpMethod → List Bytes → EndpointKind → Type 0
Guard method all EndpointKind.admin = Reserved all
Guard method all EndpointKind.ingest_doc = (method ≡ HttpMethod.put) ⊎ (method ≡ HttpMethod.post)
Guard method all EndpointKind.delete_by_id = method ≡ HttpMethod.delete
Guard method all EndpointKind.get_by_id = (method ≡ HttpMethod.get) ⊎ (method ≡ HttpMethod.head)
Guard method all _ = Unit

module _ (method : HttpMethod) (a : Bytes) (later : List Bytes) where
  -- the guard of an answer, kept folded
  P : Classified → Type 0
  P c = Guard method (a ∷ later) c.endpoint
