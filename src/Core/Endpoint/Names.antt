-- ===== src/Core/Endpoint/Names.antt =====
-- crates/osproxy-core/src/endpoint.rs: names and classes are in bijection.
use opensearch_proxy.Prelude.{
  ◌≡◌, refl, sym, ap, ◌∙◌, ◌↔◌, Bool, true, false, Option, none, some, if◌then◌else◌, ◌==◌, list_eq,
  nat_eq, eq_sound,
}
use opensearch_proxy.Prelude.Bytes.{Bytes}
use opensearch_proxy.Core.Endpoint.{EndpointKind, as_str, from_name, arm}

parsed : (kind : EndpointKind) → from_name (as_str kind) ≡ some kind
unfolding from_name as_str
parsed EndpointKind.ingest_doc = refl
parsed EndpointKind.ingest_bulk = refl
parsed EndpointKind.search = refl
parsed EndpointKind.multi_search = refl
parsed EndpointKind.count = refl
parsed EndpointKind.get_by_id = refl
parsed EndpointKind.multi_get = refl
parsed EndpointKind.delete_by_id = refl
parsed EndpointKind.delete_by_query = refl
parsed EndpointKind.cursor = refl
parsed EndpointKind.admin = refl
parsed EndpointKind.unknown = refl

module _ (name : Bytes) (found : EndpointKind) where
  arm-as_str :
      (text : Bytes) (kind : EndpointKind) (later : Option EndpointKind)
      → as_str kind ≡ text
      → (later ≡ some found → as_str found ≡ name)
      → arm name text kind later ≡ some found
      → as_str found ≡ name
  arm-as_str text kind later named rest h = go (name == text) (eq_sound name text) h
    where
      go :
          (b : Bool)
          → (b ≡ true → name ≡ text)
          → (if b then some kind else later) ≡ some found
          → as_str found ≡ name
      go true same k =
          let kinds : kind ≡ found = cc in (sym (ap as_str kinds) ∙ named) ∙ sym (same refl)
      go false same k = rest k

  nothing : ◌≡◌ {A = Option EndpointKind} none (some found) → as_str found ≡ name
  nothing h = cc

  printed : from_name name ≡ some found → as_str found ≡ name
  unfolding from_name as_str
  printed = arm-as_str _ EndpointKind.ingest_doc _ refl (
      arm-as_str _ EndpointKind.ingest_bulk _ refl (
        arm-as_str _ EndpointKind.search _ refl (
          arm-as_str _ EndpointKind.multi_search _ refl (
            arm-as_str _ EndpointKind.count _ refl (
              arm-as_str _ EndpointKind.get_by_id _ refl (
                arm-as_str _ EndpointKind.multi_get _ refl (
                  arm-as_str _ EndpointKind.delete_by_id _ refl (
                    arm-as_str _ EndpointKind.delete_by_query _ refl (
                      arm-as_str _ EndpointKind.cursor _ refl (
                        arm-as_str _ EndpointKind.admin _ refl
                          (arm-as_str _ EndpointKind.unknown _ refl nothing)))))))))))

-- Printing and parsing class names are inverse: a name parses to a class exactly if it is the name of
-- the class; every other text is refused.
pub from_name-as_str :
    (name : Bytes) (kind : EndpointKind) → (from_name name ≡ some kind) ↔ (as_str kind ≡ name)
from_name-as_str name kind = (printed name kind, λ h. sym (ap from_name h) ∙ parsed kind)
