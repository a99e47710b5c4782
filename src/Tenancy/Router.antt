-- ===== src/Tenancy/Router.antt =====
-- crates/osproxy-tenancy/src/router.rs: the transform and the target of a placement. The id rule is
-- what the implementer's `doc_id_rule` answers.
pub mod Transform
use opensearch_proxy.Prelude.{
  Bool, true, false, Option, none, some, List, [], ◌∷◌, Result, ok, err, ok_or, ◌>>=◌, traverse,
  if◌then◌else◌, ◌&&◌, ◌≡◌, ◌↔◌, Eq, ◌==◌, eq_iff, nat_eq, list_eq, arith,
}
use opensearch_proxy.Prelude.Bytes.{Bytes}
use opensearch_proxy.Core.Ids.{ClusterId, IndexName}
use opensearch_proxy.Core.Json.{Value, string}
use opensearch_proxy.Spi.Rules.{
  DocIdRule, InjectedField, InjectedValue, partition_id, constant, from_principal, from_header,
  references_partition,
}
use opensearch_proxy.Spi.Placement.{Placement, dedicated_cluster, dedicated_index, shared_index}
use opensearch_proxy.Spi.Failure.{
  SpiError, principal_attr_missing, header_missing, id_rule_missing_partition,
}
use opensearch_proxy.Spi.Request.{RequestCtx, header_value, attr}

-- `BodyTransform` of crates/osproxy-spi/src/decision.rs
pub data BodyTransform : Type 0 where
  unchanged : BodyTransform
  inject : List InjectedField → BodyTransform
  construct_id : DocIdRule → BodyTransform
  both : List InjectedField → DocIdRule → BodyTransform

-- `Target` of crates/osproxy-core/src/target.rs, by its identity; `Target::new` leaves the endpoint and the
-- credentials unset
pub record Target : Type 0 where
  pub cluster : ClusterId
  pub index : IndexName

-- `Target::eq`: the cluster and the index
abbrev pub same_target : Target → Target → Bool
same_target a b = (a.cluster == b.cluster) && (a.index == b.index)

pub same_target_iff : (a b : Target) → (same_target a b ≡ true) ↔ (a ≡ b)
same_target_iff a b = ground (arith, eq_iff a.cluster b.cluster, eq_iff a.index b.index)

instance abbrev pub target_eq : Eq Target
target_eq = record { beq = same_target; beq_iff = same_target_iff }

unfoldable pub target_for : Placement → Bytes → Target
target_for (dedicated_cluster c) logical_index = record { cluster = c; index = logical_index }
target_for (dedicated_index c i) logical_index = record { cluster = c; index = i }
target_for (shared_index c i _) logical_index = record { cluster = c; index = i }

abbrev pub constant_text : InjectedField → Bytes → Result InjectedField SpiError
constant_text field v = ok (record field { value = constant (string v) })

-- the closure of `resolve_inject`
abbrev pub resolve_value :
    RequestCtx → InjectedField → InjectedValue → Result InjectedField SpiError
resolve_value ctx field partition_id = ok field
resolve_value ctx field (constant v) = ok (record field { value = constant v })
resolve_value ctx field (from_principal name) =
    ok_or (attr ctx name) (principal_attr_missing name) >>= constant_text field
resolve_value ctx field (from_header name) =
    ok_or (header_value ctx name) (header_missing name) >>= constant_text field

unfoldable pub resolve_inject :
    RequestCtx → List InjectedField → Result (List InjectedField) SpiError
resolve_inject ctx fields = traverse (λ field. resolve_value ctx field field.value) fields

abbrev pub inject_of : RequestCtx → Placement → Result (List InjectedField) SpiError
inject_of ctx (shared_index _ _ fields) = resolve_inject ctx fields
inject_of ctx (dedicated_cluster _) = ok []
inject_of ctx (dedicated_index _ _) = ok []

abbrev pub partition_scoped : Option DocIdRule → Bool
partition_scoped none = false
partition_scoped (some rule) = references_partition rule.template

-- the `match` at the end
abbrev pub transform_of : List InjectedField → Option DocIdRule → BodyTransform
transform_of [] none = unchanged
transform_of (f ∷ fs) none = inject (f ∷ fs)
transform_of [] (some id) = construct_id id
transform_of (f ∷ fs) (some id) = both (f ∷ fs) id

-- the refusal of a shared index without a partition in its ids
abbrev pub checked :
    Placement → Option DocIdRule → List InjectedField → Result BodyTransform SpiError
checked (shared_index _ _ _) id_rule fields =
    if partition_scoped id_rule
    then ok (transform_of fields id_rule)
    else err id_rule_missing_partition
checked (dedicated_cluster _) id_rule fields = ok (transform_of fields id_rule)
checked (dedicated_index _ _) id_rule fields = ok (transform_of fields id_rule)

unfoldable pub build_transform :
    Option DocIdRule → Placement → RequestCtx → Result BodyTransform SpiError
build_transform id_rule placement ctx = inject_of ctx placement >>= checked placement id_rule
