-- ===== src/Tenancy/Router/Transform.antt =====
-- crates/osproxy-tenancy/src/router.rs: what a transform that is built has.
use opensearch_proxy.Prelude.{◌≡◌, true, Option, some, List, [], ◌∷◌}
use opensearch_proxy.Prelude.Bytes.{Bytes}
use opensearch_proxy.Spi.Rules.{
  DocIdRule, InjectedField, InjectedValue, partition_id, constant, from_principal, from_header,
  references_partition,
}
use opensearch_proxy.Tenancy.Router.{BodyTransform, transform_of}

-- The partition stays symbolic, a constant stays itself, and any other value becomes a constant.
abbrev IsSettled : InjectedValue → InjectedValue → Type 0
IsSettled partition_id partition_id = Unit
IsSettled (constant v) (constant w) = w ≡ v
IsSettled (from_principal _) (constant w) = Unit
IsSettled (from_header _) (constant w) = Unit
IsSettled _ _ = ⊥

abbrev IsResolved : InjectedField → InjectedField → Type 0
IsResolved before after = (after.name ≡ before.name) × IsSettled before.value after.value

-- Field by field, in order, and none added or dropped.
abbrev pub AllResolved : List InjectedField → List InjectedField → Type 0
AllResolved [] [] = Unit
AllResolved (f ∷ fs) (g ∷ gs) = IsResolved f g × AllResolved fs gs
AllResolved _ _ = ⊥

-- What a transform for a shared index has: an id rule that names the partition, and the fields of the
-- placement as resolved.
pub record IsScoped (id_rule : Option DocIdRule) (fields : List InjectedField) (t : BodyTransform)
    : Type 0 where
  pub rule : DocIdRule
  pub out : List InjectedField
  pub given : id_rule ≡ some rule
  pub scoped : references_partition rule.template ≡ true
  pub resolved : AllResolved fields out
  pub built : t ≡ transform_of out (some rule)
