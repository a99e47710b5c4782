-- ===== src/Spi/Rules.antt =====
-- crates/osproxy-spi/src/rules.rs: the declarative tenancy rules.
use opensearch_proxy.Prelude.{
  Bool, true, false, not, ◌&&◌, ◌||◌, List, [], ◌∷◌, ◌==◌, list_eq, nat_eq, if◌then◌else◌, any,
}
use opensearch_proxy.Prelude.Bytes.{Bytes, ascii}
use opensearch_proxy.Core.Ids.{FieldName}
use opensearch_proxy.Core.Json.{Value}

-- `JsonPath`, by its dotted text
abbrev pub JsonPath : Type 0
JsonPath = Bytes

-- `AnyOf` holds a list of specifications.
mutual
  pub data PartitionKeySpec : Type 0 where
    body_field : JsonPath → PartitionKeySpec
    header : Bytes → PartitionKeySpec
    principal_attr : Bytes → PartitionKeySpec
    any_of : Specs → PartitionKeySpec

  pub data Specs : Type 0 where
    nil : Specs
    cons : PartitionKeySpec → Specs → Specs

pub data PartitionKeySpecKind : Type 0 where
  body_field header principal_attr : PartitionKeySpecKind

-- `IdTemplate`, by its source text
abbrev pub IdTemplate : Type 0
IdTemplate = Bytes

pub record DocIdRule : Type 0 where
  pub template : IdTemplate
  pub set_routing : Bool

abbrev starts_with : Bytes → Bytes → Bool
starts_with [] s = true
starts_with (p ∷ ps) [] = false
starts_with (p ∷ ps) (c ∷ s) = (c == p) && starts_with ps s

-- `str::contains`
abbrev contains : Bytes → Bytes → Bool
contains p [] = starts_with p []
contains p (c ∷ s) = starts_with p (c ∷ s) || contains p s

unfoldable pub references_partition : IdTemplate → Bool
references_partition template = contains (ascii "{partition}") template

pub data InjectedValue : Type 0 where
  partition_id : InjectedValue
  constant : Value → InjectedValue
  from_principal from_header : Bytes → InjectedValue

pub record InjectedField : Type 0 where
  pub name : FieldName
  pub value : InjectedValue

pub record SensitivitySpec : Type 0 where
  pub safe : List FieldName
  pub deny_by_default : Bool

abbrev pub all_sensitive : SensitivitySpec
all_sensitive = record { safe = []; deny_by_default = true }

abbrev pub allowing : List FieldName → SensitivitySpec
allowing safe = record { safe = safe; deny_by_default = true }

abbrev pub nothing_sensitive : SensitivitySpec
nothing_sensitive = record { safe = []; deny_by_default = false }

unfoldable pub is_sensitive : SensitivitySpec → FieldName → Bool
is_sensitive spec f = if spec.deny_by_default then not (any (λ s. s == f) spec.safe) else false
