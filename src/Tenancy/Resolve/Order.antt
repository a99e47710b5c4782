-- ===== src/Tenancy/Resolve/Order.antt =====
-- crates/osproxy-tenancy/src/resolve.rs: sources are tried in order, whatever their nesting.
use opensearch_proxy.Prelude.{
  ◌≡◌, ◌∙◌, refl, sym, ap, Option, none, some, List, [], ◌∷◌, ◌++◌, append_assoc, append-nil,
  Result, ok, err,
}
use opensearch_proxy.Prelude.Bytes.{Bytes}
use opensearch_proxy.Core.Ids.{PartitionId}
use opensearch_proxy.Spi.Rules.{PartitionKeySpec, Specs, PartitionKeySpecKind}
use opensearch_proxy.Spi.Failure.{SpiError, partition_unresolved}
use opensearch_proxy.Spi.Request.{RequestCtx, header_value, attr}
use opensearch_proxy.Tenancy.Resolve.{
  Try, or_else, try_spec, try_each, resolved_or_tried, resolve_partition_spec,
}

-- The sources of a specification that are no list, from left to right.
unfoldable mutual
  pub leaves : PartitionKeySpec → List PartitionKeySpec
  leaves (PartitionKeySpec.any_of specs) = leaves_each specs
  leaves (PartitionKeySpec.body_field path) = PartitionKeySpec.body_field path ∷ []
  leaves (PartitionKeySpec.header name) = PartitionKeySpec.header name ∷ []
  leaves (PartitionKeySpec.principal_attr name) = PartitionKeySpec.principal_attr name ∷ []

  pub leaves_each : Specs → List PartitionKeySpec
  leaves_each Specs.nil = []
  leaves_each (Specs.cons spec specs) = leaves spec ++ leaves_each specs

abbrev pub kinds : List PartitionKeySpec → List PartitionKeySpecKind
kinds [] = []
kinds (PartitionKeySpec.body_field _ ∷ later) = PartitionKeySpecKind.body_field ∷ kinds later
kinds (PartitionKeySpec.header _ ∷ later) = PartitionKeySpecKind.header ∷ kinds later
kinds (PartitionKeySpec.principal_attr _ ∷ later) =
    PartitionKeySpecKind.principal_attr ∷ kinds later
kinds (PartitionKeySpec.any_of _ ∷ later) = kinds later

module _ (ctx : RequestCtx) (body : Bytes → Option Bytes) where
  abbrev pub source : PartitionKeySpec → Option Bytes
  source (PartitionKeySpec.body_field path) = body path
  source (PartitionKeySpec.header name) = header_value ctx name
  source (PartitionKeySpec.principal_attr name) = attr ctx name
  source (PartitionKeySpec.any_of specs) = none

  abbrev pub first_or : Option Bytes → Option Bytes → Option Bytes
  first_or (some id) later = some id
  first_or none later = later

  -- the first source that answers
  abbrev pub first : List PartitionKeySpec → Option Bytes
  first [] = none
  first (leaf ∷ later) = first_or (source leaf) (first later)

  first-append : (xs ys : List PartitionKeySpec) → first (xs ++ ys) ≡ first_or (first xs) (first ys)
  first-append [] ys = refl
  first-append (x ∷ xs) ys =
      ap (first_or (source x)) (first-append xs ys) ∙ nested (source x) (first xs) (first ys)
    where
      nested : (a b c : Option Bytes) → first_or a (first_or b c) ≡ first_or (first_or a b) c
      nested (some id) b c = refl
      nested none b c = refl

  kinds-append : (xs ys : List PartitionKeySpec) → kinds (xs ++ ys) ≡ kinds xs ++ kinds ys
  kinds-append [] ys = refl
  kinds-append (PartitionKeySpec.body_field _ ∷ xs) ys =
      ap (λ t. PartitionKeySpecKind.body_field ∷ t) (kinds-append xs ys)
  kinds-append (PartitionKeySpec.header _ ∷ xs) ys =
      ap (λ t. PartitionKeySpecKind.header ∷ t) (kinds-append xs ys)
  kinds-append (PartitionKeySpec.principal_attr _ ∷ xs) ys =
      ap (λ t. PartitionKeySpecKind.principal_attr ∷ t) (kinds-append xs ys)
  kinds-append (PartitionKeySpec.any_of _ ∷ xs) ys = kinds-append xs ys

  -- What a try shows: its answer, and every kind in `tried` if there is none.
  Shows : List PartitionKeySpec → List PartitionKeySpecKind → Try → Type 0
  Shows all tried t = (t.0 ≡ first all) × (t.0 ≡ none → t.1 ≡ tried ++ kinds all)

  leaf-Shows :
      (o : Option Bytes) (all : List PartitionKeySpec) (tried now : List PartitionKeySpecKind)
      → first_or o none ≡ first all
      → now ≡ tried ++ kinds all
      → Shows all tried (o, now)
  unfolding Shows
  leaf-Shows (some id) all tried now h k = (h, λ _. k)
  leaf-Shows none all tried now h k = (h, λ _. k)

  or_else-Shows :
      (xs ys : List PartitionKeySpec) (tried : List PartitionKeySpecKind) (t : Try)
      (later : List PartitionKeySpecKind → Try)
      → Shows xs tried t
      → ((tried : List PartitionKeySpecKind) → Shows ys tried (later tried))
      → Shows (xs ++ ys) tried (or_else t later)
  unfolding Shows
  or_else-Shows xs ys tried (some id, now) later (h, k) each =
      (ap (λ o. first_or o (first ys)) h ∙ sym (first-append xs ys), λ e. cc)
  or_else-Shows xs ys tried (none, now) later (h, k) each = (
    (each now).0 ∙ (ap (λ o. first_or o (first ys)) h ∙ sym (first-append xs ys)),
    λ e.
        (((each now).1 e ∙ ap (λ n. n ++ kinds ys) (k refl))
          ∙ append_assoc tried (kinds xs) (kinds ys))
        ∙ ap (λ n. tried ++ n) (sym (kinds-append xs ys)),
  )

  mutual
    unfolding try_spec leaves

    try_spec-Shows :
        (spec : PartitionKeySpec) (tried : List PartitionKeySpecKind)
        → Shows (leaves spec) tried (try_spec ctx body spec tried)
    try_spec-Shows (PartitionKeySpec.body_field path) tried =
        leaf-Shows (body path) _ tried _ refl refl
    try_spec-Shows (PartitionKeySpec.header name) tried =
        leaf-Shows (header_value ctx name) _ tried _ refl refl
    try_spec-Shows (PartitionKeySpec.principal_attr name) tried =
        leaf-Shows (attr ctx name) _ tried _ refl refl
    try_spec-Shows (PartitionKeySpec.any_of specs) tried = try_each-Shows specs tried

    try_each-Shows :
        (specs : Specs) (tried : List PartitionKeySpecKind)
        → Shows (leaves_each specs) tried (try_each ctx body specs tried)
    try_each-Shows Specs.nil tried = leaf-Shows none [] tried tried refl (sym (append-nil tried))
    try_each-Shows (Specs.cons spec specs) tried =
        or_else-Shows (leaves spec) (leaves_each specs) tried (try_spec ctx body spec tried)
          (λ tried. try_each ctx body specs tried) (try_spec-Shows spec tried)
          (λ tried. try_each-Shows specs tried)

  -- What is promised: the value of the first source that has one, or the kinds of all sources.
  abbrev pub promised : List PartitionKeySpec → Option Bytes → Result PartitionId SpiError
  promised all (some id) = ok id
  promised all none = err (partition_unresolved (kinds all))

  promise_kept :
      (all : List PartitionKeySpec) (t : Try)
      → Shows all [] t
      → resolved_or_tried ctx body t ≡ promised all (first all)
  unfolding Shows
  promise_kept all (some id, tried) (h, k) = ap (promised all) h
  promise_kept all (none, tried) (h, k) =
      ap (λ n. err (partition_unresolved n)) (k refl) ∙ ap (promised all) h

  -- A specification resolves to the value of the first of its sources, from left to right, that has one,
  -- however its alternatives are nested; if no source has one, the error lists the kinds of all of
  -- them in that order.
  pub resolve_partition-first :
      (spec : PartitionKeySpec)
      → resolve_partition_spec ctx body spec ≡ promised (leaves spec) (first (leaves spec))
  unfolding resolve_partition_spec
  resolve_partition-first spec =
      promise_kept (leaves spec) (try_spec ctx body spec []) (try_spec-Shows spec [])
