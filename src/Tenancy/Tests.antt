-- ===== src/Tenancy/Tests.antt =====
-- Runs of the placement table of crates/osproxy-tenancy at concrete inputs.
use opensearch_proxy.Prelude.{Option, none, ok, false, ◌≡◌, ◌≢◌, refl, some, [], ◌∷◌, err, arith}
use opensearch_proxy.Prelude.Map
use opensearch_proxy.Prelude.Bytes.{Bytes, ascii}
use opensearch_proxy.Spi.Placement.{Placement, dedicated_cluster, MigrationPhase, settled}
use opensearch_proxy.Tenancy.Migration.{admit, reject, active, migrating, draining, not_migrating}
use opensearch_proxy.Tenancy.PlacementTable.{
  PlacementTable, new, get, get_of, admit_write, admit_of,
}
use opensearch_proxy.Tenancy.PlacementTable.Operations.{
  setting, beginning, entering, completing, aborting, run, run_all, IsStamped, new-IsStamped,
  run-IsStamped,
}
use opensearch_proxy.Tenancy.PlacementTable.Gate.{admitted_write_current, superseded_write_rejected}
use opensearch_proxy.Tenancy.PlacementTable.Lifecycle.{
  seen, begun, allowed_accepted, accepted_or_refused, Verdict, Applied, state_at, outcome,
  other_partitions_untouched, migration_lifecycle,
}
use opensearch_proxy.Core.Endpoint.{ingest_doc}
use opensearch_proxy.Spi.Request.{RequestCtx, request_ctx, HttpMethod, http1, header_value}
use opensearch_proxy.Spi.Rules.{
  PartitionKeySpec, body_field, header, any_of, cons, nil, InjectedField, partition_id, from_header,
  DocIdRule,
}
use opensearch_proxy.Tenancy.Resolve.{try_spec, resolve_partition_spec}
use opensearch_proxy.Tenancy.Resolve.Order.{leaves, first, promised, resolve_partition-first}

abbrev acme : Bytes
acme = ascii "acme"

abbrev umbrella : Bytes
umbrella = ascii "umbrella"

abbrev old_home : Placement
old_home = dedicated_cluster (ascii "c1")

abbrev new_home : Placement
new_home = dedicated_cluster (ascii "c2")

abbrev placed_once : PlacementTable
placed_once = run (setting acme old_home) new

placed_once-IsStamped : IsStamped placed_once
placed_once-IsStamped = run-IsStamped (setting acme old_home) new (omega arith) new-IsStamped

placed_once_generation : placed_once.generation ≡ 1
unfolding run
placed_once_generation = refl

placed_once-seen : get placed_once acme ≡ some (seen old_home 1 settled)
unfolding run get get_of Map.get Map.insert
placed_once-seen = refl

admitted_after_other :
    admit_write (run_all (setting umbrella old_home ∷ []) placed_once) acme 1 ≡ admit
unfolding run run_all admit_write admit_of Map.get Map.insert
admitted_after_other = refl

admitted_write_current_example :
    (get (run_all (setting umbrella old_home ∷ []) placed_once) acme
      ≡ some (seen old_home 1 settled))
    × (settled ≢ MigrationPhase.cutover)
unfolding run
admitted_write_current_example =
    admitted_write_current placed_once (setting umbrella old_home ∷ []) acme
      (seen old_home 1 settled) placed_once-IsStamped (omega arith) placed_once-seen
      admitted_after_other

superseded_write_rejected_example :
    admit_write
      (run_all (setting umbrella old_home ∷ []) (run (beginning acme new_home) placed_once))
      acme
      1
    ≡ reject
unfolding run Map.get Map.insert
superseded_write_rejected_example =
    superseded_write_rejected placed_once (beginning acme new_home) (setting umbrella old_home ∷ [])
      (seen old_home 1 settled) placed_once-IsStamped (omega arith) placed_once-seen (omega arith)

accepted_or_refused_example :
    Verdict (completing acme) placed_once (some (active old_home)) (placed_once, err not_migrating)
unfolding run outcome Map.get Map.insert
accepted_or_refused_example = accepted_or_refused (completing acme) placed_once

settled_at : state_at placed_once acme ≡ some (active old_home)
unfolding run Map.get Map.insert
settled_at = refl

allowed_accepted_example :
    Applied (beginning acme new_home) placed_once (migrating old_home new_home draining)
unfolding run Map.get Map.insert
allowed_accepted_example =
    allowed_accepted (beginning acme new_home) placed_once (migrating old_home new_home draining)
      (begun acme old_home new_home)

acme_ne_umbrella : umbrella ≢ acme
acme_ne_umbrella h = cc

other_partitions_untouched_example :
    (get (run (setting umbrella old_home) placed_once) acme ≡ get placed_once acme)
    × (admit_write (run (setting umbrella old_home) placed_once) acme 1
        ≡ admit_write placed_once acme 1)
other_partitions_untouched_example =
    other_partitions_untouched (setting umbrella old_home) placed_once acme 1 acme_ne_umbrella

migration_lifecycle_example :
    let drained = run (beginning acme new_home) placed_once in
    let held = run (entering acme) drained in
    let flipped = run (completing acme) held in
    let back = run (aborting acme) held in
    (get drained acme ≡ some (seen old_home 2 MigrationPhase.draining))
    × (admit_write drained acme 2 ≡ admit)
    × (get held acme ≡ some (seen old_home 3 MigrationPhase.cutover))
    × (admit_write held acme 3 ≡ reject)
    × (get flipped acme ≡ some (seen new_home 4 settled))
    × (admit_write flipped acme 4 ≡ admit)
    × (get back acme ≡ some (seen old_home 4 settled))
unfolding run
migration_lifecycle_example =
    migration_lifecycle placed_once acme old_home new_home 3 settled_at (omega arith)

-- A request with a tenant header, and a specification that asks the body first.
abbrev tenant_request : RequestCtx
tenant_request =
    request_ctx [] [] HttpMethod.get ingest_doc http1 [] ((ascii "X-Tenant", ascii "acme") ∷ []) []

abbrev no_body : Bytes → Option Bytes
no_body path = none

abbrev body_then_header : PartitionKeySpec
body_then_header =
    any_of (cons (body_field (ascii "tenant")) (cons (header (ascii "x-tenant")) nil))

resolve_partition-first_example :
    resolve_partition_spec tenant_request no_body body_then_header
    ≡ promised tenant_request no_body
        (leaves body_then_header)
        (first tenant_request no_body (leaves body_then_header))
resolve_partition-first_example = resolve_partition-first tenant_request no_body body_then_header

resolves_acme : resolve_partition_spec tenant_request no_body body_then_header ≡ ok acme
unfolding resolve_partition_spec try_spec header_value
resolves_acme = refl

abbrev partition_field : InjectedField
partition_field = record { name = ascii "_tenant"; value = partition_id }

abbrev tenant_field : InjectedField
tenant_field = record { name = ascii "_source"; value = from_header (ascii "x-tenant") }

abbrev id_rule : DocIdRule
id_rule = record { template = ascii "{partition}:{body.id}"; set_routing = false }
