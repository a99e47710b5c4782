-- ===== src/Control/Tests.antt =====
-- Runs of the control plane of crates/osproxy-control over a placement table.
use opensearch_proxy.Prelude.{
  ℕ, ◌<◌, ◌≢◌, nat_eq, list_eq, none, if◌then◌else◌, ltb, length, ne_of_eq_false, ◌+◌, ◌-◌, ◌≤◌,
  ◌≡◌, refl, some, [], ◌∷◌, ok, err, arith,
}
use opensearch_proxy.Prelude.Map
use opensearch_proxy.Prelude.Bytes.{Bytes, ascii}
use opensearch_proxy.Core.Time.{Duration}
use opensearch_proxy.Spi.Placement.{Placement, dedicated_cluster}
use opensearch_proxy.Tenancy.PlacementTable
use opensearch_proxy.Tenancy.PlacementTable.{PlacementTable}
use opensearch_proxy.Tenancy.PlacementTable.Operations
use opensearch_proxy.Control.Migration
use opensearch_proxy.Control.Migration.{
  ControlPlane, barrier_pending, enter_cutover, complete_migration,
}
use opensearch_proxy.Control.Migration.Calls.{completing, beginning, run_all, InWindow}
use opensearch_proxy.Control.Migration.Barrier.{no_completion_within_barrier}
use opensearch_proxy.Control.Migration.Table.{table_store, table_store-IsStore}
use opensearch_proxy.Control.Affinity.{
  Pinned, CursorAffinity, swept, room_for, min_with, older, pin, resolve, release,
}
use opensearch_proxy.Control.Affinity.Bounds.{IsBounded, operations-IsBounded}
use opensearch_proxy.Control.Affinity.Lookup.{resolve-operations, pin_evicts_oldest}

abbrev acme : Bytes
acme = ascii "acme"

abbrev home : Placement
home = dedicated_cluster (ascii "c1")

abbrev draining_table : PlacementTable
draining_table =
    Operations.run (Operations.beginning acme home)
      (Operations.run (Operations.setting acme home) PlacementTable.new)

-- The default barrier is thirty seconds.
abbrev controller : ControlPlane PlacementTable
controller = Migration.new draining_table

entry : (enter_cutover table_store acme 5 controller).1 ≡ ok 3
unfolding enter_cutover PlacementTable.enter_cutover Operations.run Map.get Map.insert
entry = refl

no_completion_within_barrier_example :
    let held =
      run_all table_store
        (completing acme 9 ∷ beginning acme home ∷ [])
        (enter_cutover table_store acme 5 controller).0 in
    (left : Duration) × (complete_migration table_store acme 29_000_000_000 held
      ≡ (held, err (barrier_pending left)))
    × (30_000_000_005 ≤ 29_000_000_000 + left)
    × InWindow table_store acme held.store
no_completion_within_barrier_example =
    no_completion_within_barrier table_store acme 5 29_000_000_000 3 controller
      (completing acme 9 ∷ beginning acme home ∷ []) table_store-IsStore entry (omega arith)
      (omega arith) (omega arith)

-- Two cursors in a map of two, and a third that makes room for itself.
abbrev c1 : Bytes
c1 = ascii "c1"

abbrev bound_at : ℕ → Pinned
bound_at at = record { cluster = c1; pinned_at = at }

abbrev full_map : CursorAffinity
full_map = record {
  ttl = 100;
  capacity = 2;
  entries = (ascii "a", bound_at 1) ∷ (ascii "b", bound_at 2) ∷ [];
}

full_map-IsBounded : IsBounded full_map
unfolding Map.get
full_map-IsBounded = record {
  positive = omega arith;
  fits = omega arith;
  distinct = (refl, (refl, tt));
}

operations-IsBounded_example :
    IsBounded (pin (ascii "c") c1 5 full_map) × IsBounded (release (ascii "c") full_map)
operations-IsBounded_example = operations-IsBounded (ascii "c") c1 5 full_map full_map-IsBounded

abbrev roomy_map : CursorAffinity
roomy_map = record full_map { capacity = 3 }

roomy_map-IsBounded : IsBounded roomy_map
unfolding Map.get
roomy_map-IsBounded = record {
  positive = omega arith;
  fits = omega arith;
  distinct = (refl, (refl, tt));
}

c_ne_a : ascii "c" ≢ ascii "a"
c_ne_a = ne_of_eq_false (ascii "c") (ascii "a") refl

roomy : length (swept 5 roomy_map) < 3
unfolding Map.retain
roomy = omega arith

resolve-operations_example :
    (resolve (ascii "c") 50 (pin (ascii "c") c1 5 roomy_map)
      ≡ (if ltb (50 - 5) 100 then some c1 else none))
    × (resolve (ascii "a") 50 (pin (ascii "c") c1 5 roomy_map) ≡ resolve (ascii "a") 50 roomy_map)
    × (resolve (ascii "c") 50 (release (ascii "c") roomy_map) ≡ none)
    × (resolve (ascii "a") 50 (release (ascii "c") roomy_map) ≡ resolve (ascii "a") 50 roomy_map)
resolve-operations_example =
    resolve-operations (ascii "c") (ascii "a") c1 5 50 roomy_map roomy_map-IsBounded c_ne_a
      (omega arith) roomy

kept_a : Map.get (ascii "a") (swept 5 full_map) ≡ some (bound_at 1)
unfolding Map.get Map.retain
kept_a = refl

lost_a : Map.get (ascii "a") (pin (ascii "c") c1 5 full_map).entries ≡ none
unfolding Map.get Map.retain Map.insert Map.remove pin room_for min_with older
lost_a = refl

kept_b : Map.get (ascii "b") (swept 5 full_map) ≡ some (bound_at 2)
unfolding Map.get Map.retain
kept_b = refl

pin_evicts_oldest_example : (2 ≤ length (swept 5 full_map)) × (1 ≤ 2)
pin_evicts_oldest_example =
    pin_evicts_oldest (ascii "c") (ascii "a") (ascii "b") c1 5 full_map (bound_at 1) (bound_at 2)
      full_map-IsBounded c_ne_a kept_a lost_a kept_b
