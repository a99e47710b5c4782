-- ===== src/Control/Affinity/Lookup.antt =====
-- crates/osproxy-control/src/affinity.rs: what a pinned, a released and any other cursor resolve to.
use opensearch_proxy.Prelude.{
  ◌-◌, ◌≤◌, ◌<◌, ◌≡◌, ◌≢◌, ◌∙◌, sym, ap, inl, inr, true, false, not, none, some, nat_eq, list_eq,
  ltb, leb, arith, if◌then◌else◌, length, eq_refl, eq_false_of_ne, Bool-cases, ◌==◌,
}
use opensearch_proxy.Prelude.Map
use opensearch_proxy.Prelude.Map.{get-insert, get-remove, get-retain, retain-IsMap}
use opensearch_proxy.Prelude.Bytes.{Bytes}
use opensearch_proxy.Core.Ids.{ClusterId}
use opensearch_proxy.Core.Time.{Instant}
use opensearch_proxy.Control.Affinity.{
  Pinned, CursorAffinity, is_expired, oldest, without, swept, room_for, pin, live_cluster, resolve,
  release,
}
use opensearch_proxy.Control.Affinity.Bounds.{IsBounded, evicted_oldest}

entry-pin :
    (id j : Bytes) (cluster : ClusterId) (now : Instant) (a : CursorAffinity)
    → Map.get j (pin id cluster now a).entries ≡ (
        if id == j
        then some (record { cluster = cluster; pinned_at = now })
        else Map.get j (room_for now a))
unfolding pin
entry-pin id j cluster now a =
    get-insert id j (record { cluster = cluster; pinned_at = now }) (room_for now a)

resolve-pin :
    (id : Bytes) (cluster : ClusterId) (now later : Instant) (a : CursorAffinity)
    → resolve id later (pin id cluster now a)
      ≡ (if ltb (later - now) a.ttl then some cluster else none)
unfolding resolve pin live_cluster
resolve-pin id cluster now later a =
    rw
      (
        get-insert id id (record { cluster = cluster; pinned_at = now }) (room_for now a),
        eq_refl id,
      )
      (ground arith)

resolve-release :
    (id j : Bytes) (now : Instant) (a : CursorAffinity)
    → resolve j now (release id a) ≡ (if id == j then none else resolve j now a)
unfolding resolve release live_cluster
resolve-release id j now a = ground (arith, get-remove id j a.entries)

-- What a sweep takes away is expired from then on.
live_after_sweep :
    (a : CursorAffinity) (j : Bytes) (now later : Instant)
    → IsBounded a
    → now ≤ later
    → live_cluster a.ttl later (Map.get j (swept now a))
      ≡ live_cluster a.ttl later (Map.get j a.entries)
unfolding live_cluster
live_after_sweep a j now later h le =
    ground (arith, get-retain (λ p. not (is_expired a.ttl now p)) j a.entries h.distinct)

entry-pin_ne :
    (id j : Bytes) (cluster : ClusterId) (now : Instant) (a : CursorAffinity)
    → id ≢ j
    → Map.get j (pin id cluster now a).entries ≡ Map.get j (room_for now a)
entry-pin_ne id j cluster now a ne =
    entry-pin id j cluster now a
    ∙ ap
        (λ b.
          if b
          then some (record { cluster = cluster; pinned_at = now })
          else Map.get j (room_for now a))
        (eq_false_of_ne id j ne)

room_for_roomy :
    (now : Instant) (a : CursorAffinity)
    → leb a.capacity (length (swept now a)) ≡ false
    → room_for now a ≡ swept now a
unfolding room_for
room_for_roomy now a roomy = rw roomy

room_for_full :
    (now : Instant) (a : CursorAffinity)
    → leb a.capacity (length (swept now a)) ≡ true
    → room_for now a ≡ without (oldest (swept now a)) (swept now a)
unfolding room_for
room_for_full now a full = rw full

resolve-pin_other :
    (id j : Bytes) (cluster : ClusterId) (now later : Instant) (a : CursorAffinity)
    → IsBounded a
    → id ≢ j
    → now ≤ later
    → length (swept now a) < a.capacity
    → resolve j later (pin id cluster now a) ≡ resolve j later a
unfolding resolve pin
resolve-pin_other id j cluster now later a h ne le room =
    let kept =
      entry-pin_ne id j cluster now a ne ∙ ap (Map.get j) (room_for_roomy now a (ground arith)) in
    ap (live_cluster a.ttl later) kept ∙ live_after_sweep a j now later h le

-- A cursor resolves to the cluster that it was pinned to, for less than the time to live after the
-- pin, and to none from then on. In a map within its capacity, while the bindings that have not expired
-- leave room, pinning it changes nothing for another cursor, at any instant from the pin on. Releasing it
-- leaves it without a cluster, and every other cursor as before.
pub resolve-operations :
    (id j : Bytes) (cluster : ClusterId) (now later : Instant) (a : CursorAffinity)
    → IsBounded a
    → id ≢ j
    → now ≤ later
    → length (swept now a) < a.capacity
    → (resolve id later (pin id cluster now a)
        ≡ (if ltb (later - now) a.ttl then some cluster else none))
      × (resolve j later (pin id cluster now a) ≡ resolve j later a)
      × (resolve id later (release id a) ≡ none)
      × (resolve j later (release id a) ≡ resolve j later a)
resolve-operations id j cluster now later a h ne le room = (
  resolve-pin id cluster now later a,
  resolve-pin_other id j cluster now later a h ne le room,
  resolve-release id id later a ∙ ap (λ b. if b then none else resolve id later a) (eq_refl id),
  resolve-release id j later a
      ∙ ap (λ b. if b then none else resolve j later a) (eq_false_of_ne id j ne),
)

-- In a map within its capacity, a live binding of another cursor is lost by a pin only if the live
-- bindings fill the map, and then none of them is older.
pub pin_evicts_oldest :
    (id j k : Bytes) (cluster : ClusterId) (now : Instant) (a : CursorAffinity) (p q : Pinned)
    → IsBounded a
    → id ≢ j
    → Map.get j (swept now a) ≡ some p
    → Map.get j (pin id cluster now a).entries ≡ none
    → Map.get k (swept now a) ≡ some q
    → (a.capacity ≤ length (swept now a)) × (p.pinned_at ≤ q.pinned_at)
pin_evicts_oldest id j k cluster now a p q h ne bound gone other =
    let lost = sym (entry-pin_ne id j cluster now a ne) ∙ gone in
    elim (Bool-cases (leb a.capacity (length (swept now a)))) [
      | inl full ↦ (
        ground arith,
        evicted_oldest (swept now a) j k p q
            (retain-IsMap (λ r. not (is_expired a.ttl now r)) a.entries h.distinct) bound
            (rw (room_for_full now a full) at lost) other,
      )
      | inr roomy ↦ cc (bound, lost, ap (Map.get j) (room_for_roomy now a roomy))
    ]
