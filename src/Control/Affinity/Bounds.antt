-- ===== src/Control/Affinity/Bounds.antt =====
-- crates/osproxy-control/src/affinity.rs: bounded memory, and which binding makes room.
use opensearch_proxy.Prelude.{
  ℕ, suc, ◌≤◌, ◌≡◌, refl, Option, none, some, nat_eq, list_eq, ltb, leb, arith, length, [], ◌∷◌,
  eq_iff, not, inl, inr, Bool-cases, All, ◌⊎◌, ◌∙◌, sym, ap,
}
use opensearch_proxy.Prelude.Map
use opensearch_proxy.Prelude.Map.{
  Entries, IsMap, In, here, there, length-remove-In, length-remove-le, length-retain-le,
  insert-IsMap, remove-IsMap, retain-IsMap, In-of_get, get_of_In,
}
use opensearch_proxy.Prelude.Bytes.{Bytes}
use opensearch_proxy.Core.Ids.{ClusterId}
use opensearch_proxy.Core.Time.{Instant}
use opensearch_proxy.Control.Affinity.{
  Pinned, CursorAffinity, is_expired, older, min_with, oldest, without, swept, room_for, pin,
  release,
}

-- The map is no larger than its capacity, which is positive, and binds no cursor twice.
pub record IsBounded (a : CursorAffinity) : Type 0 where
  pub positive : 1 ≤ a.capacity
  pub fits : length a.entries ≤ a.capacity
  pub distinct : IsMap a.entries

-- The entry is at least as old as each of the list.
abbrev IsLeast : Pinned → Entries Bytes Pinned → Type 0
IsLeast p m = All (λ e. p.pinned_at ≤ e.1.pinned_at) m

older-cases : (a b : Bytes × Pinned) → (older a b ≡ a) ⊎ (older a b ≡ b)
unfolding older
older-cases a b = elim (Bool-cases (ltb b.1.pinned_at a.1.pinned_at)) [
  | inl less ↦ rw less (inr refl)
  | inr more ↦ rw more (inl refl)
]

older-le :
    (a b : Bytes × Pinned)
    → ((older a b).1.pinned_at ≤ a.1.pinned_at) × ((older a b).1.pinned_at ≤ b.1.pinned_at)
unfolding older
older-le a b = elim (Bool-cases (ltb b.1.pinned_at a.1.pinned_at)) [
  | inl less ↦ rw less (ground arith)
  | inr more ↦ rw more (ground arith)
]

min_with-le :
    (m : Entries Bytes Pinned) (best : Bytes × Pinned)
    → ((min_with best m).1.pinned_at ≤ best.1.pinned_at) × IsLeast (min_with best m).1 m
unfolding min_with
min_with-le [] best = (omega arith, tt)
min_with-le (e ∷ m) best =
    let (le, all) = min_with-le m (older best e) in
    let (a, b) = older-le best e in (omega arith, (omega arith, all))

min_with-In :
    (m : Entries Bytes Pinned) (best : Bytes × Pinned)
    → (min_with best m ≡ best) ⊎ In (min_with best m).0 (min_with best m).1 m
unfolding min_with
min_with-In [] best = inl refl
min_with-In (e ∷ m) best = elim (min_with-In m (older best e)) [
  | inr i ↦ inr (there i)
  | inl same ↦ elim (older-cases best e) [
    | inl first ↦ inl (same ∙ first)
    | inr second ↦
        let found : min_with (older best e) m ≡ e = same ∙ second in
        inr (
          here (sym (ap (λ (x : Bytes × Pinned). x.0) found))
            (sym (ap (λ (x : Bytes × Pinned). x.1) found)))
  ]
]

-- The chosen entry is one of the map's, and the oldest.
oldest-In :
    (j : Bytes) (q : Pinned) (m : Entries Bytes Pinned)
    → let r = min_with (j, q) m in In r.0 r.1 ((j, q) ∷ m) × IsLeast r.1 ((j, q) ∷ m)
oldest-In j q m = (chosen (min_with-In m (j, q)), min_with-le m (j, q))
  where
    chosen :
        (min_with (j, q) m ≡ (j, q)) ⊎ In (min_with (j, q) m).0 (min_with (j, q) m).1 m
        → In (min_with (j, q) m).0 (min_with (j, q) m).1 ((j, q) ∷ m)
    chosen (inr i) = there i
    chosen (inl same) =
        here (sym (ap (λ (x : Bytes × Pinned). x.0) same))
          (sym (ap (λ (x : Bytes × Pinned). x.1) same))

length-without-oldest :
    (m : Entries Bytes Pinned) (n : ℕ)
    → 1 ≤ n
    → length m ≤ n
    → suc (length (without (oldest m) m)) ≤ n
length-without-oldest [] n pos le = omega arith
length-without-oldest ((j, q) ∷ m) n pos le =
    let (chosen, _) = oldest-In j q m in omega (arith, length-remove-In _ _ ((j, q) ∷ m) chosen)

without-IsMap :
    (o : Option (Bytes × Pinned)) (m : Entries Bytes Pinned) → IsMap m → IsMap (without o m)
without-IsMap none m h = h
without-IsMap (some (k, p)) m h = remove-IsMap k m h

length-room_for :
    (now : Instant) (a : CursorAffinity) → IsBounded a → suc (length (room_for now a)) ≤ a.capacity
unfolding room_for
length-room_for now a h =
    let live = swept now a in
    let le : length live ≤ a.capacity =
      omega (
        arith,
        h.fits,
        length-retain-le (λ (_ : Bytes) p. not (is_expired a.ttl now p)) a.entries,
      ) in
    elim (Bool-cases (leb a.capacity (length live))) [
      | inl full ↦ rw full (length-without-oldest live a.capacity h.positive le)
      | inr room ↦ rw room (ground arith)
    ]

room_for-IsMap : (now : Instant) (a : CursorAffinity) → IsMap a.entries → IsMap (room_for now a)
unfolding room_for
room_for-IsMap now a h =
    let live-IsMap = retain-IsMap (λ p. not (is_expired a.ttl now p)) a.entries h in
    elim (Bool-cases (leb a.capacity (length (swept now a)))) [
      | inl full ↦ rw full (without-IsMap (oldest (swept now a)) (swept now a) live-IsMap)
      | inr room ↦ rw room live-IsMap
    ]

-- Pinning a cursor keeps the map within its capacity, and each cursor bound once.
pub pin-IsBounded :
    (id : Bytes) (cluster : ClusterId) (now : Instant) (a : CursorAffinity)
    → IsBounded a
    → IsBounded (pin id cluster now a)
unfolding pin Map.insert
pin-IsBounded id cluster now a h = record {
  positive = h.positive;
  fits = omega (arith, length-room_for now a h, length-remove-le id (room_for now a));
  distinct =
      insert-IsMap id (record { cluster = cluster; pinned_at = now }) (room_for now a)
        (room_for-IsMap now a h.distinct);
}

-- Releasing a cursor keeps the map within its capacity, and each cursor bound once.
pub release-IsBounded : (id : Bytes) (a : CursorAffinity) → IsBounded a → IsBounded (release id a)
unfolding release
release-IsBounded id a h = record {
  positive = h.positive;
  fits = omega (arith, h.fits, length-remove-le id a.entries);
  distinct = remove-IsMap id a.entries h.distinct;
}

-- Pinning a cursor and releasing one keep the map within its capacity, and each cursor bound once.
pub operations-IsBounded :
    (id cluster : Bytes) (now : ℕ) (a : CursorAffinity)
    → IsBounded a
    → IsBounded (pin id cluster now a) × IsBounded (release id a)
operations-IsBounded id cluster now a h =
    (pin-IsBounded id cluster now a h, release-IsBounded id a h)

least_of :
    (p q : Pinned) (k : Bytes) (m : Entries Bytes Pinned)
    → IsLeast p m
    → In k q m
    → p.pinned_at ≤ q.pinned_at
least_of p q k [] h i = elim i [ ]
least_of p q k ((j, w) ∷ m) (le, h) (here _ same) = rw (← same) le
least_of p q k ((j, w) ∷ m) (le, h) (there i) = least_of p q k m h i

-- A binding that goes to make room is the oldest.
pub evicted_oldest :
    (m : Entries Bytes Pinned) (j k : Bytes) (p q : Pinned)
    → IsMap m
    → Map.get j m ≡ some p
    → Map.get j (without (oldest m) m) ≡ none
    → Map.get k m ≡ some q
    → p.pinned_at ≤ q.pinned_at
unfolding Map.get
evicted_oldest [] j k p q h bound gone other = cc
evicted_oldest ((i, r) ∷ m) j k p q h bound gone other =
    let (chosen, least) = oldest-In i r m in
    let best = min_with (i, r) m in
    let same : best.0 ≡ j = ground (arith, Map.get-remove best.0 j ((i, r) ∷ m), eq_iff best.0 j) in
    let held = get_of_In best.0 best.1 ((i, r) ∷ m) h chosen in
    let is_best : best.1 ≡ p = cc (held, bound, ap (λ x. Map.get x ((i, r) ∷ m)) same) in
    rw (← is_best) (least_of best.1 q k ((i, r) ∷ m) least (In-of_get k q ((i, r) ∷ m) other))
