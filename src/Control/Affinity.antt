-- ===== src/Control/Affinity.antt =====
-- crates/osproxy-control/src/affinity.rs: the bounded map from a cursor to its cluster. Each method
-- holds the lock throughout and takes the instant that it reads from the clock.
pub mod Bounds
pub mod Lookup
use opensearch_proxy.Prelude.{
  ℕ, ◌-◌, max, Bool, not, Option, none, some, nat_eq, list_eq, ltb, leb, if◌then◌else◌, length, [],
  ◌∷◌,
}
use opensearch_proxy.Prelude.Map
use opensearch_proxy.Prelude.Map.{Entries}
use opensearch_proxy.Prelude.Bytes.{Bytes}
use opensearch_proxy.Core.Ids.{ClusterId}
use opensearch_proxy.Core.Time.{Instant, Duration, saturating_duration_since}

pub record Pinned : Type 0 where
  pub cluster : ClusterId
  pub pinned_at : Instant

pub record CursorAffinity : Type 0 where
  pub ttl : Duration
  pub capacity : ℕ
  pub entries : Entries Bytes Pinned

abbrev pub new : Duration → ℕ → CursorAffinity
new ttl capacity = record { ttl = ttl; capacity = max capacity 1; entries = [] }

abbrev pub is_expired : Duration → Instant → Pinned → Bool
is_expired ttl now p = leb ttl (saturating_duration_since now p.pinned_at)

unfoldable pub older : Bytes × Pinned → Bytes × Pinned → Bytes × Pinned
older best e = if ltb e.1.pinned_at best.1.pinned_at then e else best

unfoldable pub min_with : Bytes × Pinned → Entries Bytes Pinned → Bytes × Pinned
min_with best [] = best
min_with best (e ∷ m) = min_with (older best e) m

-- `iter().min_by_key(pinned_at)`: the first of the least, in the map's order of iteration.
abbrev pub oldest : Entries Bytes Pinned → Option (Bytes × Pinned)
oldest [] = none
oldest ((k, p) ∷ m) = some (min_with (k, p) m)

abbrev pub without : Option (Bytes × Pinned) → Entries Bytes Pinned → Entries Bytes Pinned
without none m = m
without (some (k, _)) m = Map.remove k m

abbrev pub swept : Instant → CursorAffinity → Entries Bytes Pinned
swept now a = Map.retain (λ _ p. not (is_expired a.ttl now p)) a.entries

-- The bindings that are kept when a new one is to be added.
unfoldable pub room_for : Instant → CursorAffinity → Entries Bytes Pinned
room_for now a =
    let live = swept now a in
    if leb a.capacity (length live) then without (oldest live) live else live

unfoldable pub pin : Bytes → ClusterId → Instant → CursorAffinity → CursorAffinity
pin id cluster now a = record a {
  entries = Map.insert id (record { cluster = cluster; pinned_at = now }) (room_for now a);
}

unfoldable pub live_cluster : Duration → Instant → Option Pinned → Option ClusterId
live_cluster ttl now none = none
live_cluster ttl now (some p) = if is_expired ttl now p then none else some p.cluster

unfoldable pub resolve : Bytes → Instant → CursorAffinity → Option ClusterId
resolve id now a = live_cluster a.ttl now (Map.get id a.entries)

unfoldable pub release : Bytes → CursorAffinity → CursorAffinity
release id a = record a { entries = Map.remove id a.entries }
