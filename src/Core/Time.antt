-- ===== src/Core/Time.antt =====
-- crates/osproxy-core/src/time.rs: instants are `u64` nanoseconds. A `Duration` is its number of
-- nanoseconds; the standard library's largest is (2^64 seconds + 999,999,999 ns).
use opensearch_proxy.Prelude.{ℕ, ◌+◌, ◌-◌, ◌^◌, min}

abbrev pub Instant : Type 0
Instant = ℕ

abbrev pub Duration : Type 0
Duration = ℕ

abbrev pub u64_max : ℕ
u64_max = 2 ^ 64 - 1

-- `Instant::saturating_duration_since`: `-` on ℕ stops at 0 as `u64::saturating_sub` does.
abbrev pub saturating_duration_since : Instant → Instant → Duration
saturating_duration_since now earlier = now - earlier

-- `Instant::saturating_add`: a delta of more than `u64::MAX` nanoseconds is cut to that first.
unfoldable pub saturating_add : Instant → Duration → Instant
saturating_add now delta = min (now + min delta u64_max) u64_max
