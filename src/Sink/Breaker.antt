-- ===== src/Sink/Breaker.antt =====
-- crates/osproxy-sink/src/breaker.rs: the circuit breaker of one cluster. Each method holds the
-- lock throughout; the sink passes the threshold, the cooldown and the instant.
pub mod History
use opensearch_proxy.Prelude.{
  ℕ, ◌+◌, ◌-◌, ◌^◌, min, Bool, true, Option, none, some, leb, if◌then◌else◌,
}
use opensearch_proxy.Core.Time.{Instant, Duration, saturating_duration_since}

abbrev pub u32_max : ℕ
u32_max = 2 ^ 32 - 1

pub record Breaker : Type 0 where
  pub consecutive_failures : ℕ
  pub opened_at : Option Instant

-- `Breaker::default()`
abbrev pub closed : Breaker
closed = record { consecutive_failures = 0; opened_at = none }

abbrev pub allows_since : Instant → Duration → Option Instant → Bool
allows_since now cooldown none = true
allows_since now cooldown (some opened) = leb cooldown (saturating_duration_since now opened)

unfoldable pub allows : Instant → Duration → Breaker → Bool
allows now cooldown b = allows_since now cooldown b.opened_at

unfoldable pub record_success : Breaker → Breaker
record_success b = record { consecutive_failures = 0; opened_at = none }

unfoldable pub record_failure : Instant → ℕ → Breaker → Breaker
record_failure now threshold b =
    let failures : ℕ = min (b.consecutive_failures + 1) u32_max in
    record {
      consecutive_failures = failures;
      opened_at = if leb threshold failures then some now else b.opened_at;
    }
