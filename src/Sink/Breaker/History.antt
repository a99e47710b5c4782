-- ===== src/Sink/Breaker/History.antt =====
-- crates/osproxy-sink/src/breaker.rs: the breaker against the history of dispatch outcomes.
use opensearch_proxy.Prelude.{
  ℕ, suc, ◌≤◌, ◌<◌, min, ◌≡◌, refl, ap, Option, none, some, List, [], ◌∷◌, Bool, arith, leb,
  if◌then◌else◌,
}
use opensearch_proxy.Core.Time.{Instant, Duration}
use opensearch_proxy.Sink.Breaker.{
  Breaker, closed, u32_max, allows, allows_since, record_success, record_failure,
}

pub data Outcome : Type 0 where
  success : Outcome
  failure : Instant → Outcome

-- The breaker after a history, its latest outcome first.
unfoldable pub after : ℕ → List Outcome → Breaker
after threshold [] = closed
after threshold (success ∷ past) = record_success (after threshold past)
after threshold (failure now ∷ past) = record_failure now threshold (after threshold past)

-- The failures since the last success.
abbrev run_length : List Outcome → ℕ
run_length [] = 0
run_length (success ∷ past) = 0
run_length (failure now ∷ past) = suc (run_length past)

-- What is promised: the breaker is open since the latest failure, if the run has reached the
-- threshold.
abbrev pub open_since : ℕ → List Outcome → Option Instant
open_since threshold [] = none
open_since threshold (success ∷ past) = none
open_since threshold (failure now ∷ past) =
    if leb threshold (suc (run_length past)) then some now else none

after-counts :
    (threshold : ℕ) (h : List Outcome)
    → (after threshold h).consecutive_failures ≡ min (run_length h) u32_max
unfolding after record_success record_failure
after-counts threshold [] = refl
after-counts threshold (success ∷ past) = refl
after-counts threshold (failure now ∷ past) = omega (arith, after-counts threshold past)

open_since_short :
    (threshold : ℕ) (h : List Outcome) → run_length h < threshold → open_since threshold h ≡ none
open_since_short threshold [] lt = refl
open_since_short threshold (success ∷ past) lt = refl
open_since_short threshold (failure now ∷ past) lt = ground arith

after-opened :
    (threshold : ℕ) (h : List Outcome)
    → threshold ≤ u32_max
    → (after threshold h).opened_at ≡ open_since threshold h
unfolding after record_success record_failure
after-opened threshold [] le = refl
after-opened threshold (success ∷ past) le = refl
after-opened threshold (failure now ∷ past) le = ground (
  arith,
  after-counts threshold past,
  after-opened threshold past le,
  open_since_short threshold past,
)

pub allows-after :
    (threshold : ℕ) (cooldown : Duration) (now : Instant) (h : List Outcome)
    → threshold ≤ u32_max
    → allows now cooldown (after threshold h) ≡ allows_since now cooldown (open_since threshold h)
unfolding allows
allows-after threshold cooldown now h le =
    ap (allows_since now cooldown) (after-opened threshold h le)

-- The calls of the breaker, in the order in which they take its lock: a request asks whether it may be
-- dispatched, or a dispatch reports its outcome.
pub data Call : Type 0 where
  asks : Instant → Call
  reports : Outcome → Call

module _ (threshold : ℕ) (cooldown : Duration) where
  abbrev pub reported : Outcome → Breaker → Breaker
  reported success b = record_success b
  reported (failure now) b = record_failure now threshold b

  -- The answers that the requests are given.
  unfoldable pub answers : Breaker → List Call → List Bool
  answers b [] = []
  answers b (asks now ∷ calls) = allows now cooldown b ∷ answers b calls
  answers b (reports o ∷ calls) = answers (reported o b) calls

  -- What is promised: each request is answered from the outcomes reported before it.
  abbrev pub promised : List Outcome → List Call → List Bool
  promised h [] = []
  promised h (asks now ∷ calls) =
      allows_since now cooldown (open_since threshold h) ∷ promised h calls
  promised h (reports o ∷ calls) = promised (o ∷ h) calls
