-- ===== src/Engine/Retry.antt =====
-- crates/osproxy-engine/src/retry.rs: bounded retry with backoff for the reads of the placement backend.
pub mod Attempts
use opensearch_proxy.Prelude.{
  ℕ, zero, suc, ◌+◌, ◌*◌, ◌^◌, Bool, true, false, ◌&&◌, Option, none, some, List, [], ◌∷◌, Result,
  ok, err, ltb, if◌then◌else◌, ◌==◌, nat_eq, min,
}
use opensearch_proxy.Core.Time.{Duration}
use opensearch_proxy.Spi.Failure.{SpiError, retryable}

pub record RetryPolicy : Type 0 where
  pub max_attempts : ℕ
  pub base_backoff : Duration
  pub max_backoff : Duration

-- three attempts, from 50 ms to at most a second; a `Duration` is in nanoseconds
abbrev pub default_policy : RetryPolicy
default_policy = record { max_attempts = 3; base_backoff = 50_000_000; max_backoff = 1_000_000_000 }

abbrev u32_max : ℕ
u32_max = 4_294_967_295

-- The largest `Duration`: `u64::MAX` seconds and 999,999,999 nanoseconds.
abbrev duration_max : ℕ
duration_max = 18_446_744_073_709_551_615_999_999_999

-- `1u32.checked_shl(attempt).unwrap_or(u32::MAX)`
abbrev factor : ℕ → ℕ
factor attempt = if ltb attempt 32 then 2 ^ attempt else u32_max

unfoldable pub backoff : RetryPolicy → ℕ → Duration
backoff policy attempt =
    min (min (policy.base_backoff * factor attempt) duration_max) policy.max_backoff

-- What a run of `with_retry` leaves: its answer, how often it called `op`, and its sleeps in order.
pub record Run {ℓ} (A : Type ℓ) : Type ℓ where
  pub answer : Result A SpiError
  pub calls : ℕ
  pub sleeps : List Duration

module _ {ℓ} {A : Type ℓ} (policy : RetryPolicy) (op : ℕ → Result A SpiError) where
  -- `if !backoff.is_zero() { sleep(backoff) }`, before the rest of the run
  abbrev pub slept : Duration → Option (Run A) → Option (Run A)
  slept pause none = none
  slept pause (some run) =
      some (if pause == 0 then run else record run { sleeps = pause ∷ run.sleeps })

  -- the arms of the `match` on what call number `attempt` answered
  abbrev pub arms : Option (Run A) → ℕ → Result A SpiError → Option (Run A)
  arms later attempt (ok value) =
      some (record { answer = ok value; calls = suc attempt; sleeps = [] })
  arms later attempt (err e) =
      if retryable e && ltb (attempt + 1) policy.max_attempts
      then slept (backoff policy attempt) later
      else some (record { answer = err e; calls = suc attempt; sleeps = [] })

  -- `op n` is what call number `n` answers. The loop takes fuel: the attempts allowed are enough.
  unfoldable pub retry_loop : ℕ → ℕ → Option (Run A)
  retry_loop zero attempt = none
  retry_loop (suc fuel) attempt =
      let later = retry_loop fuel (attempt + 1) in arms later attempt (op attempt)

  unfoldable pub with_retry : Option (Run A)
  unfolding retry_loop
  with_retry = retry_loop (suc policy.max_attempts) 0
