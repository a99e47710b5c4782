-- ===== src/Engine/Retry/Attempts.antt =====
-- crates/osproxy-engine/src/retry.rs: how often a read is tried, and what is answered.
use opensearch_proxy.Prelude.{
  ℕ, zero, suc, ◌+◌, ◌≤◌, ◌<◌, ◌≡◌, refl, sym, ◌∙◌, Bool, true, false, ◌&&◌, Option, some, [], ◌∷◌,
  Result, ok, err, arith, ltb, ltb→lt, if◌then◌else◌, ◌==◌, nat_eq, All, inl, inr, ◌⊎◌, and-eq-true,
}
use opensearch_proxy.Spi.Failure.{SpiError, retryable}
use opensearch_proxy.Engine.Retry.{RetryPolicy, backoff, Run, slept, arms, retry_loop, with_retry}

eq_or_later : (a i : ℕ) → a ≤ i → (i ≡ a) ⊎ (a + 1 ≤ i)
eq_or_later a i h = ground arith

backoff-capped : (policy : RetryPolicy) (attempt : ℕ) → backoff policy attempt ≤ policy.max_backoff
unfolding backoff
backoff-capped policy attempt = omega arith

module _ {ℓ} {A : Type ℓ} (policy : RetryPolicy) (op : ℕ → Result A SpiError) where
  -- The answer of a call that is tried again, if an attempt is left.
  abbrev pub IsTransient : Result A SpiError → Type 0
  IsTransient (ok _) = ⊥
  IsTransient (err e) = retryable e ≡ true

  -- What a run from call number `start` shows: it made a last call, which stays within the attempts
  -- allowed, is the first one where no attempt is left for another, and is what is answered; each call before was transient; a transient answer is given
  -- only when no attempt is left; no sleep is longer than the cap.
  pub record Tried (start : ℕ) (run : Run A) : Type ℓ where
    pub last : ℕ
    pub counted : run.calls ≡ suc last
    pub first : start ≤ last
    pub within : (start < policy.max_attempts) → last < policy.max_attempts
    pub alone : (policy.max_attempts ≤ suc start) → last ≡ start
    pub answered : run.answer ≡ op last
    pub before : (i : ℕ) → start ≤ i → i < last → IsTransient (op i)
    pub final : IsTransient (op last) → policy.max_attempts ≤ suc last
    pub capped : All (λ pause. pause ≤ policy.max_backoff) run.sleeps

  stopped :
      (attempt : ℕ) (r : Result A SpiError)
      → op attempt ≡ r
      → (IsTransient r → policy.max_attempts ≤ suc attempt)
      → Tried attempt (record { answer = r; calls = suc attempt; sleeps = [] })
  stopped attempt r same end = record {
    last = attempt;
    counted = refl;
    first = omega arith;
    within = λ h. h;
    alone = λ _. refl;
    answered = sym same;
    before = λ i h k. (let no : ⊥ = omega (arith, h, k) in elim no [ ]);
    final = rw same end;
    capped = tt;
  }

  -- The run is the one from the next call, with at most one sleep before it.
  abbrev Resumes : ℕ → Run A → Run A → Type ℓ
  Resumes attempt later run =
      (run.answer ≡ later.answer)
      × (run.calls ≡ later.calls)
      × All (λ pause. pause ≤ policy.max_backoff) run.sleeps

  resumed :
      (attempt : ℕ) (e : SpiError) (later run : Run A)
      → op attempt ≡ err e
      → retryable e ≡ true
      → attempt + 1 < policy.max_attempts
      → Tried (attempt + 1) later
      → Resumes attempt later run
      → Tried attempt run
  resumed attempt e later run same again left t (answers, counts, caps) = record {
    last = t.last;
    counted = counts ∙ t.counted;
    first = omega (arith, t.first);
    within = λ _. t.within left;
    alone = λ none_left. omega (arith, left, none_left);
    answered = answers ∙ t.answered;
    before = λ i low high. (elim (eq_or_later attempt i low) [
      | inl e ↦ rw (e, same) again
      | inr more ↦ t.before i more high
    ]);
    final = t.final;
    capped = caps;
  }

  capped_sleep :
      (pause : ℕ) (b : Bool) (attempt : ℕ) (later : Run A)
      → pause ≤ policy.max_backoff
      → All (λ pause. pause ≤ policy.max_backoff) later.sleeps
      → Resumes attempt later (if b then later else record later { sleeps = pause ∷ later.sleeps })
  capped_sleep pause true attempt later fits caps = (refl, refl, caps)
  capped_sleep pause false attempt later fits caps = (refl, refl, (fits, caps))

  -- The loop ends with a run that shows how it was tried.
  Ends : ℕ → Option (Run A) → Type ℓ
  Ends attempt o = (run : Run A) × (o ≡ some run) × Tried attempt run

  after_error :
      (attempt : ℕ) (e : SpiError) (later : Option (Run A)) (b : Bool)
      → op attempt ≡ err e
      → (b ≡ true → (retryable e ≡ true) × (attempt + 1 < policy.max_attempts))
      → (b ≡ false → retryable e ≡ true → policy.max_attempts ≤ suc attempt)
      → (b ≡ true → Ends (attempt + 1) later)
      → Ends attempt (
          if b
          then slept policy op (backoff policy attempt) later
          else some (record { answer = err e; calls = suc attempt; sleeps = [] }))
  unfolding Ends
  after_error attempt e later true same passes stops more =
      let (run, found, tried) = more refl in
      rw found (
        _,
        refl,
        resumed attempt e run _ same (passes refl).0 (passes refl).1 tried (
            capped_sleep (backoff policy attempt) (backoff policy attempt == 0) attempt run
              (backoff-capped policy attempt) tried.capped),
      )
  after_error attempt e later false same passes stops more =
      (_, refl, stopped attempt (err e) same (stops refl))

  arms-Ends :
      (attempt : ℕ) (later : Option (Run A)) (r : Result A SpiError)
      → op attempt ≡ r
      → (attempt + 1 < policy.max_attempts → Ends (attempt + 1) later)
      → Ends attempt (arms policy op later attempt r)
  unfolding Ends
  arms-Ends attempt later (ok value) same more =
      (_, refl, stopped attempt (ok value) same (λ h. elim h [ ]))
  arms-Ends attempt later (err e) same more =
      after_error attempt e later (retryable e && ltb (attempt + 1) policy.max_attempts) same
        (λ h. both (and-eq-true _ _ h)) (λ h again. ended (retryable e) again h)
        (λ h. more (ltb→lt _ _ (and-eq-true _ _ h).1))
    where
      both :
          ((retryable e ≡ true) × (ltb (attempt + 1) policy.max_attempts ≡ true))
          → (retryable e ≡ true) × (attempt + 1 < policy.max_attempts)
      both (again, left) = (again, ltb→lt _ _ left)

      ended :
          (b : Bool)
          → b ≡ true
          → (b && ltb (attempt + 1) policy.max_attempts) ≡ false
          → policy.max_attempts ≤ suc attempt
      ended true again h = ground arith
      ended false again h = cc

  loop-Ends :
      (fuel attempt : ℕ)
      → 0 < fuel
      → policy.max_attempts ≤ attempt + fuel
      → Ends attempt (retry_loop policy op fuel attempt)
  unfolding retry_loop
  loop-Ends zero attempt some_fuel enough = elim some_fuel [ ]
  loop-Ends (suc fuel) attempt some_fuel enough =
      arms-Ends attempt (retry_loop policy op fuel (attempt + 1)) (op attempt) refl
        (λ left. loop-Ends fuel (attempt + 1) (omega (arith, left)) (omega (arith, left)))

  -- A read of the placement backend ends, whatever the backend answers: it makes calls 0 to `last`
  -- and no other, at most as many as the policy allows, and exactly one where it allows none or one; it answers
  -- what the last call answered; every call before failed with a retryable error; a retryable error
  -- is answered only when no attempt is left; and no sleep is longer than `max_backoff`.
  pub with_retry-Tried : (run : Run A) × (with_retry policy op ≡ some run) × Tried 0 run
  unfolding with_retry Ends
  with_retry-Tried = loop-Ends (suc policy.max_attempts) 0 (omega arith) (omega arith)
