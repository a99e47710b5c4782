-- ===== src/Transport/Admission/Interleaving.antt =====
-- crates/osproxy-transport/src/admission.rs: any number of threads that reserve and release.
use opensearch_proxy.Prelude.{
  ℕ, ◌+◌, ◌-◌, ◌≤◌, ◌<◌, ◌≡◌, ap, Bool, List, [], ◌∷◌, ◌++◌, arith, nat_eq,
}
use opensearch_proxy.Transport.Admission.{usize_mod, Round, shed, reserved, again, round, release}

-- Where a thread stands: outside, in the loop with the value it last saw and its amount, or holding a
-- reservation.
pub data Thread : Type 0 where
  idle : Thread
  trying : ℕ → ℕ → Thread
  holding : ℕ → Thread

pub record State : Type 0 where
  pub inflight : ℕ
  pub threads : List Thread

-- What a round does to the counter and to its thread.
abbrev landed : Round → ℕ → ℕ → ℕ × Thread
landed shed inflight amount = (inflight, idle)
landed (reserved next) inflight amount = (next, holding amount)
landed (again seen) inflight amount = (inflight, trying seen amount)

-- One access of the shared counter by one of the threads.
pub data Step (ceiling : ℕ) (s : State) (u : State) : Type 0 where
  load :
      (before later : List Thread) (amount : ℕ)
      → s.threads ≡ before ++ (idle ∷ later)
      → u ≡ record { inflight = s.inflight; threads = before ++ (trying s.inflight amount ∷ later) }
      → Step ceiling s u
  exchange :
      (before later : List Thread) (current amount : ℕ) (spurious : Bool)
      → s.threads ≡ before ++ (trying current amount ∷ later)
      → u ≡ record {
        inflight = (landed (round ceiling s.inflight current amount spurious) s.inflight amount).0;
        threads =
            before
            ++ ((landed (round ceiling s.inflight current amount spurious) s.inflight amount).1
                ∷ later);
      }
      → Step ceiling s u
  drop :
      (before later : List Thread) (amount : ℕ)
      → s.threads ≡ before ++ (holding amount ∷ later)
      → u ≡ record { inflight = release s.inflight amount; threads = before ++ (idle ∷ later) }
      → Step ceiling s u

pub data Reach (ceiling : ℕ) (s : State) : State → Type 0 where
  here : Reach ceiling s s
  next : {t u : State} → Reach ceiling s t → Step ceiling t u → Reach ceiling s u

abbrev pub held : Thread → ℕ
held idle = 0
held (trying _ _) = 0
held (holding amount) = amount

-- The bytes that all reservations hold.
abbrev total : List Thread → ℕ
total [] = 0
total (t ∷ ts) = held t + total ts

total-append : (before later : List Thread) → total (before ++ later) ≡ total before + total later
total-append [] later = omega arith
total-append (t ∷ ts) later = omega (arith, total-append ts later)

total-middle :
    (before later : List Thread) (t : Thread)
    → total (before ++ (t ∷ later)) ≡ total before + held t + total later
total-middle before later t = omega (arith, total-append before (t ∷ later))

pub record IsBounded (ceiling : ℕ) (s : State) : Type 0 where
  pub exact : s.inflight ≡ total s.threads
  pub below : s.inflight ≤ ceiling

round_effect :
    (ceiling inflight current amount : ℕ) (spurious : Bool)
    → inflight ≤ ceiling
    → let (after, thread) =
        landed (round ceiling inflight current amount spurious) inflight amount in
      (after ≡ inflight + held thread) × (after ≤ ceiling)
unfolding round
round_effect ceiling inflight current amount spurious le = ground arith

release_effect :
    (inflight amount : ℕ)
    → amount ≤ inflight
    → inflight < usize_mod
    → release inflight amount ≡ inflight - amount
unfolding release
release_effect inflight amount le lt = omega arith

-- What a step needs: the thread it moves, and the sums before and after.
replaced :
    {ceiling : ℕ} (s u : State) (before later : List Thread) (t t' : Thread) (inflight : ℕ)
    → s.threads ≡ before ++ (t ∷ later)
    → u ≡ record { inflight = inflight; threads = before ++ (t' ∷ later) }
    → IsBounded ceiling s
    → inflight + held t ≡ s.inflight + held t'
    → inflight ≤ ceiling
    → IsBounded ceiling u
replaced s u before later t t' inflight was now h moved fits = rw now (record {
  exact =
      omega
        (arith, h.exact, ap total was, total-middle before later t, total-middle before later t');
  below = fits;
})

held_le_inflight :
    {ceiling : ℕ} (s : State) (before later : List Thread) (t : Thread)
    → s.threads ≡ before ++ (t ∷ later)
    → IsBounded ceiling s
    → held t ≤ s.inflight
held_le_inflight s before later t was h =
    omega (arith, h.exact, ap total was, total-middle before later t)

Step-IsBounded :
    {ceiling : ℕ} (s u : State)
    → ceiling < usize_mod
    → Step ceiling s u
    → IsBounded ceiling s
    → IsBounded ceiling u
Step-IsBounded s u fits (load before later amount was now) h =
    replaced s u before later idle (trying s.inflight amount) s.inflight was now h (omega arith)
      h.below
Step-IsBounded {ceiling} s u fits (exchange before later current amount spurious was now) h =
    let (sum, below) = round_effect ceiling s.inflight current amount spurious h.below in
    replaced s u before later (trying current amount) _ _ was now h (omega arith) below
Step-IsBounded s u fits (drop before later amount was now) h =
    let le = held_le_inflight s before later (holding amount) was h in
    let freed = release_effect s.inflight amount le (omega (arith, h.below)) in
    replaced s u before later (holding amount) idle _ was now h (omega arith)
      (omega (arith, h.below))

-- Whatever the interleaving of loads, exchanges (spurious failures included) and drops: if the
-- counter is the sum of the reservations held and not above the ceiling at the start, it is so in
-- every state that is reached. The ceiling fits a `usize`.
pub Reach-IsBounded :
    {ceiling : ℕ} (s u : State)
    → ceiling < usize_mod
    → IsBounded ceiling s
    → Reach ceiling s u
    → IsBounded ceiling u
Reach-IsBounded s u fits h here = h
Reach-IsBounded s u fits h (next {t} r st) =
    Step-IsBounded t u fits st (Reach-IsBounded s t fits h r)
