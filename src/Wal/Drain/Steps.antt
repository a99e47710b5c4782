-- ===== src/Wal/Drain/Steps.antt =====
-- crates/osproxy-kafka-wal/src/lib.rs and segment.rs: the durable producer is a queue, for any
-- interleaving of producers with the critical sections of the drainer.
use opensearch_proxy.Prelude.{
  ℕ, ◌+◌, ◌-◌, ◌^◌, min, ◌≡◌, refl, sym, ap, subst, ◌⊎◌, inl, inr, Bool, true, false, Option, none,
  some, List, [], ◌∷◌, ◌++◌, append-nil, Result, ok, err, length, length-append, ◌==◌, nat_eq, leb,
  ltb, arith, Bool-cases,
}
use mathlib.Core.Option
use opensearch_proxy.Prelude.Bytes.{Bytes, split_chunk}
use opensearch_proxy.Prelude.Utf8.{from_utf8}
use opensearch_proxy.Wal.Segment.{
  Wal, to_le_bytes, from_le_bytes, fits, encode_body, set_len, write_at, append_body, append, next,
  commit, maybe_compact,
}
use opensearch_proxy.Wal.Segment.Queue.{
  Entry, entry_of, AreFrames, no_frame, Holds, Holds-Reads, Keeps, append-Keeps,
}
use opensearch_proxy.Wal.Segment.Compaction.{live_frame}
use opensearch_proxy.Wal.Drain.{
  WalConfig, Stage, polling, caught_up, delivering, acked, Drainer, appended, produce, polled,
  drain_step,
}

-- An empty queue is compacted to an empty file.
no_live : (live : Bytes) → AreFrames [] live → live ≡ []
no_live _ no_frame = refl

empty-Holds : (w : Wal) → Holds w [] → Holds (maybe_compact w) []
unfolding maybe_compact set_len to_le_bytes from_le_bytes split_chunk
empty-Holds w h =
    let drained : length w.log ≡ w.read_offset = omega (
      arith,
      length-append h.before h.live,
      ap length h.layout,
      ap length (no_live h.live h.frames),
      h.reads,
    ) in
    elim (Bool-cases (w.read_offset == 0)) [
      | inl fresh ↦ rw fresh h
      | inr used ↦
          let caught_up : leb w.write_offset w.read_offset ≡ true =
            ground (arith, h.writes, drained) in
          let nothing : w.write_offset - w.read_offset ≡ 0 = omega (arith, h.writes, drained) in
          rw (used, caught_up, nothing)
            (record {
              before = [];
              live = [];
              frames = no_frame;
              layout = refl;
              reads = refl;
              writes = refl;
              marked = refl;
              limited = omega arith;
              small = h.small;
            })
    ]

-- A compaction of this log moves no live bytes: none are left, or the threshold is not reached.
abbrev pub IsSpared : Wal → Type 0
IsSpared w =
    (leb w.write_offset w.read_offset ≡ true) ⊎ (ltb w.read_offset w.compact_threshold ≡ true)

live_behind :
    (w : Wal) (e : Entry) (es : List Entry)
    → Holds w (e ∷ es)
    → leb w.write_offset w.read_offset ≡ false
live_behind w e es h =
    let (m, long) = live_frame e es h.live h.frames in
    ground (arith, length-append h.before h.live, ap length h.layout, h.reads, h.writes, long)

spared-Holds : (w : Wal) (es : List Entry) → IsSpared w → Holds w es → Holds (maybe_compact w) es
unfolding maybe_compact
spared-Holds w [] spared h = empty-Holds w h
spared-Holds w (e ∷ es) (inl none_left) h = let behind = live_behind w e es h in cc
spared-Holds w (e ∷ es) (inr below) h =
    let behind = live_behind w e es h in
    elim (Bool-cases (w.read_offset == 0)) [
      | inl fresh ↦ rw fresh h
      | inr used ↦ rw (used, behind, below) h
    ]

-- Appending does not look at the read offset or the checkpoint.
append-commit :
    (topic key payload : Bytes) (n : ℕ) (w : Wal)
    → append topic key payload (commit n w) ≡ Option.map (commit n) (append topic key payload w)
unfolding append commit write_at
append-commit topic key payload n w = by_body (encode_body topic key payload)
  where
    by_body :
        (o : Option Bytes) → append_body (commit n w) o ≡ Option.map (commit n) (append_body w o)
    by_body none = refl
    by_body (some body) =
        elim (Bool-cases
          (ltb w.max_bytes (min (w.write_offset + (8 + length body)) (2 ^ 64 - 1)))) [
            | inl full ↦ rw full refl
            | inr room ↦ elim (Bool-cases (fits 32 (length body))) [
              | inl short ↦ rw (room, short) refl
              | inr long ↦ rw (room, long) refl
            ]
          ]

-- The queue: what is not delivered yet. A record that the broker has acknowledged stands before it in
-- the log until the commit.
abbrev pub Queued : Stage → Wal → List Entry → Type 0
Queued polling w es = Holds w es
Queued caught_up w es = Holds w es
Queued (delivering r) w es =
    (rest : List Entry) × (es ≡ entry_of r ∷ rest) × Holds w es × Holds (commit r.next w) rest
Queued (acked r) w es = Holds w (entry_of r ∷ es) × Holds (commit r.next w) es

-- What the log holds: the queue, and what is acknowledged and not committed.
abbrev pub uncommitted : Stage → List Entry → List Entry
uncommitted (acked r) es = entry_of r ∷ es
uncommitted _ es = es

module _ (e : Entry) where
  -- The queue behind an append, and what was added to it.
  abbrev pub added : Result (Unit {0}) Bytes → List Entry
  added (ok u) = e ∷ []
  added (err full) = []

  appended-Queued :
      (stage : Stage) (w : Wal) (o : Option Wal) (es : List Entry)
      → Queued stage w es
      → ((fs : List Entry) → Holds w fs → Keeps o (fs ++ (e ∷ [])))
      → ((n : ℕ) (fs : List Entry)
          → Holds (commit n w) fs
          → Keeps (Option.map (commit n) o) (fs ++ (e ∷ [])))
      → Queued stage (appended w o).1 (es ++ added (appended w o).0)
  appended-Queued stage w none es q here behind = subst (Queued stage w) (sym (append-nil es)) q
  appended-Queued polling w (some new) es q here behind = here es q
  appended-Queued caught_up w (some new) es q here behind = here es q
  appended-Queued (delivering r) w (some new) es (rest, first, q, later) here behind =
      (rest ++ (e ∷ []), ap (λ fs. fs ++ (e ∷ [])) first, here es q, behind r.next rest later)
  appended-Queued (acked r) w (some new) es (q, later) here behind =
      (here (entry_of r ∷ es) q, behind r.next es later)

pub produce-Queued :
    (stage : Stage) (w : Wal) (es : List Entry) (topic key payload : Bytes)
    → from_utf8 topic ≡ true
    → Queued stage w es
    → Queued stage
        (produce topic key payload w).1
        (es ++ added (topic, (key, payload)) (produce topic key payload w).0)
unfolding produce
produce-Queued stage w es topic key payload utf8 q =
    appended-Queued (topic, (key, payload)) stage w (append topic key payload w) es q
      (λ fs h. append-Keeps w fs topic key payload h utf8)
      (λ n fs h.
        subst (λ o. Keeps o (fs ++ ((topic, (key, payload)) ∷ [])))
          (append-commit topic key payload n w)
          (append-Keeps (commit n w) fs topic key payload h utf8))

-- What a step hands to the broker and sees acknowledged.
abbrev pub handed : Bool → Stage → List Entry
handed true (delivering r) = entry_of r ∷ []
handed _ _ = []

-- The compactions of a step, if it makes one.
abbrev pub SparesAt : Bool → Stage → Wal → Type 0
SparesAt due polling w = Unit
SparesAt due caught_up w = IsSpared w
SparesAt due (delivering r) w = Unit
SparesAt true (acked r) w = IsSpared (commit r.next w)
SparesAt false (acked r) w = Unit

-- A step takes what it hands over from the front of the queue.
abbrev pub Takes : List Entry → List Entry → Drainer → Type 0
Takes es out d = (left : List Entry) × (es ≡ out ++ left) × Queued d.stage d.wal left

polled-Takes :
    (wal : Wal) (backoff : ℕ) (es : List Entry)
    → Holds wal es
    → Takes es [] (polled (record { wal = wal; backoff = backoff; stage = polling }) (next wal))
polled-Takes wal backoff [] h = rw (Holds-Reads wal [] h) ([], refl, h)
polled-Takes wal backoff (e ∷ es) h =
    let (r, found, same, later) = Holds-Reads wal (e ∷ es) h in
    rw found (e ∷ es, refl, (es, ap (λ f. f ∷ es) (sym same), h, later))

step_at-Takes :
    (cfg : WalConfig) (sent due : Bool) (stage : Stage) (wal : Wal) (backoff : ℕ) (es : List Entry)
    → Queued stage wal es
    → SparesAt due stage wal
    → Takes es
        (handed sent stage)
        (drain_step cfg sent due (record { wal = wal; backoff = backoff; stage = stage }))
unfolding drain_step
step_at-Takes cfg true due polling wal backoff es q spared = polled-Takes wal backoff es q
step_at-Takes cfg false due polling wal backoff es q spared = polled-Takes wal backoff es q
step_at-Takes cfg true due caught_up wal backoff es q spared =
    (es, refl, spared-Holds wal es spared q)
step_at-Takes cfg false due caught_up wal backoff es q spared =
    (es, refl, spared-Holds wal es spared q)
step_at-Takes cfg true due (delivering r) wal backoff es (rest, first, q, later) spared =
    (rest, first, (subst (Holds wal) first q, later))
step_at-Takes cfg false due (delivering r) wal backoff es (rest, first, q, later) spared =
    (es, refl, q)
step_at-Takes cfg true true (acked r) wal backoff es (q, later) spared =
    (es, refl, spared-Holds (commit r.next wal) es spared later)
step_at-Takes cfg false true (acked r) wal backoff es (q, later) spared =
    (es, refl, spared-Holds (commit r.next wal) es spared later)
step_at-Takes cfg true false (acked r) wal backoff es (q, later) spared = (es, refl, later)
step_at-Takes cfg false false (acked r) wal backoff es (q, later) spared = (es, refl, later)

pub drain_step-Takes :
    (cfg : WalConfig) (sent due : Bool) (d : Drainer) (es : List Entry)
    → Queued d.stage d.wal es
    → SparesAt due d.stage d.wal
    → Takes es (handed sent d.stage) (drain_step cfg sent due d)
drain_step-Takes cfg sent due d es q spared =
    step_at-Takes cfg sent due d.stage d.wal d.backoff es q spared
