-- ===== src/Wal/Drain.antt =====
-- crates/osproxy-kafka-wal/src/lib.rs: producing into the log and draining it, one critical section at a
-- time. `sync` has no effect on the bytes of the files.
pub mod Steps
pub mod Room
pub mod Interleaving
use opensearch_proxy.Prelude.{ℕ, ◌*◌, min, Bool, Option, none, some, if◌then◌else◌, Result, ok, err}
use opensearch_proxy.Prelude.Bytes.{Bytes, ascii}
use opensearch_proxy.Wal.Segment.{Wal, Record, open_log, append, next, commit, maybe_compact}

-- Durations are nanoseconds.
pub record WalConfig : Type 0 where
  pub max_bytes : ℕ
  pub compact_threshold : ℕ
  pub base_backoff : ℕ
  pub max_backoff : ℕ
  pub sync_interval : ℕ

abbrev pub default_config : WalConfig
default_config = record {
  max_bytes = 256 * 1024 * 1024;
  compact_threshold = 8 * 1024 * 1024;
  base_backoff = 100_000_000;
  max_backoff = 5_000_000_000;
  sync_interval = 200_000_000;
}

-- `ProduceError`, by its reason.
abbrev pub full_error : Bytes
full_error = ascii "capture WAL full, record dropped"

-- What `produce` answers, and the log behind it: a refused append leaves the log as it was.
abbrev pub appended : Wal → Option Wal → Result (Unit {0}) Bytes × Wal
appended w none = (err full_error, w)
appended w (some new) = (ok tt, new)

unfoldable pub produce : Bytes → Bytes → Bytes → Wal → Result (Unit {0}) Bytes × Wal
produce topic key payload w = appended w (append topic key payload w)

-- Where the drainer stands between two of its critical sections: before `next`, before the compaction
-- of a log that it saw caught up, waiting for the broker, or before the commit of what the broker
-- acknowledged. Producers take the lock at each of these points.
pub data Stage : Type 0 where
  polling : Stage
  caught_up : Stage
  delivering : Record → Stage
  acked : Record → Stage

pub record Drainer : Type 0 where
  pub wal : Wal
  pub backoff : ℕ
  pub stage : Stage

-- `spawn`: the log is opened, and the drainer starts.
abbrev pub spawn : WalConfig → Bytes → Option Bytes → Drainer
spawn cfg log ckpt = record {
  wal = open_log log ckpt cfg.max_bytes cfg.compact_threshold;
  backoff = cfg.base_backoff;
  stage = polling;
}

abbrev pub polled : Drainer → Wal × Option Record → Drainer
polled d (w, none) = record d { wal = w; stage = caught_up }
polled d (w, some r) = record d { wal = w; stage = delivering r }

-- One step of `drain`: a critical section, or the answer of the broker. `sent` says whether the broker
-- acknowledges a record, `due` whether the sync interval has elapsed.
module _ (cfg : WalConfig) (sent due : Bool) where
  -- the answer of the broker: a refusal doubles the backoff
  abbrev pub answered : Record → Drainer → Drainer
  answered r d =
      if sent
      then record d { stage = acked r }
      else record d { backoff = min (d.backoff * 2) cfg.max_backoff; stage = polling }

  -- the critical section behind an acknowledgement
  abbrev pub committed : Record → Drainer → Drainer
  committed r d =
      let w = commit r.next d.wal in
      record d {
        wal = if due then maybe_compact w else w;
        backoff = cfg.base_backoff;
        stage = polling;
      }

  abbrev pub step_at : Stage → Drainer → Drainer
  step_at polling d = polled d (next d.wal)
  step_at caught_up d = record d { wal = maybe_compact d.wal; stage = polling }
  step_at (delivering r) d = answered r d
  step_at (acked r) d = committed r d

  unfoldable pub drain_step : Drainer → Drainer
  drain_step d = step_at d.stage d
