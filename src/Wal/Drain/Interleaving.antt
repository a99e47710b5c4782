-- ===== src/Wal/Drain/Interleaving.antt =====
-- crates/osproxy-kafka-wal/src/lib.rs: runs of the durable producer, and what a restart delivers.
use opensearch_proxy.Prelude.{◌≡◌, Bool, true, false, List, [], ◌∷◌, ◌++◌, Result, if◌then◌else◌}
use opensearch_proxy.Prelude.Bytes.{Bytes}
use opensearch_proxy.Prelude.Utf8.{from_utf8}
use opensearch_proxy.Wal.Segment.{Wal}
use opensearch_proxy.Wal.Segment.Queue.{Entry}
use opensearch_proxy.Wal.Drain.{WalConfig, Drainer, spawn, produce, drain_step}
use opensearch_proxy.Wal.Drain.Room.{has_room}
use opensearch_proxy.Wal.Drain.Steps.{Queued, added, handed, SparesAt}

-- The calls of producers and the steps of the drainer, in the order in which they take the lock.
pub data Call : Type 0 where
  produces : Bytes → Bytes → Bytes → Call
  drains : Bool → Bool → Call

pub record Ran : Type 0 where
  pub last : Drainer
  pub accepted : List Entry
  pub delivered : List Entry

abbrev pub produced_by : (Drainer → Ran) → Drainer → Entry → Result (Unit {0}) Bytes × Wal → Ran
produced_by later d e (answer, w) =
    let ran = later (record d { wal = w }) in
    record ran { accepted = added e answer ++ ran.accepted }

module _ (cfg : WalConfig) where
  unfoldable pub run : List Call → Drainer → Ran
  run [] d = record { last = d; accepted = []; delivered = [] }
  run (produces topic key payload ∷ calls) d =
      produced_by (run calls) d (topic, (key, payload)) (produce topic key payload d.wal)
  run (drains sent due ∷ calls) d =
      let ran = run calls (drain_step cfg sent due d) in
      record ran { delivered = handed sent d.stage ++ ran.delivered }

  -- Topics are text, and no compaction of the run moves live bytes.
  abbrev pub AreSpared : List Call → Drainer → Type 0
  AreSpared [] d = Unit
  AreSpared (produces topic key payload ∷ calls) d =
      (from_utf8 topic ≡ true)
      × AreSpared calls (record d { wal = (produce topic key payload d.wal).1 })
  AreSpared (drains sent due ∷ calls) d =
      SparesAt due d.stage d.wal × AreSpared calls (drain_step cfg sent due d)

  abbrev Flows : List Entry → Ran → Type 0
  Flows es ran =
      (left : List Entry) × ((es ++ ran.accepted) ≡ (ran.delivered ++ left))
      × Queued ran.last.stage ran.last.wal left

  -- The records that the producers hand over and that there is room for.
  abbrev pub roomy : List Call → Drainer → List Entry
  roomy [] d = []
  roomy (produces topic key payload ∷ calls) d =
      (if has_room d.wal (topic, (key, payload)) then (topic, (key, payload)) ∷ [] else [])
      ++ roomy calls (record d { wal = (produce topic key payload d.wal).1 })
  roomy (drains sent due ∷ calls) d = roomy calls (drain_step cfg sent due d)

  -- Three steps deliver a record: `next`, the broker, and the commit before the sync interval.
  abbrev pub cycles : List Entry → List Call
  cycles [] = []
  cycles (e ∷ es) = drains true false ∷ drains true false ∷ drains true false ∷ cycles es

  abbrev pub restarted : Wal → Drainer
  restarted w = spawn (record cfg { max_bytes = w.max_bytes }) w.log w.ckpt
