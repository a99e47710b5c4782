-- ===== src/Wal/Tests.antt =====
-- Runs of the write-ahead log of crates/osproxy-kafka-wal.
use mathlib.Core.Option
use opensearch_proxy.Prelude.{
  ℕ, ◌≡◌, refl, true, false, Option, none, some, List, [], ◌∷◌, ◌++◌, arith,
}
use opensearch_proxy.Prelude.Bytes.{Bytes, ascii, split_chunk}
use opensearch_proxy.Prelude.Utf8.{from_utf8}
use opensearch_proxy.Wal.Segment.{
  Wal, to_le_bytes, from_le_bytes, crc32, crc_bytes, crc_rounds, encode_body, frame, from_offset,
  set_len, write_at, open_log, append, next, commit, maybe_compact, read_frame, decode_body,
}
use opensearch_proxy.Wal.Segment.Queue.{Entry, Holds, frame_first, no_frame}
use opensearch_proxy.Wal.Segment.Compaction.{compaction_loses_entries}
use opensearch_proxy.Wal.Drain.{default_config, polling, Drainer, produce, drain_step}
use opensearch_proxy.Wal.Drain.Interleaving.{Call, produces, drains, run}

-- The check value of CRC-32.
crc_check : crc32 (ascii "123456789") ≡ 0xcbf4_3926
unfolding crc32 crc_bytes crc_rounds
crc_check = refl

-- A topic, a key and a payload of one byte each.
abbrev body_with : ℕ → Bytes
body_with payload = 1 ∷ 0 ∷ b't' ∷ 1 ∷ 0 ∷ 0 ∷ 0 ∷ b'k' ∷ payload ∷ []

abbrev entry_with : ℕ → Entry
entry_with payload = (ascii "t", (ascii "k", payload ∷ []))

-- Two entries were appended, and the first one is acknowledged.
abbrev one_waiting : Wal
one_waiting = record {
  log = frame (body_with b'v') ++ (frame (body_with b'w') ++ []);
  ckpt = some (to_le_bytes 8 17);
  write_offset = 34;
  read_offset = 17;
  compact_threshold = 16;
  max_bytes = 1000;
}

abbrev append_then : ℕ → Option Wal → Option Wal
append_then payload none = none
append_then payload (some w) = append (ascii "t") (ascii "k") (payload ∷ []) w

one_waiting_reached :
    Option.map (commit 17) (append_then b'w' (append_then b'v' (some (open_log [] none 1000 16))))
    ≡ some one_waiting
unfolding append write_at set_len from_offset encode_body to_le_bytes crc32 crc_bytes crc_rounds
    open_log commit
one_waiting_reached = refl

one_waiting-Holds : Holds one_waiting (entry_with b'w' ∷ [])
unfolding encode_body to_le_bytes from_utf8 crc32 crc_bytes crc_rounds split_chunk from_le_bytes
one_waiting-Holds = record {
  before = frame (body_with b'v');
  live = frame (body_with b'w') ++ [];
  frames = frame_first refl refl refl no_frame;
  layout = refl;
  reads = refl;
  writes = refl;
  marked = refl;
  limited = omega arith;
  small = omega arith;
}

compaction_loses_entries_example :
    ((next (maybe_compact one_waiting)).1 ≡ none)
    × ((next (maybe_compact one_waiting)).0.write_offset ≡ 0)
compaction_loses_entries_example =
    compaction_loses_entries one_waiting (entry_with b'w') [] one_waiting-Holds refl refl refl

abbrev waiting : Drainer
waiting = record { wal = one_waiting; backoff = 100_000_000; stage = polling }

-- A record is taken, another one is produced meanwhile, and the broker acknowledges the first.
abbrev some_calls : List Call
some_calls =
    drains true false ∷ produces (ascii "t") (ascii "k") (ascii "x") ∷ drains true false ∷ []

one_each :
    ((run default_config some_calls waiting).accepted ≡ entry_with b'x' ∷ [])
    × ((run default_config some_calls waiting).delivered ≡ entry_with b'w' ∷ [])
unfolding run drain_step produce append write_at set_len from_offset encode_body to_le_bytes crc32
    crc_bytes crc_rounds next read_frame decode_body from_le_bytes split_chunk from_utf8
one_each = (refl, refl)
