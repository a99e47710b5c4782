-- ===== src/Wal/Segment.antt =====
-- crates/osproxy-kafka-wal/src/segment.rs: the log of framed records and its checkpoint. The two files
-- are the lists of their bytes, and the operating system reads and writes them without an error.
pub mod Frames
pub mod Queue
pub mod Compaction
use opensearch_proxy.Prelude.{
  ℕ, zero, suc, ◌+◌, ◌-◌, ◌*◌, ◌/◌, ◌%◌, ◌^◌, min, Bool, true, false, not, ◌&&◌, ◌||◌, Option, none,
  some, List, [], ◌∷◌, ◌++◌, length, ◌==◌, nat_eq, if◌then◌else◌, ltb, leb, Result, ok, err,
}
use Prim.Native.Nat.{bit_and, bit_xor}
use opensearch_proxy.Prelude.Bytes.{Bytes, split_chunk}
use opensearch_proxy.Prelude.Utf8.{from_utf8}

pub record Record : Type 0 where
  pub topic : Bytes
  pub key : Bytes
  pub payload : Bytes
  pub next : ℕ

-- `ckpt` is the file of the checkpoint, if there is one.
pub record Wal : Type 0 where
  pub log : Bytes
  pub ckpt : Option Bytes
  pub write_offset : ℕ
  pub read_offset : ℕ
  pub compact_threshold : ℕ
  pub max_bytes : ℕ

-- `to_le_bytes` of a number of `n` bytes, and `from_le_bytes`.
unfoldable pub to_le_bytes : ℕ → ℕ → Bytes
to_le_bytes zero v = []
to_le_bytes (suc n) v = v % 256 ∷ to_le_bytes n (v / 256)

unfoldable pub from_le_bytes : Bytes → ℕ
from_le_bytes [] = 0
from_le_bytes (b ∷ s) = b + 256 * from_le_bytes s

abbrev pub u32_max : ℕ
u32_max = 2 ^ 32 - 1

-- `crc32`: the eight rounds of a byte, the bytes, and the complement of 32 bits.
abbrev pub crc_round : ℕ → ℕ
crc_round crc =
    let mask = if bit_and crc 1 == 0 then 0 else u32_max in
    bit_xor (crc / 2) (bit_and 0xedb8_8320 mask)

unfoldable pub crc_rounds : ℕ → ℕ → ℕ
crc_rounds zero crc = crc
crc_rounds (suc n) crc = crc_rounds n (crc_round crc)

unfoldable pub crc_bytes : ℕ → Bytes → ℕ
crc_bytes crc [] = crc
crc_bytes crc (byte ∷ bytes) = crc_bytes (crc_rounds 8 (bit_xor crc byte)) bytes

unfoldable pub crc32 : Bytes → ℕ
crc32 bytes = u32_max - crc_bytes u32_max bytes

-- `try_from` of a length into a number of `n` bits
abbrev pub fits : ℕ → ℕ → Bool
fits bits v = ltb v (2 ^ bits)

unfoldable pub encode_body : Bytes → Bytes → Bytes → Option Bytes
encode_body topic key payload =
    if not (fits 16 (length topic))
    then none
    else if not (fits 32 (length key))
    then none
    else some (
        to_le_bytes 2 (length topic) ++ (topic ++ (to_le_bytes 4 (length key) ++ (key ++ payload))))

abbrev pub chunk_then {ℓ} :
    {A : Type ℓ} → Option (Bytes × Bytes) → (Bytes → Bytes → Option A) → Option A
chunk_then none f = none
chunk_then (some (chunk, rest)) f = f chunk rest

unfoldable pub decode_body : Bytes → Option (Bytes × (Bytes × Bytes))
decode_body body = chunk_then (split_chunk 2 body) λ topic_len rest.
    chunk_then (split_chunk (from_le_bytes topic_len) rest) λ topic rest.
      if not (from_utf8 topic)
      then none
      else chunk_then (split_chunk 4 rest) λ key_len rest.
        chunk_then (split_chunk (from_le_bytes key_len) rest)
          λ key payload. some (topic, (key, payload))

-- A file from an offset, up to one, and with data written at one: a gap behind the end reads as zeros.
unfoldable pub from_offset : ℕ → Bytes → Bytes
from_offset zero file = file
from_offset (suc n) [] = []
from_offset (suc n) (c ∷ file) = from_offset n file

unfoldable pub set_len : ℕ → Bytes → Bytes
set_len zero file = []
set_len (suc n) [] = 0 ∷ set_len n []
set_len (suc n) (c ∷ file) = c ∷ set_len n file

abbrev pub overwritten : ℕ → Bytes → Bytes → Bytes
overwritten at new file = set_len at file ++ (new ++ from_offset (at + length new) file)

abbrev pub frame : Bytes → Bytes
frame body = to_le_bytes 4 (length body) ++ (to_le_bytes 4 (crc32 body) ++ body)

unfoldable pub write_at : ℕ → Bytes → Wal → Option Wal
write_at at body w =
    if not (fits 32 (length body))
    then none
    else some (record w { log = overwritten at (frame body) w.log })

abbrev pub framed : ℕ → ℕ → Option (Bytes × (Bytes × Bytes)) → Option Record
framed at len none = none
framed at len (some (topic, (key, payload))) =
    some (record { topic = topic; key = key; payload = payload; next = at + (8 + len) })

unfoldable pub read_frame : ℕ → Wal → Option Record
read_frame at w = chunk_then (split_chunk 4 (from_offset at w.log)) λ len rest.
    chunk_then (split_chunk 4 rest) λ crc rest.
      chunk_then (split_chunk (from_le_bytes len) rest) λ body _.
        if not (crc32 body == from_le_bytes crc)
        then none
        else framed at (from_le_bytes len) (decode_body body)

-- `read_ckpt`
abbrev pub first_offset : Option (Bytes × Bytes) → ℕ
first_offset none = 0
first_offset (some (offset, _)) = from_le_bytes offset

abbrev pub read_ckpt : Option Bytes → ℕ
read_ckpt none = 0
read_ckpt (some bytes) = first_offset (split_chunk 8 bytes)

unfoldable pub open_log : Bytes → Option Bytes → ℕ → ℕ → Wal
open_log log ckpt max_bytes compact_threshold = record {
  log = log;
  ckpt = ckpt;
  write_offset = length log;
  read_offset = min (read_ckpt ckpt) (length log);
  compact_threshold = compact_threshold;
  max_bytes = max_bytes;
}

abbrev pub advanced : ℕ → Option Wal → Option Wal
advanced frame_len none = none
advanced frame_len (some w) = some (record w { write_offset = w.write_offset + frame_len })

abbrev pub append_body : Wal → Option Bytes → Option Wal
append_body w none = none
append_body w (some body) =
    let frame_len = 8 + length body in
    if ltb w.max_bytes (min (w.write_offset + frame_len) (2 ^ 64 - 1))
    then none
    else advanced frame_len (write_at w.write_offset body w)

-- `none` is `Err(())`, which leaves the log as it was.
unfoldable pub append : Bytes → Bytes → Bytes → Wal → Option Wal
append topic key payload w = append_body w (encode_body topic key payload)

abbrev pub next_or_torn : Wal → Option Record → Wal × Option Record
next_or_torn w (some r) = (w, some r)
next_or_torn w none = (record w { write_offset = w.read_offset }, none)

unfoldable pub next : Wal → Wal × Option Record
next w =
    if leb w.write_offset w.read_offset
    then (w, none)
    else next_or_torn w (read_frame w.read_offset w)

unfoldable pub commit : ℕ → Wal → Wal
commit next w = record w { read_offset = next; ckpt = some (to_le_bytes 8 next) }

-- The end of `maybe_compact`: the file is cut to the live bytes, and both offsets start again.
abbrev pub reclaimed : ℕ → Wal → Wal
reclaimed live w = record w {
  log = set_len live w.log;
  write_offset = live;
  read_offset = 0;
  ckpt = some (to_le_bytes 8 0);
}

abbrev pub moved : ℕ → Wal → Option Wal → Wal
moved live w none = w
moved live w (some new) = reclaimed live new

abbrev pub move_tail : ℕ → Wal → Option (Bytes × Bytes) → Wal
move_tail live w none = w
move_tail live w (some (buf, _)) = moved live w (write_at 0 buf w)

-- The errors of `maybe_compact`, which its callers drop, leave the log as it was.
unfoldable pub maybe_compact : Wal → Wal
maybe_compact w =
    let caught_up = leb w.write_offset w.read_offset in
    let live = w.write_offset - w.read_offset in
    if (w.read_offset == 0) || (not caught_up && ltb w.read_offset w.compact_threshold)
    then w
    else if live == 0
    then reclaimed 0 w
    else move_tail live w (split_chunk live (from_offset w.read_offset w.log))
