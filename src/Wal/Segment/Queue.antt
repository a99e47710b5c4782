-- ===== src/Wal/Segment/Queue.antt =====
-- crates/osproxy-kafka-wal/src/segment.rs: the log is a queue of records.
use opensearch_proxy.Prelude.{
  ℕ, ◌+◌, ◌-◌, ◌^◌, ◌≤◌, ◌<◌, min, ◌≡◌, refl, sym, ap, subst, ◌∙◌, Bool, true, false, Option, none,
  some, List, [], ◌∷◌, ◌++◌, length, length-append, nat_eq, arith, ltb, leb, append_assoc,
  append-nil, inl, inr, Option-cases,
}
use opensearch_proxy.Prelude.Bytes.{Bytes, split_chunk}
use opensearch_proxy.Prelude.Utf8.{from_utf8}
use opensearch_proxy.Wal.Segment.{
  Wal, Record, to_le_bytes, fits, encode_body, from_offset, frame, write_at, read_ckpt, open_log,
  append_body, append, next, commit,
}
use opensearch_proxy.Wal.Segment.Frames.{
  from_le-to_le, split-to_le, length-frame, from_offset-append, overwritten-end, decode-encode,
  read_frame-frame,
}

-- What is handed to the log: a topic, a key and a payload.
abbrev pub Entry : Type 0
Entry = Bytes × (Bytes × Bytes)

abbrev pub entry_of : Record → Entry
entry_of r = (r.topic, (r.key, r.payload))

-- The frames of entries, one behind the other.
pub data AreFrames : List Entry → Bytes → Type 0 where
  no_frame : AreFrames [] []
  frame_first :
      {topic key payload body : Bytes} {es : List Entry} {s : Bytes}
      → from_utf8 topic ≡ true
      → encode_body topic key payload ≡ some body
      → fits 32 (length body) ≡ true
      → AreFrames es s
      → AreFrames ((topic, (key, payload)) ∷ es) (frame body ++ s)

pub last_frame :
    (topic key payload body : Bytes) (es : List Entry) (s : Bytes)
    → from_utf8 topic ≡ true
    → encode_body topic key payload ≡ some body
    → fits 32 (length body) ≡ true
    → AreFrames es s
    → AreFrames (es ++ ((topic, (key, payload)) ∷ [])) (s ++ frame body)
last_frame topic key payload body es s utf8 text short no_frame =
    subst (AreFrames _) (append-nil (frame body)) (frame_first utf8 text short no_frame)
last_frame topic key payload body _ _ utf8 text short
      (frame_first {body = b} {es = es} {s = s} u t f later) =
    subst (AreFrames _) (sym (append_assoc (frame b) s (frame body)))
      (frame_first u t f (last_frame topic key payload body es s utf8 text short later))

-- The log holds entries: the bytes from the read offset to the end of the file are their frames.
pub record Holds (w : Wal) (es : List Entry) : Type 0 where
  pub before : Bytes
  pub live : Bytes
  pub frames : AreFrames es live
  pub layout : w.log ≡ before ++ live
  pub reads : length before ≡ w.read_offset
  pub writes : w.write_offset ≡ length w.log
  pub marked : read_ckpt w.ckpt ≡ w.read_offset
  pub limited : length w.log ≤ w.max_bytes
  pub small : w.max_bytes < 2 ^ 64 - 1

-- The record at the read offset, and what is left once it is acknowledged.
module _ (w : Wal) (before s topic key payload body : Bytes) where
  abbrev first_record : Record
  first_record = record {
    topic = topic;
    key = key;
    payload = payload;
    next = w.read_offset + (8 + length body);
  }

  next-first :
      from_utf8 topic ≡ true
      → encode_body topic key payload ≡ some body
      → fits 32 (length body) ≡ true
      → w.log ≡ before ++ (frame body ++ s)
      → length before ≡ w.read_offset
      → w.write_offset ≡ length w.log
      → next w ≡ (w, some first_record)
  unfolding next
  next-first utf8 text short layout reads writes =
      let behind : leb w.write_offset w.read_offset ≡ false = ground (
        arith,
        length-append before (frame body ++ s),
        length-append (frame body) s,
        length-frame body,
        ap length layout,
      ) in
      let here : from_offset w.read_offset w.log ≡ frame body ++ s =
        ap (λ n. from_offset n w.log) (sym reads)
        ∙ (ap (from_offset (length before)) layout ∙ from_offset-append before (frame body ++ s)) in
      rw
        (
          behind,
          read_frame-frame w.read_offset w body s short here,
          decode-encode topic key payload body utf8 text,
        )
        refl

read_ckpt-commit : (n : ℕ) → n < 2 ^ 64 - 1 → read_ckpt (some (to_le_bytes 8 n)) ≡ n
read_ckpt-commit n lt =
    let split : split_chunk 8 (to_le_bytes 8 n) ≡ some (to_le_bytes 8 n, []) =
      ap (split_chunk 8) (sym (append-nil (to_le_bytes 8 n))) ∙ split-to_le 8 n [] in
    rw split (from_le-to_le 8 n (omega arith))

record_end :
    (w : Wal) (before s body : Bytes)
    → w.log ≡ before ++ (frame body ++ s)
    → length before ≡ w.read_offset
    → w.read_offset + (8 + length body) ≤ length w.log
record_end w before s body layout reads = omega (
  arith,
  length-append before (frame body ++ s),
  length-append (frame body) s,
  length-frame body,
  ap length layout,
  reads,
)

-- What a round reads: nothing from an empty queue, and from another one its first entry, whose
-- acknowledgement leaves the others.
abbrev pub Reads : Wal → List Entry → Type 0
Reads w [] = next w ≡ (w, none)
Reads w (e ∷ es) =
    (r : Record) × (next w ≡ (w, some r)) × (entry_of r ≡ e) × Holds (commit r.next w) es

front_of_live :
    (w : Wal) (es : List Entry) (before live : Bytes)
    → AreFrames es live
    → w.log ≡ before ++ live
    → length before ≡ w.read_offset
    → w.write_offset ≡ length w.log
    → length w.log ≤ w.max_bytes
    → w.max_bytes < 2 ^ 64 - 1
    → Reads w es
unfolding next commit
front_of_live w es before live no_frame layout reads writes limited small =
    let caught_up : leb w.write_offset w.read_offset ≡ true =
      ground (arith, length-append before [], ap length layout) in
    rw caught_up refl
front_of_live w _ before live
      (frame_first {topic} {key} {payload} {body} {es} {s} utf8 text short later) layout reads
      writes limited small =
    let end = record_end w before s body layout reads in
    (
      first_record w before s topic key payload body,
      next-first w before s topic key payload body utf8 text short layout reads writes,
      refl,
      record {
        before = before ++ frame body;
        live = s;
        frames = later;
        layout = layout ∙ sym (append_assoc before (frame body) s);
        reads = omega (arith, length-append before (frame body), length-frame body, reads);
        writes = writes;
        marked = read_ckpt-commit (w.read_offset + (8 + length body)) (omega arith);
        limited = limited;
        small = small;
      },
    )

pub Holds-Reads : (w : Wal) (es : List Entry) → Holds w es → Reads w es
Holds-Reads w es h =
    front_of_live w es h.before h.live h.frames h.layout h.reads h.writes h.limited h.small

-- What appending leaves: a refusal leaves the log to its caller.
abbrev pub Keeps : Option Wal → List Entry → Type 0
Keeps none es = Unit
Keeps (some w) es = Holds w es

appended-Keeps :
    (w : Wal) (es : List Entry) (topic key payload body : Bytes)
    → Holds w es
    → from_utf8 topic ≡ true
    → encode_body topic key payload ≡ some body
    → (full short : Bool)
    → ltb w.max_bytes (min (w.write_offset + (8 + length body)) (2 ^ 64 - 1)) ≡ full
    → fits 32 (length body) ≡ short
    → Keeps (append_body w (some body)) (es ++ ((topic, (key, payload)) ∷ []))
unfolding write_at
appended-Keeps w es topic key payload body h utf8 text true short is_full is_short = rw is_full tt
appended-Keeps w es topic key payload body h utf8 text false false is_full is_short =
    rw (is_full, is_short) tt
appended-Keeps w es topic key payload body h utf8 text false true is_full is_short =
    let grown = overwritten-end w.write_offset (frame body) w.log h.writes in
    let size : length (w.log ++ frame body) ≡ length w.log + (8 + length body) =
      omega (arith, length-append w.log (frame body), length-frame body) in
    rw (is_full, is_short, grown)
      (record {
        before = h.before;
        live = h.live ++ frame body;
        frames = last_frame topic key payload body es h.live utf8 text is_short h.frames;
        layout = ap (λ t. t ++ frame body) h.layout ∙ append_assoc h.before h.live (frame body);
        reads = h.reads;
        writes = omega (arith, size, h.writes);
        marked = h.marked;
        limited = ground (arith, h.small, h.writes);
        small = h.small;
      })

pub append-Keeps :
    (w : Wal) (es : List Entry) (topic key payload : Bytes)
    → Holds w es
    → from_utf8 topic ≡ true
    → Keeps (append topic key payload w) (es ++ ((topic, (key, payload)) ∷ []))
unfolding append
append-Keeps w es topic key payload h utf8 = elim (Option-cases (encode_body topic key payload)) [
  | inl refused ↦ rw refused tt
  | inr (body, text) ↦
      rw text (appended-Keeps w es topic key payload body h utf8 text _ _ refl refl)
]

pub restart-Holds :
    (w : Wal) (es : List Entry) (threshold : ℕ)
    → Holds w es
    → Holds (open_log w.log w.ckpt w.max_bytes threshold) es
unfolding open_log
restart-Holds w es threshold h =
    let resumed : min (read_ckpt w.ckpt) (length w.log) ≡ w.read_offset =
      omega (arith, h.marked, length-append h.before h.live, ap length h.layout, h.reads) in
    record {
      before = h.before;
      live = h.live;
      frames = h.frames;
      layout = h.layout;
      reads = h.reads ∙ sym resumed;
      writes = refl;
      marked = h.marked ∙ sym resumed;
      limited = h.limited;
      small = h.small;
    }
