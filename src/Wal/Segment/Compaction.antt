-- ===== src/Wal/Segment/Compaction.antt =====
-- crates/osproxy-kafka-wal/src/segment.rs: compaction while records wait.
use opensearch_proxy.Prelude.{
  ℕ, ◌+◌, ◌-◌, ◌<◌, ◌≡◌, refl, sym, ap, ◌∙◌, true, false, none, some, List, [], ◌∷◌, ◌++◌, length,
  length-append, ◌==◌, nat_eq, arith, ltb, leb, ltb→lt, append_assoc, append-nil,
}
use opensearch_proxy.Prelude.Bytes.{Bytes, split_chunk, split_chunk-append, short-split_chunk}
use opensearch_proxy.Wal.Segment.{
  Wal, to_le_bytes, crc32, fits, from_offset, set_len, frame, write_at, read_frame, next, reclaimed,
  maybe_compact,
}
use opensearch_proxy.Wal.Segment.Queue.{Entry, AreFrames, frame_first, Holds}
use opensearch_proxy.Wal.Segment.Frames.{
  from_le-to_le, split-to_le, length-frame, from_offset-append, set_len_exact, length-set_len,
  length-to_le,
}

-- A file that is a frame, cut to the length of its body, holds no whole frame.
cut_header :
    (body rest : Bytes) (m : ℕ)
    → length body ≡ 8 + m
    → set_len (length body) (frame body ++ rest)
      ≡ to_le_bytes 4 (length body) ++ (to_le_bytes 4 (crc32 body) ++ set_len m (body ++ rest))
cut_header body rest m size =
    let whole : length body ≡ 4 + (4 + m) = omega (arith, size) in
    ap (λ n. set_len n (frame body ++ rest)) whole
    ∙ (ap (set_len (4 + (4 + m))) (
          append_assoc (to_le_bytes 4 (length body)) (to_le_bytes 4 (crc32 body) ++ body) rest
          ∙ ap (λ t. to_le_bytes 4 (length body) ++ t)
              (append_assoc (to_le_bytes 4 (crc32 body)) body rest))
        ∙ (set_len_exact 4 (to_le_bytes 4 (length body))
              (to_le_bytes 4 (crc32 body) ++ (body ++ rest)) (4 + m) (length-to_le 4 (length body))
            ∙ ap (λ t. to_le_bytes 4 (length body) ++ t)
                (set_len_exact 4 (to_le_bytes 4 (crc32 body)) (body ++ rest) m
                  (length-to_le 4 (crc32 body)))))

cut_frame :
    (w : Wal) (body rest : Bytes) (m : ℕ)
    → length body ≡ 8 + m
    → fits 32 (length body) ≡ true
    → w.log ≡ set_len (length body) (frame body ++ rest)
    → read_frame 0 w ≡ none
unfolding read_frame from_offset
cut_frame w body rest m size short cut =
    let text = cut ∙ cut_header body rest m size in
    let less : length (set_len m (body ++ rest)) < length body =
      omega (arith, length-set_len m (body ++ rest), size) in
    rw
      (
        text,
        split-to_le 4 (length body) (to_le_bytes 4 (crc32 body) ++ set_len m (body ++ rest)),
        split-to_le 4 (crc32 body) (set_len m (body ++ rest)),
        from_le-to_le 4 (length body) (ltb→lt _ _ short),
        short-split_chunk (length body) (set_len m (body ++ rest)) less,
      )
      refl

pub live_frame :
    (e : Entry) (es : List Entry) (live : Bytes)
    → AreFrames (e ∷ es) live
    → (m : ℕ) × (length live ≡ 8 + m)
live_frame e es _ (frame_first {body = body} {s = s} _ _ _ _) =
    (length body + length s, omega (arith, length-append (frame body) s, length-frame body))

module _ (w : Wal) (before live : Bytes) where
  -- The log after the live bytes were written to the front, as a frame of their own.
  abbrev rewritten : Bytes
  rewritten = frame live ++ from_offset (0 + length (frame live)) w.log

  compacted :
      w.log ≡ before ++ live
      → length before ≡ w.read_offset
      → w.write_offset ≡ length w.log
      → (w.read_offset == 0) ≡ false
      → leb w.compact_threshold w.read_offset ≡ true
      → fits 32 (length live) ≡ true
      → (length live == 0) ≡ false
      → maybe_compact w ≡ reclaimed (length live) (record w { log = rewritten })
  unfolding maybe_compact write_at set_len
  compacted layout reads writes started past short some_live =
      let size : w.write_offset - w.read_offset ≡ length live =
        omega (arith, length-append before live, ap length layout, reads, writes) in
      let behind : leb w.write_offset w.read_offset ≡ false =
        ground (arith, length-append before live, ap length layout, reads, writes, some_live) in
      let enough : ltb w.read_offset w.compact_threshold ≡ false = ground arith in
      let tail : from_offset w.read_offset w.log ≡ live =
        ap (λ n. from_offset n w.log) (sym reads)
        ∙ (ap (from_offset (length before)) layout ∙ from_offset-append before live) in
      let whole : split_chunk (length live) live ≡ some (live, []) =
        ap (split_chunk (length live)) (sym (append-nil live)) ∙ split_chunk-append live [] in
      rw (started, behind, enough, size, some_live, tail, whole, short) refl

-- Records are lost by a compaction while they wait: if the log holds entries, records before them are
-- acknowledged and reach the threshold, and the live bytes fit into a frame, the compacted log gives no
-- record, and the drainer then forgets all its bytes. The live bytes are framed a second time.
pub compaction_loses_entries :
    (w : Wal) (e : Entry) (es : List Entry)
    → Holds w (e ∷ es)
    → (w.read_offset == 0) ≡ false
    → leb w.compact_threshold w.read_offset ≡ true
    → fits 32 (w.write_offset - w.read_offset) ≡ true
    → ((next (maybe_compact w)).1 ≡ none) × ((next (maybe_compact w)).0.write_offset ≡ 0)
unfolding next
compaction_loses_entries w e es h started past short =
    let size : w.write_offset - w.read_offset ≡ length h.live =
      omega (arith, length-append h.before h.live, ap length h.layout, h.reads, h.writes) in
    let (m, long) = live_frame e es h.live h.frames in
    let waiting : (length h.live == 0) ≡ false = ground (arith, long) in
    let same =
      compacted w h.before h.live h.layout h.reads h.writes started past
        (sym (ap (fits 32) size) ∙ short) waiting in
    let behind : leb (length h.live) 0 ≡ false = ground (arith, long) in
    let lost =
      cut_frame (reclaimed (length h.live) (record w { log = rewritten w h.before h.live })) h.live
        (from_offset (0 + length (frame h.live)) w.log) m long (sym (ap (fits 32) size) ∙ short)
        refl in
    rw (same, behind, lost) (refl, refl)
