-- ===== src/Wal/Drain/Room.antt =====
-- crates/osproxy-kafka-wal/src/lib.rs and segment.rs: which records a producer gets accepted.
use opensearch_proxy.Prelude.{
  ℕ, ◌+◌, ◌-◌, ◌^◌, min, ◌≡◌, refl, Bool, not, ◌&&◌, some, List, [], ◌∷◌, ◌++◌, length,
  length-append, ltb, if◌then◌else◌, arith, Bool-cases, inl, inr,
}
use opensearch_proxy.Prelude.Bytes.{Bytes}
use opensearch_proxy.Wal.Segment.{
  Wal, to_le_bytes, fits, encode_body, write_at, append_body, append,
}
use opensearch_proxy.Wal.Segment.Frames.{length-to_le}
use opensearch_proxy.Wal.Segment.Queue.{Entry}
use opensearch_proxy.Wal.Drain.{appended, produce}
use opensearch_proxy.Wal.Drain.Steps.{added}

-- The bytes of a record: the lengths of the topic and of the key, and the three texts.
abbrev pub body_len : Entry → ℕ
body_len (topic, (key, payload)) = 6 + (length topic + (length key + length payload))

-- The lengths fit into their numbers, and the frame into what the log may hold.
abbrev pub has_room : Wal → Entry → Bool
has_room w (topic, (key, payload)) =
    fits 16 (length topic)
    && (fits 32 (length key)
        && (fits 32 (body_len (topic, (key, payload)))
            && not (
                ltb w.max_bytes
                  (min (w.write_offset + (8 + body_len (topic, (key, payload)))) (2 ^ 64 - 1)))))

module _ (w : Wal) (topic key payload : Bytes) where
  abbrev entry : Entry
  entry = (topic, (key, payload))

  abbrev if_room : Bool → List Entry
  if_room b = if b then entry ∷ [] else []

  body_added :
      (body : Bytes)
      → length body ≡ body_len entry
      → added entry (appended w (append_body w (some body))).0
        ≡ if_room (
            fits 32 (body_len entry)
            && not (ltb w.max_bytes (min (w.write_offset + (8 + body_len entry)) (2 ^ 64 - 1))))
  unfolding write_at
  body_added body size = elim (Bool-cases (fits 32 (body_len entry))) [
    | inl short ↦
        elim (Bool-cases
          (ltb w.max_bytes (min (w.write_offset + (8 + body_len entry)) (2 ^ 64 - 1)))) [
            | inl full ↦ rw (size, short, full) refl
            | inr room ↦ rw (size, short, room) refl
          ]
    | inr long ↦
        elim (Bool-cases
          (ltb w.max_bytes (min (w.write_offset + (8 + body_len entry)) (2 ^ 64 - 1)))) [
            | inl full ↦ rw (size, long, full) refl
            | inr room ↦ rw (size, long, room) refl
          ]
  ]

  length-body :
      length (
        to_le_bytes 2 (length topic) ++ (topic ++ (to_le_bytes 4 (length key) ++ (key ++ payload))))
      ≡ body_len entry
  length-body = omega (
    arith,
    length-append (to_le_bytes 2 (length topic))
        (topic ++ (to_le_bytes 4 (length key) ++ (key ++ payload))),
    length-append topic (to_le_bytes 4 (length key) ++ (key ++ payload)),
    length-append (to_le_bytes 4 (length key)) (key ++ payload),
    length-append key payload,
    length-to_le 2 (length topic),
    length-to_le 4 (length key),
  )

  -- A producer gets its record accepted exactly when there is room for it.
  pub added-produce : added entry (produce topic key payload w).0 ≡ if_room (has_room w entry)
  unfolding produce append encode_body
  added-produce = elim (Bool-cases (fits 16 (length topic))) [
    | inr long ↦ rw long refl
    | inl short ↦ elim (Bool-cases (fits 32 (length key))) [
      | inr long ↦ rw (short, long) refl
      | inl small ↦ rw (short, small) (body_added _ length-body)
    ]
  ]
