-- ===== src/Wal/Segment/Frames.antt =====
-- crates/osproxy-kafka-wal/src/segment.rs: numbers, bodies and frames read back what was written.
use opensearch_proxy.Prelude.{
  ℕ, zero, suc, ◌+◌, ◌*◌, ◌/◌, ◌≤◌, ◌<◌, ◌≡◌, refl, sym, ap, ◌∙◌, true, Option, none, some, [], ◌∷◌,
  ◌++◌, length, length-append, nat_eq, eq_refl, arith, ltb→lt, append_assoc, append-nil, Bool-cases,
  inl, inr,
}
use opensearch_proxy.Prelude.Bytes.{Bytes, split_chunk, split_chunk-append}
use opensearch_proxy.Prelude.Utf8.{from_utf8}
use opensearch_proxy.Wal.Segment.{
  Wal, to_le_bytes, from_le_bytes, crc32, fits, encode_body, decode_body, from_offset, set_len,
  frame, overwritten, framed, read_frame,
}

-- What fits into a number of bytes.
abbrev pub bound : ℕ → ℕ
bound zero = 1
bound (suc n) = 256 * bound n

pub from_le-to_le : (n v : ℕ) → v < bound n → from_le_bytes (to_le_bytes n v) ≡ v
unfolding from_le_bytes to_le_bytes
from_le-to_le zero v lt = omega arith
from_le-to_le (suc n) v lt = omega (arith, from_le-to_le n (v / 256) (omega arith))

pub length-to_le : (n v : ℕ) → length (to_le_bytes n v) ≡ n
unfolding to_le_bytes
length-to_le zero v = refl
length-to_le (suc n) v = ap suc (length-to_le n (v / 256))

pub split_exact : (n : ℕ) (a b : Bytes) → length a ≡ n → split_chunk n (a ++ b) ≡ some (a, b)
split_exact n a b size = ap (λ m. split_chunk m (a ++ b)) (sym size) ∙ split_chunk-append a b

pub split-to_le :
    (n v : ℕ) (rest : Bytes)
    → split_chunk n (to_le_bytes n v ++ rest) ≡ some (to_le_bytes n v, rest)
split-to_le n v rest = split_exact n (to_le_bytes n v) rest (length-to_le n v)

pub crc32-bound : (body : Bytes) → crc32 body < bound 4
unfolding crc32
crc32-bound body = omega arith

pub length-frame : (body : Bytes) → length (frame body) ≡ 8 + length body
length-frame body = omega (
  arith,
  length-append (to_le_bytes 4 (length body)) (to_le_bytes 4 (crc32 body) ++ body),
  length-append (to_le_bytes 4 (crc32 body)) body,
  length-to_le 4 (length body),
  length-to_le 4 (crc32 body),
)

-- A text that is at hand, whatever follows.
pub from_offset-append : (a b : Bytes) → from_offset (length a) (a ++ b) ≡ b
unfolding from_offset
from_offset-append [] b = refl
from_offset-append (c ∷ a) b = from_offset-append a b

pub set_len-append : (a b : Bytes) (m : ℕ) → set_len (length a + m) (a ++ b) ≡ a ++ set_len m b
unfolding set_len
set_len-append [] b m = ap (λ n. set_len n b) (omega arith)
set_len-append (c ∷ a) b m =
    ap (λ n. set_len n (c ∷ (a ++ b)))
      (let step : suc (length a) + m ≡ suc (length a + m) = omega arith in step)
    ∙ ap (λ t. c ∷ t) (set_len-append a b m)

pub set_len_exact :
    (n : ℕ) (a b : Bytes) (m : ℕ) → length a ≡ n → set_len (n + m) (a ++ b) ≡ a ++ set_len m b
set_len_exact n a b m size = ap (λ k. set_len (k + m) (a ++ b)) (sym size) ∙ set_len-append a b m

pub length-set_len : (n : ℕ) (s : Bytes) → length (set_len n s) ≡ n
unfolding set_len
length-set_len zero s = refl
length-set_len (suc n) [] = ap suc (length-set_len n [])
length-set_len (suc n) (c ∷ s) = ap suc (length-set_len n s)

pub set_len-whole : (s : Bytes) → set_len (length s) s ≡ s
unfolding set_len
set_len-whole [] = refl
set_len-whole (c ∷ s) = ap (λ t. c ∷ t) (set_len-whole s)

pub from_offset-past : (n : ℕ) (s : Bytes) → length s ≤ n → from_offset n s ≡ []
unfolding from_offset
from_offset-past zero [] le = refl
from_offset-past zero (c ∷ s) le = absurd (omega arith)
from_offset-past (suc n) [] le = refl
from_offset-past (suc n) (c ∷ s) le = from_offset-past n s (omega arith)

-- Writing at the end adds to the file.
pub overwritten-end :
    (at : ℕ) (new file : Bytes) → at ≡ length file → overwritten at new file ≡ file ++ new
overwritten-end at new file end =
    rw
      (
        from_offset-past (at + length new) file (omega arith),
        ap (λ n. set_len n file) end,
        set_len-whole file,
        append-nil new,
      )
      refl

-- A body that is encoded is decoded to what it was made of.
pub decode-encode :
    (topic key payload body : Bytes)
    → from_utf8 topic ≡ true
    → encode_body topic key payload ≡ some body
    → decode_body body ≡ some (topic, (key, payload))
unfolding encode_body decode_body
decode-encode topic key payload body utf8 h = elim (Bool-cases (fits 16 (length topic))) [
  | inl short_topic ↦ elim (Bool-cases (fits 32 (length key))) [
    | inl short_key ↦
        let text : some (
              to_le_bytes 2 (length topic)
              ++ (topic ++ (to_le_bytes 4 (length key) ++ (key ++ payload))))
            ≡ some body =
          rw (short_topic, short_key) at h in
        let same : to_le_bytes 2 (length topic)
              ++ (topic ++ (to_le_bytes 4 (length key) ++ (key ++ payload)))
            ≡ body =
          cc in
        rw
          (
            sym same,
            split-to_le 2 (length topic)
                (topic ++ (to_le_bytes 4 (length key) ++ (key ++ payload))),
            from_le-to_le 2 (length topic) (ltb→lt _ _ short_topic),
            split_chunk-append topic (to_le_bytes 4 (length key) ++ (key ++ payload)),
            utf8,
            split-to_le 4 (length key) (key ++ payload),
            from_le-to_le 4 (length key) (ltb→lt _ _ short_key),
            split_chunk-append key payload,
          )
          refl
    | inr long ↦
        let wrong : ◌≡◌ {A = Option Bytes} none (some body) = rw (short_topic, long) at h in cc
  ]
  | inr long ↦ let wrong : ◌≡◌ {A = Option Bytes} none (some body) = rw long at h in cc
]

-- A frame at an offset is read as its body.
pub read_frame-frame :
    (at : ℕ) (w : Wal) (body rest : Bytes)
    → fits 32 (length body) ≡ true
    → from_offset at w.log ≡ frame body ++ rest
    → read_frame at w ≡ framed at (length body) (decode_body body)
unfolding read_frame
read_frame-frame at w body rest short here =
    rw
      (
        here,
        append_assoc (to_le_bytes 4 (length body)) (to_le_bytes 4 (crc32 body) ++ body) rest,
        split-to_le 4 (length body) ((to_le_bytes 4 (crc32 body) ++ body) ++ rest),
        append_assoc (to_le_bytes 4 (crc32 body)) body rest,
        split-to_le 4 (crc32 body) (body ++ rest),
        from_le-to_le 4 (length body) (ltb→lt _ _ short),
        from_le-to_le 4 (crc32 body) (crc32-bound body),
        split_chunk-append body rest,
        eq_refl (crc32 body),
      )
      refl
