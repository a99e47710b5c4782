-- ===== src/Engine/Bulk/Bounds.antt =====
-- crates/osproxy-engine/src/bulk.rs: what a target's buffer holds stays below the two thresholds.
use opensearch_proxy.Prelude.{
  ℕ, ◌+◌, ◌<◌, ◌≡◌, refl, ap, sym, ◌∙◌, Bool, false, ◌||◌, Option, none, some, [], ◌∷◌, ◌++◌, ◌==◌,
  nat_eq, Bool-cases, inl, inr, leb, arith, length,
}
use opensearch_proxy.Prelude.Map
use opensearch_proxy.Engine.Bulk.Demux.{
  Entries, Demux, flush, buffer_and_flush, or_no_entries, or_zero, op_body_len, flush_threshold,
  byte_flush_threshold,
}
use opensearch_proxy.Engine.Bulk.Item.{Prepared}
use opensearch_proxy.Sink.Interface.{Sink}
use opensearch_proxy.Tenancy.Router.{Target, target_eq}
use opensearch_proxy.Tenancy.Routing.{Router}

-- The bytes of the documents in a sub-batch.
abbrev pub bytes_in : Entries → ℕ
bytes_in [] = 0
bytes_in ((i, p) ∷ es) = op_body_len p.op + bytes_in es

-- A buffer and the size that is kept for it.
abbrev pub Below : Option Entries → Option ℕ → Type 0
Below none none = Unit
Below (some es) (some n) =
    (length es < flush_threshold) × (n ≡ bytes_in es) × (n < byte_flush_threshold)
Below _ _ = ⊥

-- Every target's buffer is below both thresholds, and its size is the sum of its documents.
abbrev pub IsBounded : {W : Type 0} → Demux W → Type 0
IsBounded d = (t : Target) → Below (Map.get t d.buffers) (Map.get t d.sizes)

bytes_in-append :
    (es : Entries) (i : ℕ) (p : Prepared)
    → bytes_in (es ++ ((i, p) ∷ [])) ≡ bytes_in es + op_body_len p.op
bytes_in-append [] i p = omega arith
bytes_in-append ((j, q) ∷ es) i p = omega (arith, bytes_in-append es i p)

Below-size :
    (o : Option Entries) (n : Option ℕ) → Below o n → or_zero n ≡ bytes_in (or_no_entries o)
Below-size none none h = refl
Below-size none (some n) h = elim h [ ]
Below-size (some es) none h = elim h [ ]
Below-size (some es) (some n) h = h.1

abbrev pub is_full : Entries → ℕ → Bool
is_full buf size = leb flush_threshold (length buf) || leb byte_flush_threshold size

Below-not_full :
    (buf : Entries) (n : ℕ) → is_full buf n ≡ false → n ≡ bytes_in buf → Below (some buf) (some n)
Below-not_full buf n open_yet size = (ground arith, size, ground arith)

module _ {W : Type 0} (router : Router W) (sink : Sink W) (k : ℕ) (p : Prepared) (d : Demux W)
    (bounded : IsBounded d) where
  abbrev target : Target
  target = p.op.target

  abbrev grown : Entries
  grown = or_no_entries (Map.get target d.buffers) ++ ((k, p) ∷ [])

  abbrev size : ℕ
  size = or_zero (Map.get target d.sizes) + op_body_len p.op

  size-bytes_in : size ≡ bytes_in grown
  size-bytes_in =
      ap (λ (n : ℕ). n + op_body_len p.op)
        (Below-size (Map.get target d.buffers) (Map.get target d.sizes) (bounded target))
      ∙ sym (bytes_in-append (or_no_entries (Map.get target d.buffers)) k p)

  abbrev inserted : Demux W
  inserted = record d {
    buffers = Map.insert target grown d.buffers;
    sizes = Map.insert target size d.sizes;
  }

  kept-IsBounded : is_full grown size ≡ false → IsBounded inserted
  kept-IsBounded open_yet t = elim (Bool-cases (target == t)) [
    | inl same ↦
        rw (Map.get-insert target t grown d.buffers, Map.get-insert target t size d.sizes, same)
          (Below-not_full grown size open_yet size-bytes_in)
    | inr other ↦
        rw (Map.get-insert target t grown d.buffers, Map.get-insert target t size d.sizes, other)
          (bounded t)
  ]

  flushed-IsBounded : IsBounded (record inserted {
    buffers = Map.remove target inserted.buffers;
    sizes = Map.remove target inserted.sizes;
  })
  flushed-IsBounded t = elim (Bool-cases (target == t)) [
    | inl same ↦
        rw
          (
            Map.get-remove target t (Map.insert target grown d.buffers),
            Map.get-remove target t (Map.insert target size d.sizes),
            same,
          )
          tt
    | inr other ↦
        rw
          (
            Map.get-remove target t (Map.insert target grown d.buffers),
            Map.get-remove target t (Map.insert target size d.sizes),
            Map.get-insert target t grown d.buffers,
            Map.get-insert target t size d.sizes,
            other,
          )
          (bounded t)
  ]

  pub buffer_and_flush-IsBounded : IsBounded (buffer_and_flush router sink k p d)
  unfolding buffer_and_flush flush
  buffer_and_flush-IsBounded = elim (Bool-cases (is_full grown size)) [
    | inl full ↦ rw full flushed-IsBounded
    | inr open_yet ↦ rw open_yet (kept-IsBounded open_yet)
  ]
