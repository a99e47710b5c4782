-- ===== src/Engine/Bulk/Positions/Flushes.antt =====
-- crates/osproxy-engine/src/bulk.rs: a flush fills the slot of every entry of its sub-batch.
use opensearch_proxy.Prelude.{
  ℕ, ◌+◌, ◌≡◌, refl, ap, ◌∙◌, ◌⊎◌, inl, inr, Bool, true, false, ◌||◌, List, [], ◌∷◌, ◌++◌, ◌==◌,
  nat_eq, Bool-cases, Result, ok, err, leb, All, arith, length, length-append, map,
}
use opensearch_proxy.Engine.Bulk.Demux.{
  Entries, Lines, set_lines, Gated, admit_first, gate, build_batch, add_all, Flushed, dispatch,
  apply_flushed, stale_lines, stale_epoch_line, success_line, upstream_failure_line, outcome_lines,
  zipped, error_line,
}
use opensearch_proxy.Engine.Bulk.Echo.{Answers, Describes}
use opensearch_proxy.Engine.Bulk.Item.{Prepared}
use opensearch_proxy.Engine.Bulk.Line.{Line}
use opensearch_proxy.Engine.Bulk.Positions.Slots.{
  At-map, AgreesWith, Fits, IsEntryOf, filled, names, filled-set_lines, filled-set_lines_keeps,
  set_lines-AgreesWith,
}
use opensearch_proxy.Rewrite.Bulk.{BulkItem}
use opensearch_proxy.Sink.Batch.{WriteBatch, OpResult, WriteAck, SinkError}
use opensearch_proxy.Sink.Interface.{Sink, IsPositional}
use opensearch_proxy.Spi.Request.{RequestCtx}
use opensearch_proxy.Tenancy.Routing.{Router}

length-add_all :
    (es : Entries) (b : WriteBatch) → length (add_all b es).ops ≡ length b.ops + length es
length-add_all [] b = omega arith
length-add_all ((i, p) ∷ es) b = omega (
  arith,
  length-add_all es (record { ops = b.ops ++ (p.op ∷ []) }),
  length-append b.ops (p.op ∷ []),
)

pub length-build_batch : (es : Entries) → length (build_batch es).ops ≡ length es
unfolding build_batch
length-build_batch es = omega (arith, length-add_all es (record { ops = [] }))

names-map {ℓ κ} :
    {A : Type ℓ} {B : Type κ} (f : A → B) (es : List (ℕ × A)) (j : ℕ)
    → names (map (λ (e : ℕ × A). (e.0, f e.1)) es) j ≡ names es j
names-map f [] j = refl
names-map f ((i, a) ∷ es) j = ap (λ (b : Bool). (i == j) || b) (names-map f es j)

names-zipped :
    (es : Entries) (rs : List OpResult) (j : ℕ)
    → length rs ≡ length es
    → names (zipped es rs) j ≡ names es j
names-zipped [] rs j h = ground arith
names-zipped ((i, p) ∷ es) [] j h = absurd (omega arith)
names-zipped ((i, p) ∷ es) (r ∷ rs) j h =
    ap (λ (b : Bool). (i == j) || b) (names-zipped es rs j (omega arith))

-- The acknowledgement has one result for each entry.
abbrev pub Covers : Entries → Result WriteAck SinkError → Type 0
Covers es (ok ack) = length ack.results ≡ length es
Covers es (err e) = Unit

names-outcome_lines :
    (es : Entries) (r : Result WriteAck SinkError) (j : ℕ)
    → Covers es r
    → names (outcome_lines es r) j ≡ names es j
unfolding outcome_lines
names-outcome_lines es (ok ack) j h = names-zipped es ack.results j h
names-outcome_lines es (err e) j h = names-map upstream_failure_line es j

module _ (ctx : RequestCtx) where
  -- Any line that shows the prepared operation's own view is a line for it.
  success_line-Answers :
      (item : BulkItem) (p : Prepared) (r : OpResult)
      → Describes ctx item p
      → Answers ctx item (success_line p r)
  unfolding success_line
  success_line-Answers item p r d = elim (Bool-cases (leb 400 r.status)) [
    | inl e ↦ rw e (record { verb = d.verb; index = d.index; id = d.id })
    | inr e ↦ rw e (record { verb = d.verb; index = d.index; id = d.id })
  ]

  error_line-Answers :
      (status : ℕ) (code : List ℕ) (item : BulkItem) (p : Prepared)
      → Describes ctx item p
      → Answers ctx item (error_line p status code)
  error_line-Answers status code item p d = record { verb = d.verb; index = d.index; id = d.id }

  module _ (items : List BulkItem) where
    map-Fits :
        (f : Prepared → Line)
        → ((item : BulkItem) (p : Prepared) → Describes ctx item p → Answers ctx item (f p))
        → (es : Entries) → All (IsEntryOf ctx items) es
        → All (Fits ctx items) (map (λ (e : ℕ × Prepared). (e.0, f e.1)) es)
    map-Fits f shows [] h = tt
    map-Fits f shows ((i, p) ∷ es) h =
        (At-map _ _ (λ item. shows item p) items i h.0, map-Fits f shows es h.1)

    zipped-Fits :
        (es : Entries) (rs : List OpResult)
        → All (IsEntryOf ctx items) es
        → All (Fits ctx items) (zipped es rs)
    zipped-Fits [] rs h = ground arith
    zipped-Fits ((i, p) ∷ es) [] h = tt
    zipped-Fits ((i, p) ∷ es) (r ∷ rs) h =
        (At-map _ _ (λ item. success_line-Answers item p r) items i h.0, zipped-Fits es rs h.1)

    outcome_lines-Fits :
        (es : Entries) (r : Result WriteAck SinkError)
        → All (IsEntryOf ctx items) es
        → All (Fits ctx items) (outcome_lines es r)
    unfolding outcome_lines
    outcome_lines-Fits es (ok ack) h = zipped-Fits es ack.results h
    outcome_lines-Fits es (err e) h = map-Fits upstream_failure_line (error_line-Answers 502 _) es h

    stale_lines-Fits :
        (es : Entries) → All (IsEntryOf ctx items) es → All (Fits ctx items) (stale_lines es)
    unfolding stale_lines
    stale_lines-Fits es h = map-Fits stale_epoch_line (error_line-Answers 409 _) es h

-- An entry goes to one of the two sides, whatever holds of it.
admit_first-names :
    {W : Type 0} (admit : Bool) (i : ℕ) (p : Prepared) (g : Gated W) (j : ℕ)
    → ((i == j) ≡ true) ⊎ ((names g.admitted j ≡ true) ⊎ (names g.rejected j ≡ true))
    → (names (admit_first admit (i, p) g).admitted j ≡ true)
      ⊎ (names (admit_first admit (i, p) g).rejected j ≡ true)
admit_first-names true i p g j (inl h) = inl (rw h)
admit_first-names false i p g j (inl h) = inr (rw h)
admit_first-names true i p g j (inr (inl h)) = inl (ground (arith, h))
admit_first-names true i p g j (inr (inr h)) = inr h
admit_first-names false i p g j (inr (inl h)) = inl h
admit_first-names false i p g j (inr (inr h)) = inr (ground (arith, h))

admit_first-All :
    {W : Type 0} (P : ℕ × Prepared → Type 0) (admit : Bool) (e : ℕ × Prepared) (g : Gated W)
    → P e
    → All P g.admitted × All P g.rejected
    → All P (admit_first admit e g).admitted × All P (admit_first admit e g).rejected
admit_first-All P true e g h (a, r) = ((h, a), r)
admit_first-All P false e g h (a, r) = (a, (h, r))

module _ {W : Type 0} (router : Router W) where
  gate-names :
      (es : Entries) (w : W) (j : ℕ)
      → names es j ≡ true
      → (names (gate router w es).admitted j ≡ true) ⊎ (names (gate router w es).rejected j ≡ true)
  unfolding gate
  gate-names [] w j h = cc
  gate-names ((i, p) ∷ es) w j h =
      admit_first-names (router.admit_write w p.partition p.op.epoch).0 i p _ j
        (elim (Bool-cases (i == j)) [
          | inl same ↦ inl same
          | inr other ↦
              inr (gate-names es (router.admit_write w p.partition p.op.epoch).1 j (rw other at h))
        ])

  pub gate-All :
      (P : ℕ × Prepared → Type 0) (es : Entries) (w : W)
      → All P es
      → All P (gate router w es).admitted × All P (gate router w es).rejected
  unfolding gate
  gate-All P [] w h = (tt, tt)
  gate-All P ((i, p) ∷ es) w h =
      admit_first-All P (router.admit_write w p.partition p.op.epoch).0 (i, p) _ h.0
        (gate-All P es (router.admit_write w p.partition p.op.epoch).1 h.1)

-- What is wanted of a sub-batch that was dispatched for `es`.
pub record IsFlushOf {W : Type 0} (ctx : RequestCtx) (items : List BulkItem) (es : Entries)
    (f : Flushed W) : Type 0 where
  pub admitted : All (IsEntryOf ctx items) f.admitted
  pub rejected : All (IsEntryOf ctx items) f.rejected
  pub covers : Covers f.admitted f.ack
  pub complete :
      (j : ℕ) → names es j ≡ true → (names f.admitted j ≡ true) ⊎ (names f.rejected j ≡ true)

written-Covers :
    (n : ℕ) (es : Entries) (r : Result WriteAck SinkError)
    → n ≡ length es
    → ((ack : WriteAck) → r ≡ ok ack → length ack.results ≡ n)
    → Covers es r
written-Covers n es (ok ack) h one_each = one_each ack refl ∙ h
written-Covers n es (err e) h one_each = tt

module _ {W : Type 0} (router : Router W) (sink : Sink W) (positional : IsPositional sink)
    (ctx : RequestCtx) (items : List BulkItem) where
  pub dispatch-IsFlushOf :
      (w : W) (es : Entries)
      → All (IsEntryOf ctx items) es
      → IsFlushOf ctx items es (dispatch router sink w es)
  unfolding dispatch
  dispatch-IsFlushOf w es h =
      let sides = gate-All router (IsEntryOf ctx items) es w h in
      let g = gate router w es in
      record {
        admitted = sides.0;
        rejected = sides.1;
        covers =
            written-Covers _ g.admitted _ (length-build_batch g.admitted)
              (positional.one_each g.world (build_batch g.admitted));
        complete = gate-names router es w;
      }

module _ {W : Type 0} (ctx : RequestCtx) (items : List BulkItem) (es : Entries) (f : Flushed W)
    (flushed : IsFlushOf ctx items es f) (lines : Lines) where
  stale_AgreesWith :
      AgreesWith ctx items lines → AgreesWith ctx items (set_lines (stale_lines f.rejected) lines)
  stale_AgreesWith h =
      set_lines-AgreesWith ctx items _ lines h
        (stale_lines-Fits ctx items f.rejected flushed.rejected)

  pub apply_flushed-AgreesWith :
      AgreesWith ctx items lines → AgreesWith ctx items (apply_flushed f lines)
  unfolding apply_flushed
  apply_flushed-AgreesWith h =
      set_lines-AgreesWith ctx items _ _ (stale_AgreesWith h)
        (outcome_lines-Fits ctx items f.admitted f.ack flushed.admitted)

  pub filled-apply_flushed_keeps :
      (j : ℕ) → filled lines j ≡ true → filled (apply_flushed f lines) j ≡ true
  unfolding apply_flushed
  filled-apply_flushed_keeps j h =
      filled-set_lines_keeps (outcome_lines f.admitted f.ack) _ j
        (filled-set_lines_keeps (stale_lines f.rejected) lines j h)

  -- The slots of a sub-batch are filled by its flush.
  pub filled-apply_flushed :
      (j : ℕ)
      → AgreesWith ctx items lines
      → names es j ≡ true
      → filled (apply_flushed f lines) j ≡ true
  unfolding apply_flushed stale_lines
  filled-apply_flushed j h named = elim (flushed.complete j named) [
    | inl a ↦
        filled-set_lines ctx items (outcome_lines f.admitted f.ack) _ j (stale_AgreesWith h)
          (outcome_lines-Fits ctx items f.admitted f.ack flushed.admitted)
          (names-outcome_lines f.admitted f.ack j flushed.covers ∙ a)
    | inr r ↦ filled-set_lines_keeps (outcome_lines f.admitted f.ack) _ j (
        filled-set_lines ctx items (stale_lines f.rejected) lines j h
          (stale_lines-Fits ctx items f.rejected flushed.rejected)
          (names-map stale_epoch_line f.rejected j ∙ r))
  ]
