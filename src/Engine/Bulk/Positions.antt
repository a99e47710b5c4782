-- ===== src/Engine/Bulk/Positions.antt =====
-- crates/osproxy-engine/src/bulk.rs: the response has one line for each operation, at its position, and the
-- line shows the verb, the index and the id that the client wrote.
pub mod Slots
mod Flushes
mod Tracked
mod Pending
use opensearch_proxy.Prelude.{
  ℕ, zero, suc, ◌+◌, ◌<◌, ◌≡◌, refl, ap, sym, ◌∙◌, ◌⊎◌, inl, inr, Bool, true, false, ◌||◌, Option,
  none, some, List, [], ◌∷◌, ◌++◌, ◌==◌, nat_eq, eq_refl, eq_iff, eq_sound, Bool-cases,
  Option-cases, Result, ok, err, leb, if◌then◌else◌, All, any, arith, length, subst,
}
use mathlib.Core.List.{Permᴰ}
use mathlib.Core.List.Permᴰ as PermD
use opensearch_proxy.Prelude.Map
use opensearch_proxy.Engine.Bulk.Demux.{
  Entries, Lines, set_line, Demux, flush, flush_if, buffer_and_flush, dispatch, apply_flushed,
  or_no_entries, pending, dispatch_all, apply_all, flush_remaining, Flushed, flush_threshold,
  byte_flush_threshold, or_zero, op_body_len,
}
use opensearch_proxy.Engine.Bulk.Echo.{Answers, Describes, IsOutcomeFor, prepare-IsOutcomeFor}
use opensearch_proxy.Engine.Bulk.Ingest.{
  Setting, Progress, settle, take_item, take_items, start, demux_items, no_lines,
}
use opensearch_proxy.Engine.Bulk.Item.{Prepared, ItemFailure, into_line}
use opensearch_proxy.Engine.Bulk.Prepare.{prepare}
use opensearch_proxy.Rewrite.Bulk.{BulkItem}
use opensearch_proxy.Sink.Interface.{Sink, IsPositional}
use opensearch_proxy.Spi.Request.{RequestCtx}
use opensearch_proxy.Tenancy.Router.{Target, target_eq}
use opensearch_proxy.Tenancy.Routing.{Router}
use Slots.{
  At, AgreesWith, Fits, IsEntryOf, filled, names, filled-set_line_keeps, filled-set_line,
  set_line-AgreesWith, Answered, AgreesWith-Answered, no_lines-AgreesWith,
}
use Flushes.{
  IsFlushOf, dispatch-IsFlushOf, apply_flushed-AgreesWith, filled-apply_flushed,
  filled-apply_flushed_keeps,
}
use Pending.{All-Permᴰ, any-Permᴰ, pending-All, pending-names, Rest, Rest-At, Rest-suc, length-Rest}
use Tracked.{Buffers, AreEntriesOf, Waits, IsTracked, kept-IsTracked, flushed-IsTracked, grown}

module _ {W : Type 0} (router : Router W) (sink : Sink W) (positional : IsPositional sink)
    (ctx : RequestCtx) (items : List BulkItem) where
  buffer_and_flush-IsTracked :
      (k : ℕ) (p : Prepared) (d : Demux W)
      → IsTracked ctx items k d
      → IsEntryOf ctx items (k, p)
      → IsTracked ctx items (suc k) (buffer_and_flush router sink k p d)
  unfolding buffer_and_flush
  buffer_and_flush-IsTracked k p d tracked entry = full_or_not (
      leb flush_threshold (length (grown ctx items k p d tracked))
      || leb byte_flush_threshold (or_zero (Map.get p.op.target d.sizes) + op_body_len p.op))
    where
      full_or_not :
          (full : Bool)
          → IsTracked ctx items (suc k) (
              flush_if router sink full p.op.target (grown ctx items k p d tracked) (record d {
                buffers = Map.insert p.op.target (grown ctx items k p d tracked) d.buffers;
                sizes =
                    Map.insert p.op.target
                      (or_zero (Map.get p.op.target d.sizes) + op_body_len p.op)
                      d.sizes;
              }))
      full_or_not true = flushed-IsTracked ctx items k p d tracked entry _ router sink positional
      full_or_not false = kept-IsTracked ctx items k p d tracked entry _

  -- The sub-batches of the last flush, in any order.
  record AreApplied (xs : List Entries) (lines after : Lines) : Type 0 where
    agrees : AgreesWith ctx items after
    keeps : (j : ℕ) → filled lines j ≡ true → filled after j ≡ true
    fills : (j : ℕ) → any (λ es. names es j) xs ≡ true → filled after j ≡ true

  dispatch_all-AreApplied :
      (w : W) (xs : List Entries) (lines : Lines)
      → All (All (IsEntryOf ctx items)) xs
      → AgreesWith ctx items lines
      → AreApplied xs lines (apply_all (dispatch_all router sink w xs).0 lines)
  unfolding dispatch_all apply_all
  dispatch_all-AreApplied w [] lines h agrees = record {
    agrees = agrees;
    keeps = λ j full. full;
    fills = λ j named. cc;
  }
  dispatch_all-AreApplied w (es ∷ xs) lines h agrees =
      let f = dispatch router sink w es in
      let is_flush : IsFlushOf ctx items es f =
        dispatch-IsFlushOf router sink positional ctx items w es h.0 in
      let later : AreApplied xs (apply_flushed f lines)
          (apply_all (dispatch_all router sink f.world xs).0 (apply_flushed f lines)) =
        dispatch_all-AreApplied f.world xs (apply_flushed f lines) h.1
          (apply_flushed-AgreesWith ctx items es f is_flush lines agrees) in
      record {
        agrees = later.agrees;
        keeps = λ j full.
            later.keeps j (filled-apply_flushed_keeps ctx items es f is_flush lines j full);
        fills = λ j named. elim (Bool-cases (names es j)) [
          | inl here ↦
              later.keeps j (filled-apply_flushed ctx items es f is_flush lines j agrees here)
          | inr other ↦ later.fills j (rw other at named)
        ];
      }

module _ {W : Type 0} (s : Setting W) (positional : IsPositional s.sink)
    (items : List BulkItem) where
  settle-IsTracked :
      (k : ℕ) (item : BulkItem) (later : List BulkItem) (d : Demux W)
      (r : Result Prepared ItemFailure)
      → Rest items k (item ∷ later)
      → IsOutcomeFor s.ctx item r
      → IsTracked s.ctx items k d
      → IsTracked s.ctx items (suc k) (settle s k d r)
  settle-IsTracked k item later d (ok p) rest outcome tracked =
      buffer_and_flush-IsTracked s.router s.sink positional s.ctx items k p d tracked
        (Rest-At (λ i. Describes s.ctx i p) items k item later rest outcome)
  settle-IsTracked k item later d (err failure) rest outcome tracked =
      let fit : Fits s.ctx items (k, into_line failure) =
        Rest-At (λ i. Answers s.ctx i (into_line failure)) items k item later rest outcome in
      record {
        agrees = set_line-AgreesWith s.ctx items d.lines k _ tracked.agrees fit;
        buffered = tracked.buffered;
        covered = λ j lt. elim (Bool-cases (k == j)) [
          | inl same ↦ inl (
              subst (λ i. filled (set_line d.lines k (into_line failure)) i ≡ true)
                (eq_sound k j same) (filled-set_line s.ctx items d.lines k _ tracked.agrees fit))
          | inr other ↦ elim (tracked.covered j (ground (arith, eq_iff k j))) [
            | inl full ↦ inl (filled-set_line_keeps d.lines k j _ full)
            | inr waits ↦ inr waits
          ]
        ];
      }

  take_items-IsTracked :
      (k : ℕ) (later : List BulkItem) (p : Progress W)
      → Rest items k later
      → IsTracked s.ctx items k p.demux
      → IsTracked s.ctx items (length items) (take_items s k later p).demux
  unfolding take_items take_item
  take_items-IsTracked k [] p rest tracked =
      subst (λ n. IsTracked s.ctx items n p.demux) (sym (length-Rest items k rest)) tracked
  take_items-IsTracked k (item ∷ later) p rest tracked =
      take_items-IsTracked (suc k) later (take_item s k item p) (Rest-suc items k item later rest) (
        settle-IsTracked k item later _ _ rest
          (prepare-IsOutcomeFor s.serde s.ctx item s.router s.retry s.up_trace p.demux.world
            p.cache)
          (record {
            agrees = tracked.agrees;
            buffered = tracked.buffered;
            covered = tracked.covered;
          }))

  -- In the response to a buffered `_bulk`, every operation has exactly one line: the line stands at the
  -- position of the operation and shows its verb, its index (or that of the request where it names none)
  -- and, where the client gave one, its id. This holds whatever the router and the gate answer, wherever
  -- an operation is dispatched or refused, and in whatever order the last sub-batches end, provided that
  -- the sink acknowledges a batch with one result for each operation.
  pub demux_items-Answered :
      ((xs : List Entries) → Permᴰ (s.ended xs) xs)
      → (w : W) → Answered s.ctx items (demux_items s w items).lines
  unfolding demux_items flush_remaining
  demux_items-Answered in_some_order w =
      let d = (take_items s 0 items (start s w items)).demux in
      let tracked : IsTracked s.ctx items (length items) d =
        take_items-IsTracked 0 items (start s w items) refl (record {
          agrees = no_lines-AgreesWith s.ctx items;
          buffered = tt;
          covered = λ j lt. absurd (omega arith);
        }) in
      let xs = pending d.buffers in
      let applied =
        dispatch_all-AreApplied s.router s.sink positional s.ctx items d.world (s.ended xs) d.lines
          (All-Permᴰ _ (in_some_order xs) (pending-All s.ctx items d.buffers tracked.buffered))
          tracked.agrees in
      AgreesWith-Answered s.ctx items _ applied.agrees (λ j lt. elim (tracked.covered j lt) [
        | inl full ↦ applied.keeps j full
        | inr (t, es, found, named) ↦
            applied.fills j
              (any-Permᴰ _ (in_some_order xs) ∙ pending-names d.buffers t es j found named)
      ])
