-- ===== src/Engine/Bulk/Gate.antt =====
-- crates/osproxy-engine/src/bulk.rs: the write gate in front of every dispatch of a bulk.
use opensearch_proxy.Prelude.{
  ℕ, suc, ◌≡◌, refl, sym, subst, ◌∙◌, Bool, true, false, Option, none, some, List, [], ◌∷◌, Result,
  ok, err, All, All-append, Bool-cases, inl, inr, nat_eq, list_eq, pair_eq,
}
use opensearch_proxy.Prelude.Map
use opensearch_proxy.Prelude.Bytes.{Bytes}
use opensearch_proxy.Core.Ids.{PartitionId, Epoch}
use opensearch_proxy.Engine.Bulk.Demux.{
  Entries, Demux, Gated, admit_first, gate, add_all, build_batch, dispatch, dispatch_all, flush,
  flush_if, buffer_and_flush, flush_remaining, pending,
}
use opensearch_proxy.Engine.Bulk.Ingest.{
  Setting, Progress, settle, take_item, take_items, start, demux_items,
}
use opensearch_proxy.Engine.Bulk.Item.{
  Prepared, ItemFailure, Preparation, CachedResolution, ResolutionCache, index_or, or_empty,
}
use opensearch_proxy.Engine.Bulk.Prepare.{
  prepare, cached_or_lookup, in_partition, looked_up, cache_resolved,
}
use opensearch_proxy.Engine.Retry.{Run}
use opensearch_proxy.Rewrite.Bulk.{BulkItem}
use opensearch_proxy.Sink.Batch.{WriteOp, WriteBatch, with_op}
use opensearch_proxy.Spi.Failure.{SpiError}
use opensearch_proxy.Tenancy.Router.{Target}
use opensearch_proxy.Tenancy.Routing.{Resolved}

-- `delivered` is what the clusters have received. A write delivers operations of its batch and no others;
-- nothing else delivers any.
pub record OnlyWritesDeliver {W : Type 0} (s : Setting W) (delivered : W → List WriteOp)
    : Type 1 where
  pub written :
      (Q : WriteOp → Type 0) (w : W) (batch : WriteBatch)
      → All Q batch.ops
      → All Q (delivered w)
      → All Q (delivered (s.sink.write w batch).1)
  pub asked :
      (w : W) (p : PartitionId) (e : Epoch) → delivered (s.router.admit_write w p e).1 ≡ delivered w
  pub waited : (w : W) → delivered (s.router.waited w) ≡ delivered w

-- The gate refuses a stale epoch, whenever it is asked.
abbrev pub Refuses : {W : Type 0} → Setting W → (Epoch → Bool) → Type 0
Refuses {W} s stale =
    (w : W) (p : PartitionId) (e : Epoch) → stale e ≡ true → (s.router.admit_write w p e).0 ≡ false

module _ {W : Type 0} (s : Setting W) (delivered : W → List WriteOp)
    (only : OnlyWritesDeliver s delivered) (stale : Epoch → Bool) (refuses : Refuses s stale) where
  abbrev IsFresh : WriteOp → Type 0
  IsFresh op = stale op.epoch ≡ false

  abbrev IsClean : W → Type 0
  IsClean w = All IsFresh (delivered w)

  abbrev AreFresh : Entries → Type 0
  AreFresh es = All (λ (e : ℕ × Prepared). IsFresh e.1.op) es

  asked-IsClean :
      (w : W) (p : PartitionId) (e : Epoch) → IsClean w → IsClean (s.router.admit_write w p e).1
  asked-IsClean w p e clean = subst (All IsFresh) (sym (only.asked w p e)) clean

  admit_first-AreFresh :
      (w : W) (i : ℕ) (p : Prepared) (g : Gated W)
      → AreFresh g.admitted
      → AreFresh (admit_first (s.router.admit_write w p.partition p.op.epoch).0 (i, p) g).admitted
  admit_first-AreFresh w i p g h =
      elim (Bool-cases (s.router.admit_write w p.partition p.op.epoch).0) [
        | inl admit ↦ rw admit (elim (Bool-cases (stale p.op.epoch)) [
          | inl old ↦
              let wrong : true ≡ false = sym admit ∙ refuses w p.partition p.op.epoch old in cc
          | inr fresh ↦ (fresh, h)
        ])
        | inr refused ↦ rw refused h
      ]

  admit_first-world :
      (admit : Bool) (e : ℕ × Prepared) (g : Gated W) → (admit_first admit e g).world ≡ g.world
  admit_first-world true e g = refl
  admit_first-world false e g = refl

  gate-AreFresh :
      (w : W) (es : Entries)
      → IsClean w
      → AreFresh (gate s.router w es).admitted × IsClean (gate s.router w es).world
  unfolding gate
  gate-AreFresh w [] clean = (tt, clean)
  gate-AreFresh w ((i, p) ∷ es) clean =
      let asked = s.router.admit_write w p.partition p.op.epoch in
      let rest = gate-AreFresh asked.1 es (asked-IsClean w p.partition p.op.epoch clean) in
      (
        admit_first-AreFresh w i p _ rest.0,
        subst IsClean (sym (admit_first-world asked.0 (i, p) _)) rest.1,
      )

  add_all-AreFresh :
      (es : Entries) (b : WriteBatch)
      → AreFresh es
      → All IsFresh b.ops
      → All IsFresh (add_all b es).ops
  add_all-AreFresh [] b h k = k
  add_all-AreFresh ((i, p) ∷ es) b h k =
      add_all-AreFresh es (with_op b p.op) h.1 (All-append IsFresh b.ops (p.op ∷ []) k (h.0, tt))

  dispatch-IsClean :
      (w : W) (es : Entries) → IsClean w → IsClean (dispatch s.router s.sink w es).world
  unfolding dispatch build_batch
  dispatch-IsClean w es clean =
      let gated = gate-AreFresh w es clean in
      only.written IsFresh (gate s.router w es).world _
        (add_all-AreFresh (gate s.router w es).admitted (record { ops = [] }) gated.0 tt) gated.1

  dispatch_all-IsClean :
      (w : W) (xs : List Entries) → IsClean w → IsClean (dispatch_all s.router s.sink w xs).1
  unfolding dispatch_all
  dispatch_all-IsClean w [] clean = clean
  dispatch_all-IsClean w (es ∷ xs) clean =
      dispatch_all-IsClean (dispatch s.router s.sink w es).world xs (dispatch-IsClean w es clean)

  flush_if-IsClean :
      (full : Bool) (t : Target) (buf : Entries) (d : Demux W)
      → IsClean d.world
      → IsClean (flush_if s.router s.sink full t buf d).world
  unfolding flush
  flush_if-IsClean true t buf d clean = dispatch-IsClean d.world buf clean
  flush_if-IsClean false t buf d clean = clean

  settle-IsClean :
      (k : ℕ) (d : Demux W) (r : Result Prepared ItemFailure)
      → IsClean d.world
      → IsClean (settle s k d r).world
  unfolding buffer_and_flush
  settle-IsClean k d (ok p) clean = flush_if-IsClean _ p.op.target _ _ clean
  settle-IsClean k d (err failure) clean = clean

  -- Preparing an operation waits for a placement at most.
  module _ (item : BulkItem) (w : W) (clean : IsClean w) where
    abbrev Prepares : Preparation W → Type 0
    Prepares p = IsClean p.world

    waited-IsClean : IsClean (s.router.waited w)
    waited-IsClean = subst (All IsFresh) (sym (only.waited w)) clean

    looked_up-IsClean :
        (key : Bytes × Bytes) (cache : ResolutionCache) (run : Option (Run Resolved))
        → Prepares (
            looked_up s.serde s.router s.retry s.ctx item
              (index_or s.ctx item.index)
              s.up_trace
              key
              cache
              (s.router.waited w)
              run)
    looked_up-IsClean key cache none = waited-IsClean
    looked_up-IsClean key cache (some run) = cached run.answer
      where
        cached :
            (r : Result Resolved SpiError)
            → Prepares (
                cache_resolved s.serde s.router s.retry s.ctx item
                  (index_or s.ctx item.index)
                  s.up_trace
                  key
                  cache
                  (s.router.waited w)
                  r)
        cached (ok resolved) = waited-IsClean
        cached (err e) = waited-IsClean

    in_partition-IsClean :
        (cache : ResolutionCache) (r : Result Bytes SpiError)
        → Prepares (
            in_partition s.serde s.router s.retry s.ctx item
              (index_or s.ctx item.index)
              s.up_trace
              cache
              w
              r)
    in_partition-IsClean cache (err e) = clean
    in_partition-IsClean cache (ok partition) =
        cached (Map.get (partition, index_or s.ctx item.index) cache)
      where
        cached :
            (o : Option CachedResolution)
            → Prepares (
                cached_or_lookup s.serde s.router s.retry s.ctx item
                  (index_or s.ctx item.index)
                  s.up_trace
                  partition
                  cache
                  w
                  o)
        cached (some entry) = clean
        cached none = looked_up-IsClean _ cache _

  take_items-IsClean :
      (k : ℕ) (later : List BulkItem) (p : Progress W)
      → IsClean p.demux.world
      → IsClean (take_items s k later p).demux.world
  unfolding take_items take_item prepare
  take_items-IsClean k [] p clean = clean
  take_items-IsClean k (item ∷ later) p clean =
      take_items-IsClean (suc k) later (take_item s k item p) (
        settle-IsClean k _ _ (
          in_partition-IsClean item p.demux.world clean p.cache
            (s.router.resolve_partition s.ctx (or_empty item.source))))

  -- Where the write gate refuses an epoch throughout a `_bulk`, for instance since the placement it was
  -- resolved from has been superseded, no operation that was resolved at that epoch is delivered: not by
  -- the flush of a full buffer and not by the last flush, whatever the operations are and in whatever
  -- order the sub-batches end.
  pub demux_delivers_no_stale :
      (w : W) (items : List BulkItem)
      → All (λ op. stale op.epoch ≡ false) (delivered w)
      → All (λ op. stale op.epoch ≡ false) (delivered (demux_items s w items).world)
  unfolding demux_items flush_remaining
  demux_delivers_no_stale w items clean =
      let d = (take_items s 0 items (start s w items)).demux in
      dispatch_all-IsClean d.world (s.ended (pending d.buffers))
        (take_items-IsClean 0 items (start s w items) clean)
