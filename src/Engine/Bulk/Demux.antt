-- ===== src/Engine/Bulk/Demux.antt =====
-- crates/osproxy-engine/src/bulk.rs: the demux of prepared operations by target, the flush of a target's
-- sub-batch behind the write gate, and the response lines at the positions of the operations. A body that
-- the source changes through `&mut` or a shared reference is a field of the state. `usize` does not wrap:
-- the counts and sizes are those of bytes in memory.
use opensearch_proxy.Prelude.{
  ℕ, zero, suc, ◌+◌, ◌*◌, Bool, ◌||◌, Option, none, some, List, [], ◌∷◌, ◌++◌, map, Result, ok, err,
  ◌==◌, nat_eq, list_eq, leb, if◌then◌else◌, length,
}
use opensearch_proxy.Prelude.Bytes.{Bytes, ascii}
use opensearch_proxy.Prelude.Map
use opensearch_proxy.Engine.Bulk.Item.{Prepared}
use opensearch_proxy.Engine.Bulk.Line.{Line, result_line, error_line_of}
use opensearch_proxy.Sink.Batch.{
  DocOp, WriteOp, WriteBatch, empty_batch, with_op, OpResult, WriteAck, SinkError,
}
use opensearch_proxy.Sink.Interface.{Sink}
use opensearch_proxy.Tenancy.Router.{Target, target_eq}
use opensearch_proxy.Tenancy.Routing.{Router}

abbrev pub flush_threshold : ℕ
flush_threshold = 256

abbrev pub byte_flush_threshold : ℕ
byte_flush_threshold = 4 * 1024 * 1024

abbrev pub Entries : Type 0
Entries = List (ℕ × Prepared)

abbrev pub Lines : Type 0
Lines = List (Option Line)

-- `lines[ordinal] = Some(line)`. The source would panic out of range; every ordinal is in range.
abbrev pub set_line : Lines → ℕ → Line → Lines
set_line [] i line = []
set_line (l ∷ lines) zero line = some line ∷ lines
set_line (l ∷ lines) (suc i) line = l ∷ set_line lines i line

-- Assignments in order.
abbrev pub set_lines : List (ℕ × Line) → Lines → Lines
set_lines [] lines = lines
set_lines ((i, line) ∷ later) lines = set_lines later (set_line lines i line)

unfoldable pub body_len : DocOp → ℕ
body_len (DocOp.index id routing body) = length body
body_len (DocOp.create id routing body) = length body
body_len (DocOp.update id routing body) = length body
body_len (DocOp.delete id routing) = 0

abbrev pub op_body_len : WriteOp → ℕ
op_body_len op = body_len op.doc

abbrev pub error_line : Prepared → ℕ → Bytes → Line
error_line p status error = error_line_of p.action p.logical_index (some p.logical_id) status error

abbrev pub stale_epoch_line : Prepared → Line
stale_epoch_line p = error_line p 409 (ascii "stale_epoch")

abbrev pub upstream_failure_line : Prepared → Line
upstream_failure_line p = error_line p 502 (ascii "upstream_failed")

abbrev pub error_type_for : ℕ → Bytes
error_type_for status =
    if status == 409
    then ascii "conflict"
    else if status == 404
    then ascii "not_found"
    else ascii "rejected"

unfoldable pub success_line : Prepared → OpResult → Line
success_line p r =
    if leb 400 r.status
    then error_line p r.status (error_type_for r.status)
    else result_line p.action p.logical_index (some p.logical_id) r.status
        (if r.created then ascii "created" else ascii "updated")

-- `iter().fold(WriteBatch::new(), |b, (_, p)| b.with(p.op.clone()))`
abbrev pub add_all : WriteBatch → Entries → WriteBatch
add_all batch [] = batch
add_all batch ((_, p) ∷ later) = add_all (with_op batch p.op) later

unfoldable pub build_batch : Entries → WriteBatch
build_batch entries = add_all empty_batch entries

-- `entries.iter().zip(ack.results())`
abbrev pub zipped : Entries → List OpResult → List (ℕ × Line)
zipped ((ordinal, p) ∷ entries) (r ∷ results) = (ordinal, success_line p r) ∷ zipped entries results
zipped _ _ = []

unfoldable pub outcome_lines : Entries → Result WriteAck SinkError → List (ℕ × Line)
outcome_lines entries (ok ack) = zipped entries ack.results
outcome_lines entries (err e) =
    map (λ (entry : ℕ × Prepared). (entry.0, upstream_failure_line entry.1)) entries

abbrev pub apply_results : Entries → Result WriteAck SinkError → Lines → Lines
apply_results entries result lines = set_lines (outcome_lines entries result) lines

unfoldable pub stale_lines : Entries → List (ℕ × Line)
stale_lines rejected = map (λ (entry : ℕ × Prepared). (entry.0, stale_epoch_line entry.1)) rejected

pub record Gated (W : Type 0) : Type 0 where
  pub admitted : Entries
  pub rejected : Entries
  pub world : W

-- What a task of `flush_remaining` hands back.
pub record Flushed (W : Type 0) : Type 0 where
  pub admitted : Entries
  pub rejected : Entries
  pub ack : Result WriteAck SinkError
  pub world : W

abbrev pub admit_first : {W : Type 0} → Bool → ℕ × Prepared → Gated W → Gated W
admit_first admit entry g =
    if admit
    then record g { admitted = entry ∷ g.admitted }
    else record g { rejected = entry ∷ g.rejected }

abbrev pub or_no_entries : Option Entries → Entries
or_no_entries none = []
or_no_entries (some buf) = buf

abbrev pub or_zero : Option ℕ → ℕ
or_zero none = 0
or_zero (some n) = n

-- `buffers.into_values().filter(|v| !v.is_empty())`
unfoldable pub pending : Map.Entries Target Entries → List Entries
pending [] = []
pending ((_, []) ∷ later) = pending later
pending ((_, entry ∷ entries) ∷ later) = (entry ∷ entries) ∷ pending later

-- What the loop over the operations keeps.
pub record Demux (W : Type 0) : Type 0 where
  pub world : W
  pub buffers : Map.Entries Target Entries
  pub sizes : Map.Entries Target ℕ
  pub lines : Lines

module _ {W : Type 0} (router : Router W) where
  -- The gate is asked for each entry in order.
  unfoldable pub gate : W → Entries → Gated W
  gate w [] = record { admitted = []; rejected = []; world = w }
  gate w ((ordinal, p) ∷ entries) =
      let (admit, w) = router.admit_write w p.partition p.op.epoch in
      admit_first admit (ordinal, p) (gate w entries)

unfoldable pub apply_flushed : {W : Type 0} → Flushed W → Lines → Lines
unfolding stale_lines outcome_lines
apply_flushed f lines = apply_results f.admitted f.ack (set_lines (stale_lines f.rejected) lines)

unfoldable pub apply_all : {W : Type 0} → List (Flushed W) → Lines → Lines
apply_all [] lines = lines
apply_all (f ∷ later) lines = apply_all later (apply_flushed f lines)

module _ {W : Type 0} (router : Router W) (sink : Sink W) where
  -- one task of `flush_remaining`, and the first half of `flush`
  unfoldable pub dispatch : W → Entries → Flushed W
  unfolding gate build_batch
  dispatch w entries =
      let g = gate router w entries in
      let (ack, w) = sink.write g.world (build_batch g.admitted) in
      record { admitted = g.admitted; rejected = g.rejected; ack = ack; world = w }

  unfoldable pub flush : Entries → Demux W → Demux W
  unfolding dispatch apply_flushed
  flush entries d =
      let f = dispatch d.world entries in
      record d { world = f.world; lines = apply_flushed f d.lines }

  abbrev pub flush_if : Bool → Target → Entries → Demux W → Demux W
  flush_if full target buf d =
      if full
      then flush buf
          (record d { buffers = Map.remove target d.buffers; sizes = Map.remove target d.sizes })
      else d

  -- The entry is put into its buffer; a full buffer is taken out again and flushed.
  unfoldable pub buffer_and_flush : ℕ → Prepared → Demux W → Demux W
  unfolding flush
  buffer_and_flush ordinal p d =
      let target = p.op.target in
      let buf = or_no_entries (Map.get target d.buffers) ++ ((ordinal, p) ∷ []) in
      let size = or_zero (Map.get target d.sizes) + op_body_len p.op in
      flush_if (leb flush_threshold (length buf) || leb byte_flush_threshold size) target buf
        (record d {
          buffers = Map.insert target buf d.buffers;
          sizes = Map.insert target size d.sizes;
        })

  -- The tasks of `flush_remaining` in the order in which they end. The calls of one task are taken
  -- together; what other tasks do between them is up to the world.
  unfoldable pub dispatch_all : W → List Entries → List (Flushed W) × W
  dispatch_all w [] = ([], w)
  dispatch_all w (entries ∷ later) =
      let f = dispatch w entries in let (rest, w) = dispatch_all f.world later in (f ∷ rest, w)

  -- `ended` is the order of the pending sub-batches: that of the map, and of the tasks.
  unfoldable pub flush_remaining : (List Entries → List Entries) → Demux W → Demux W
  unfolding dispatch_all apply_all pending
  flush_remaining ended d =
      let (results, w) = dispatch_all d.world (ended (pending d.buffers)) in
      record d { world = w; lines = apply_all results d.lines }
