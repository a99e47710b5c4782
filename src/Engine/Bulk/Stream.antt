-- ===== src/Engine/Bulk/Stream.antt =====
-- crates/osproxy-engine/src/bulk.rs: the operations of a streamed body, read one at a time. A reader is the
-- lines that `next_line` has still to give; how it frames them from the stream is not modelled here.
pub mod Buffered
use opensearch_proxy.Prelude.{
  ℕ, zero, suc, Option, none, some, List, [], ◌∷◌, Result, ok, err, if◌then◌else◌,
}
use opensearch_proxy.Prelude.Bytes.{Bytes}
use opensearch_proxy.Core.Json.{Value}
use opensearch_proxy.Rewrite.Bulk.{
  BulkItem, ParsedAction, has_source, parse_bulk_action, into_item, pushed,
}
use opensearch_proxy.Rewrite.Failure.{RewriteError, malformed_bulk_action}
use opensearch_proxy.Rewrite.Id.{Looped}

-- an operation and the reader behind it; `none` at the end of the stream
abbrev pub NextOp : Type 0
NextOp = Looped (Option (BulkItem × List Bytes))

abbrev pub finalized : List Bytes → Looped BulkItem → NextOp
finalized later none = none
finalized later (some (err e)) = some (err e)
finalized later (some (ok item)) = some (ok (some (item, later)))

abbrev pub source_behind : ParsedAction → List Bytes → NextOp
source_behind parsed [] = some (err malformed_bulk_action)
source_behind parsed (source ∷ later) = finalized later (into_item parsed (some source))

abbrev pub op_behind : List Bytes → Result ParsedAction RewriteError → NextOp
op_behind later (err e) = some (err e)
op_behind later (ok parsed) =
    if has_source parsed.action
    then source_behind parsed later
    else finalized later (into_item parsed none)

module _ (parse : Bytes → Option Value) where
  unfoldable pub next_op : List Bytes → NextOp
  unfolding has_source into_item
  next_op [] = some (ok none)
  next_op (action_line ∷ later) = op_behind later (parse_bulk_action parse action_line)

-- `while let Some(item) = reader.next_op().await?`
abbrev pub continued : (List Bytes → Looped (List BulkItem)) → NextOp → Looped (List BulkItem)
continued loop none = none
continued loop (some (err e)) = some (err e)
continued loop (some (ok none)) = some (ok [])
continued loop (some (ok (some (item, later)))) = pushed item (loop later)

module _ (parse : Bytes → Option Value) where
  -- Every round takes a line, so one more than the lines is enough fuel.
  unfoldable pub read_ops : ℕ → List Bytes → Looped (List BulkItem)
  read_ops zero lines = none
  read_ops (suc fuel) lines = continued (read_ops fuel) (next_op parse lines)
