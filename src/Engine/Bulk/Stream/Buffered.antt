-- ===== src/Engine/Bulk/Stream/Buffered.antt =====
-- crates/osproxy-engine/src/bulk.rs and crates/osproxy-rewrite/src/bulk.rs: the streamed reading of a bulk
-- against the buffered one.
use opensearch_proxy.Prelude.{
  ℕ, zero, suc, ◌<◌, ◌≡◌, refl, ap, sym, ◌∙◌, Option, none, some, List, [], ◌∷◌, Result, ok, err,
  ◌>>=◌, length, arith, true,
}
use opensearch_proxy.Prelude.Bytes.{Bytes}
use opensearch_proxy.Core.Json.{Value}
use opensearch_proxy.Core.Scan.Cursor.{Unit₀}
use opensearch_proxy.Core.Scan.Document.{Scanned, JsonError, validate}
use opensearch_proxy.Core.Scan.Document.Ends.{validate-Answers}
use opensearch_proxy.Engine.Bulk.Stream.{finalized, op_behind, next_op, continued, read_ops}
use opensearch_proxy.Rewrite.Bulk.{
  BulkItem, BulkAction, ActionMeta, ParsedAction, has_source, parse_action_line, parse_bulk_action,
  into_item, sourced, pushed, last_action, action_before, if_valid, bulk_item, parse_lines,
  parse_bulk,
}
use opensearch_proxy.Rewrite.Failure.{RewriteError}
use opensearch_proxy.Rewrite.Id.{Looped}
use opensearch_proxy.Rewrite.Ndjson.{keep_line, non_blank_lines}
use opensearch_proxy.Rewrite.Ndjson.Splitting.{
  split_lines, keep_all, first_position, non_blank_lines-split,
}

abbrev parsed_of : Result (BulkAction × ActionMeta) RewriteError → Result ParsedAction RewriteError
parsed_of (err e) = err e
parsed_of (ok (action, meta)) = ok (record { action = action; meta = meta })

rebuilt :
    (r : Result (BulkAction × ActionMeta) RewriteError)
    → (r >>= λ parsed. ok (record { action = parsed.0; meta = parsed.1 })) ≡ parsed_of r
rebuilt (ok (action, meta)) = refl
rebuilt (err e) = refl

module _ (parse : Bytes → Option Value) where
  parse_bulk_action_lem :
      (line : Bytes) → parse_bulk_action parse line ≡ parsed_of (parse_action_line parse line)
  unfolding parse_bulk_action
  parse_bulk_action_lem line = rebuilt (parse_action_line parse line)

  last_op :
      (loop : List Bytes → Looped (List BulkItem))
      (r : Result (BulkAction × ActionMeta) RewriteError)
      → loop [] ≡ some (ok [])
      → continued loop (op_behind [] (parsed_of r)) ≡ last_action r
  unfolding has_source into_item
  last_op loop (err e) h = refl
  last_op loop (ok (BulkAction.delete, meta)) h =
      ap (pushed (bulk_item BulkAction.delete meta none)) h
  last_op loop (ok (BulkAction.index, meta)) h = refl
  last_op loop (ok (BulkAction.create, meta)) h = refl
  last_op loop (ok (BulkAction.update, meta)) h = refl

  -- A source line, validated by `into_item` or by the loop itself.
  sourced_op :
      (loop : List Bytes → Looped (List BulkItem)) (action : BulkAction) (meta : ActionMeta)
      (source : Bytes) (later : List Bytes)
      → has_source action ≡ true
      → (v : Scanned Unit₀)
      → continued loop (finalized later (sourced action meta source v))
        ≡ if_valid v (bulk_item action meta (some source)) (loop later)
  sourced_op loop action meta source later h none = refl
  sourced_op loop action meta source later h (some (err e)) = refl
  sourced_op loop action meta source later h (some (ok u)) = refl

  next_lines :
      (loop : List Bytes → Looped (List BulkItem)) (source : Bytes) (later : List Bytes)
      (r : Result (BulkAction × ActionMeta) RewriteError)
      → continued loop (op_behind (source ∷ later) (parsed_of r))
        ≡ action_before source (loop later) (loop (source ∷ later)) r
  unfolding has_source into_item
  next_lines loop source later (err e) = refl
  next_lines loop source later (ok (BulkAction.delete, meta)) = refl
  next_lines loop source later (ok (BulkAction.index, meta)) =
      sourced_op loop BulkAction.index meta source later refl (validate source)
  next_lines loop source later (ok (BulkAction.create, meta)) =
      sourced_op loop BulkAction.create meta source later refl (validate source)
  next_lines loop source later (ok (BulkAction.update, meta)) =
      sourced_op loop BulkAction.update meta source later refl (validate source)

  read_ops-parse_lines :
      (fuel : ℕ) (lines : List Bytes)
      → length lines < fuel
      → read_ops parse fuel lines ≡ parse_lines parse lines
  unfolding read_ops next_op parse_lines
  read_ops-parse_lines zero lines lt = absurd (omega arith)
  read_ops-parse_lines (suc fuel) [] lt = refl
  read_ops-parse_lines (suc zero) (line ∷ lines) lt = absurd (omega arith)
  read_ops-parse_lines (suc (suc fuel)) (line ∷ []) lt =
      ap (λ r. continued (read_ops parse (suc fuel)) (op_behind [] r)) (parse_bulk_action_lem line)
      ∙ last_op (read_ops parse (suc fuel)) (parse_action_line parse line) refl
  read_ops-parse_lines (suc fuel) (line ∷ source ∷ later) lt =
      ap (λ r. continued (read_ops parse fuel) (op_behind (source ∷ later) r))
        (parse_bulk_action_lem line)
      ∙ (next_lines (read_ops parse fuel) source later (parse_action_line parse line)
          ∙ (ap
                (λ behind.
                  action_before source behind (read_ops parse fuel (source ∷ later))
                    (parse_action_line parse line))
                (read_ops-parse_lines fuel later (omega arith))
              ∙ ap
                  (λ next.
                    action_before source (parse_lines parse later) next
                      (parse_action_line parse line))
                  (read_ops-parse_lines fuel (source ∷ later) (omega arith))))

  abbrev Ends : Looped (List BulkItem) → Type 0
  Ends o = (r : Result (List BulkItem) RewriteError) × (o ≡ some r)

  pushed-Ends : (item : BulkItem) (o : Looped (List BulkItem)) → Ends o → Ends (pushed item o)
  pushed-Ends item none (r, h) = cc
  pushed-Ends item (some (ok items)) h = (_, refl)
  pushed-Ends item (some (err e)) h = (_, refl)

  if_valid-Ends :
      (v : Scanned Unit₀) (item : BulkItem) (o : Looped (List BulkItem))
      → (r : Result Unit₀ JsonError) × (v ≡ some r)
      → Ends o
      → Ends (if_valid v item o)
  if_valid-Ends none item o (r, h) k = cc
  if_valid-Ends (some (err e)) item o h k = (_, refl)
  if_valid-Ends (some (ok u)) item o h k = pushed-Ends item o k

  last_action-Ends : (r : Result (BulkAction × ActionMeta) RewriteError) → Ends (last_action r)
  unfolding has_source
  last_action-Ends (err e) = (_, refl)
  last_action-Ends (ok (BulkAction.delete, meta)) = (_, refl)
  last_action-Ends (ok (BulkAction.index, meta)) = (_, refl)
  last_action-Ends (ok (BulkAction.create, meta)) = (_, refl)
  last_action-Ends (ok (BulkAction.update, meta)) = (_, refl)

  action_before-Ends :
      (line : Bytes) (behind next : Looped (List BulkItem))
      (r : Result (BulkAction × ActionMeta) RewriteError)
      → Ends behind
      → Ends next
      → Ends (action_before line behind next r)
  unfolding has_source
  action_before-Ends line behind next (err e) b n = (_, refl)
  action_before-Ends line behind next (ok (BulkAction.delete, meta)) b n = pushed-Ends _ next n
  action_before-Ends line behind next (ok (BulkAction.index, meta)) b n =
      if_valid-Ends (validate line) _ behind (validate-Answers line) b
  action_before-Ends line behind next (ok (BulkAction.create, meta)) b n =
      if_valid-Ends (validate line) _ behind (validate-Answers line) b
  action_before-Ends line behind next (ok (BulkAction.update, meta)) b n =
      if_valid-Ends (validate line) _ behind (validate-Answers line) b

  parse_lines-Ends : (lines : List Bytes) → Ends (parse_lines parse lines)
  unfolding parse_lines
  parse_lines-Ends [] = (_, refl)
  parse_lines-Ends (line ∷ []) = last_action-Ends (parse_action_line parse line)
  parse_lines-Ends (line ∷ source ∷ later) =
      action_before-Ends source _ _ (parse_action_line parse line) (parse_lines-Ends later)
        (parse_lines-Ends (source ∷ later))

  -- The lines of a body that are not blank.
  abbrev pub lines_of : Bytes → List Bytes
  lines_of body = keep_line (split_lines body).0 (keep_all (split_lines body).1)

  -- Parsing a buffered bulk body ends, with its operations or with the first error, and that is what
  -- reading the operations one by one gives, as the streamed bulk does, from the lines that splitting the
  -- body at its line feeds gives, but for the blank ones. The search of memchr finds the first position
  -- of a byte.
  pub parse_bulk-streamed :
      (memchr : ℕ → Bytes → Option ℕ)
      → ((b : ℕ) (s : Bytes) → memchr b s ≡ first_position b s)
      → (body : Bytes)
      → (parse_bulk parse memchr body
          ≡ read_ops parse (suc (length (lines_of body))) (lines_of body))
        × ((r : Result (List BulkItem) RewriteError) × (parse_bulk parse memchr body ≡ some r))
  unfolding parse_bulk
  parse_bulk-streamed memchr law body = (
    ap (parse_lines parse) (non_blank_lines-split memchr law body)
        ∙ sym (read_ops-parse_lines (suc (length (lines_of body))) (lines_of body) (omega arith)),
    parse_lines-Ends (non_blank_lines memchr body),
  )
