-- ===== src/Engine/SearchScan/Machine.antt =====
-- crates/osproxy-engine/src/search_scan.rs: hits, the dispatch of a byte and the feeding of a chunk.
use opensearch_proxy.Prelude.{
  ℕ, zero, suc, ◌-◌, Bool, true, false, ◌||◌, Option, none, some, [], ◌∷◌, ◌++◌, ◌==◌, nat_eq,
  list_eq, if◌then◌else◌,
}
use opensearch_proxy.Prelude.Bytes.{Bytes, ascii}
use opensearch_proxy.Core.Json.{Value}
use opensearch_proxy.Engine.Read.{ReadShape, shape_hit}
use opensearch_proxy.Engine.SearchScan.State.{
  deeper, Phase, Flow, opens, closes, ElemKind, Scanner, is_ws, push, to_elem, seek_root,
  obj_expect_key, obj_read_key, obj_expect_colon, obj_expect_value, skip_value, obj_expect_comma,
  arr_expect_elem, arr_read_elem, arr_expect_comma, passthrough, consume, redo, unknown, str,
  struct, scalar_kind,
}
use opensearch_proxy.Engine.SearchScan.Handlers.{
  at_seek_root, at_obj_expect_key, at_obj_expect_colon, at_obj_expect_value, at_skip_value,
  at_obj_expect_comma, at_arr_expect_elem, at_arr_expect_comma, keep, begin_elem,
}

pub record HitShaper : Type 0 where
  pub logical_index : Bytes
  pub partition : Bytes
  pub shape : ReadShape

-- `HitShaper::transform`; `parse` and `print` are `from_slice` and `to_vec` of serde_json.
module _ (parse : Bytes → Option Value) (print : Value → Option Bytes) (shaper : HitShaper) where
  abbrev pub printed_or_raw : Bytes → Option Bytes → Bytes
  printed_or_raw raw (some text) = text
  printed_or_raw raw none = raw

  abbrev pub parsed_or_raw : Bytes → Option Value → Bytes
  parsed_or_raw raw none = raw
  parsed_or_raw raw (some hit) =
      printed_or_raw raw (print (shape_hit hit shaper.logical_index shaper.partition shaper.shape))

  unfoldable pub transform : Bytes → Bytes
  transform raw = parsed_or_raw raw (parse raw)

-- `parse_string` is `from_slice` of serde_json at a string.
abbrev pub is_some_hits : Option Bytes → Bool
is_some_hits none = false
is_some_hits (some s) = s == ascii "hits"

unfoldable pub decoded_key_is_hits : (Bytes → Option Bytes) → Bytes → Bool
decoded_key_is_hits parse_string raw = is_some_hits (parse_string (b'"' ∷ (raw ++ (b'"' ∷ []))))

-- `transform` is how a framed hit is shaped, `is_hits` is `decoded_key_is_hits`.
module _ (transform : Bytes → Bytes) (is_hits : Bytes → Bool) where
  abbrev pub at_obj_read_key : Scanner → ℕ → Scanner
  at_obj_read_key s b =
      let s = push b s in
      if s.key_esc
      then record s { key_esc = false; key_buf = s.key_buf ++ (b ∷ []) }
      else if b == 92
      then record s { key_esc = true; key_buf = s.key_buf ++ (b ∷ []) }
      else if b == b'"'
      then record s { key_is_hits = is_hits s.key_buf; phase = obj_expect_colon }
      else record s { key_buf = s.key_buf ++ (b ∷ []) }

  -- `finish_elem`, and the phase behind an element
  abbrev pub finish_elem : Scanner → Scanner
  finish_elem s = record s {
    out = s.out ++ transform s.elem.buf;
    elem = record s.elem { buf = [] };
    phase = arr_expect_comma;
  }

  abbrev pub read_str_byte : Scanner → ℕ → Scanner
  read_str_byte s b =
      if s.elem.esc
      then to_elem (record s.elem { esc = false }) s
      else if b == 92
      then to_elem (record s.elem { esc = true }) s
      else if b == b'"'
      then finish_elem s
      else s

  abbrev pub read_struct_elem_byte : Scanner → ℕ → Scanner
  read_struct_elem_byte s b =
      if s.elem.in_str
      then (if s.elem.esc
          then to_elem (record s.elem { esc = false }) s
          else if b == 92
          then to_elem (record s.elem { esc = true }) s
          else if b == b'"'
          then to_elem (record s.elem { in_str = false }) s
          else s)
      else if b == b'"'
      then to_elem (record s.elem { in_str = true }) s
      else if opens b
      then to_elem (record s.elem { depth = deeper s.elem.depth }) s
      else if closes b
      then (let s = to_elem (record s.elem { depth = s.elem.depth - 1 }) s in
          if s.elem.depth == 0 then finish_elem s else s)
      else s

  abbrev pub read_kind : ElemKind → Scanner → ℕ → Scanner × Flow
  read_kind unknown s b = (record s { elem = begin_elem b (keep b s).elem }, consume)
  read_kind str s b = (read_str_byte (keep b s) b, consume)
  read_kind struct s b = (read_struct_elem_byte (keep b s) b, consume)
  read_kind scalar_kind s b =
      if is_ws b || ((b == b',') || (b == b']')) then (finish_elem s, redo) else (keep b s, consume)

  abbrev pub dispatch : Phase → Scanner → ℕ → Scanner × Flow
  dispatch seek_root s b = (at_seek_root s b, consume)
  dispatch obj_expect_key s b = (at_obj_expect_key s b, consume)
  dispatch obj_read_key s b = (at_obj_read_key s b, consume)
  dispatch obj_expect_colon s b = (at_obj_expect_colon s b, consume)
  dispatch obj_expect_value s b = (at_obj_expect_value s b, consume)
  dispatch skip_value s b = at_skip_value s b
  dispatch obj_expect_comma s b = (at_obj_expect_comma s b, consume)
  dispatch arr_expect_elem s b = at_arr_expect_elem s b
  dispatch arr_read_elem s b = read_kind s.elem.kind s b
  dispatch arr_expect_comma s b = (at_arr_expect_comma s b, consume)
  dispatch passthrough s b = (push b s, consume)

  abbrev pub flowed : (Scanner → Option Scanner) → Scanner × Flow → Option Scanner
  flowed again (s, consume) = some s
  flowed again (s, redo) = again s

  -- The loop of `step`: a phase that hands a byte on leads to one that consumes it, so two rounds are
  -- enough.
  unfoldable pub step_loop : ℕ → ℕ → Scanner → Option Scanner
  step_loop zero b s = none
  step_loop (suc fuel) b s = flowed (step_loop fuel b) (dispatch s.phase s b)

  unfoldable pub step : ℕ → Scanner → Option Scanner
  step b s = step_loop 2 b s

  abbrev pub is_passthrough : Phase → Bool
  is_passthrough passthrough = true
  is_passthrough _ = false

  abbrev pub then_step : (Scanner → Option Scanner) → Option Scanner → Option Scanner
  then_step rest none = none
  then_step rest (some s) = rest s

  -- The loop of `feed`, which copies the rest of a chunk behind the array at once.
  unfoldable pub feed_loop : Bytes → Scanner → Option Scanner
  feed_loop [] s = some s
  feed_loop (b ∷ chunk) s =
      let rest = then_step (λ s. feed_loop chunk s) (step b s) in
      if is_passthrough s.phase then some (record s { out = s.out ++ (b ∷ chunk) }) else rest

  abbrev pub drained : Option Scanner → Option (Scanner × Bytes)
  drained none = none
  drained (some s) = some (record s { out = [] }, s.out)

  unfoldable pub feed : Bytes → Scanner → Option (Scanner × Bytes)
  feed chunk s = drained (feed_loop chunk s)
