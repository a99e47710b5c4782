-- ===== src/Engine/SearchScan/Handlers.antt =====
-- crates/osproxy-engine/src/search_scan.rs: what the scanner does with a byte outside keys and hits.
use opensearch_proxy.Prelude.{
  ℕ, ◌-◌, true, false, not, ◌&&◌, ◌||◌, [], ◌∷◌, ◌++◌, ◌==◌, nat_eq, list_eq, if◌then◌else◌,
}
use opensearch_proxy.Engine.SearchScan.State.{
  deeper, Flow, opens, closes, begin_skip, Elem, new_elem, Scanner, is_ws, push, go_to,
  obj_expect_key, obj_read_key, obj_expect_value, skip_value, obj_expect_comma, arr_expect_elem,
  arr_read_elem, passthrough, consume, redo, str, struct, scalar_kind,
}

abbrev pub at_seek_root : Scanner → ℕ → Scanner
at_seek_root s b =
    let s = push b s in
    if b == b'{'
    then record s { level = 1; phase = obj_expect_key }
    else if not (is_ws b)
    then go_to passthrough s
    else s

abbrev pub at_obj_expect_key : Scanner → ℕ → Scanner
at_obj_expect_key s b =
    let s = push b s in
    if b == b'"'
    then record s { key_buf = []; key_esc = false; phase = obj_read_key }
    else if not (is_ws b)
    then go_to passthrough s
    else s

abbrev pub at_obj_expect_colon : Scanner → ℕ → Scanner
at_obj_expect_colon s b =
    let s = push b s in
    if b == b':' then go_to obj_expect_value s else if not (is_ws b) then go_to passthrough s else s

-- The value of a key `hits`, by the level and the first byte.
abbrev pub at_hits : Scanner → ℕ → Scanner
at_hits s b =
    if (s.level == 1) && (b == b'{')
    then record s { level = 2; phase = obj_expect_key }
    else if (s.level == 2) && (b == b'[')
    then go_to arr_expect_elem s
    else go_to passthrough s

abbrev pub at_obj_expect_value : Scanner → ℕ → Scanner
at_obj_expect_value s b =
    let s = push b s in
    if is_ws b
    then s
    else if s.key_is_hits
    then at_hits s b
    else record s { skip = begin_skip b; phase = skip_value }

abbrev pub skip_in_string : Scanner → ℕ → Scanner
skip_in_string s b =
    if s.skip.esc
    then record s { skip = record s.skip { esc = false } }
    else if b == 92
    then record s { skip = record s.skip { esc = true } }
    else if b == b'"'
    then record s {
      skip = record s.skip { in_str = false };
      phase = (if s.skip.depth == 0 then obj_expect_comma else s.phase);
    }
    else s

abbrev pub skip_nested : Scanner → ℕ → Scanner
skip_nested s b =
    if b == b'"'
    then record s { skip = record s.skip { in_str = true } }
    else if opens b
    then record s { skip = record s.skip { depth = deeper s.skip.depth } }
    else if closes b
    then record s {
      skip = record s.skip { depth = s.skip.depth - 1 };
      phase = (if s.skip.depth - 1 == 0 then obj_expect_comma else s.phase);
    }
    else s

abbrev pub at_skip_value : Scanner → ℕ → Scanner × Flow
at_skip_value s b =
    if s.skip.in_str
    then (skip_in_string (push b s) b, consume)
    else if not (s.skip.depth == 0)
    then (skip_nested (push b s) b, consume)
    else if is_ws b || ((b == b',') || (b == b'}'))
    then (go_to obj_expect_comma s, redo)
    else (push b s, consume)

abbrev pub at_obj_expect_comma : Scanner → ℕ → Scanner
at_obj_expect_comma s b =
    let s = push b s in
    if b == b',' then go_to obj_expect_key s else if not (is_ws b) then go_to passthrough s else s

abbrev pub at_arr_expect_elem : Scanner → ℕ → Scanner × Flow
at_arr_expect_elem s b =
    if is_ws b
    then (push b s, consume)
    else if b == b']'
    then (go_to passthrough (push b s), consume)
    else (record s { elem = new_elem; phase = arr_read_elem }, redo)

abbrev pub at_arr_expect_comma : Scanner → ℕ → Scanner
at_arr_expect_comma s b =
    let s = push b s in
    if b == b',' then go_to arr_expect_elem s else if not (is_ws b) then go_to passthrough s else s

-- `self.elem.buf.push(b)`
abbrev pub keep : ℕ → Scanner → Scanner
keep b s = record s { elem = record s.elem { buf = s.elem.buf ++ (b ∷ []) } }

-- What a first byte makes of an element.
abbrev pub begin_elem : ℕ → Elem → Elem
begin_elem b e =
    if b == b'"'
    then record e { in_str = true; kind = str }
    else if opens b
    then record e { depth = 1; kind = struct }
    else record e { kind = scalar_kind }
