-- ===== src/Rewrite/Query.antt =====
-- crates/osproxy-rewrite/src/query.rs: the partition filter around the query of a search.
pub mod Global
pub mod Screening
pub mod Text
pub mod Enclosure
mod Tests
use opensearch_proxy.Prelude.{
  ℕ, Bool, true, false, ◌||◌, Option, none, some, List, [], ◌∷◌, ◌++◌, Result, ok, err, ◌>>=◌, ◌==◌,
  nat_eq, list_eq, is_some, if◌then◌else◌, ok_or, all,
}
use opensearch_proxy.Prelude.Map
use opensearch_proxy.Prelude.Map.{Entries}
use opensearch_proxy.Prelude.Bytes.{Bytes, ascii}
use opensearch_proxy.Prelude.Utf8.{from_utf8}
use opensearch_proxy.Core.Ids.{FieldName}
use opensearch_proxy.Core.Json.{Value, Fields, object, end, field, entries}
use opensearch_proxy.Rewrite.Failure
use opensearch_proxy.Rewrite.Failure.{RewriteError}
use opensearch_proxy.Rewrite.Ndjson.{is_ascii_whitespace}
use opensearch_proxy.Rewrite.Fields.{Injected}

abbrev pub Unit₀ : Type 0
Unit₀ = Unit

-- `contains_global_agg`, on an object, on one aggregation of it, and on what is nested below one.
unfoldable mutual
  unfolding Map.get

  pub contains_global_agg : Value → Bool
  contains_global_agg (object fs) = any_agg fs
  contains_global_agg _ = false

  pub any_agg : Fields → Bool
  any_agg end = false
  any_agg (field _ agg later) = is_global agg || any_agg later

  pub is_global : Value → Bool
  is_global (object fs) =
      is_some (Map.get (ascii "global") (entries fs))
      || (global_below (ascii "aggs") fs || global_below (ascii "aggregations") fs)
  is_global _ = false

  -- `agg.get(k)`, and the recursion on what it finds
  pub global_below : Bytes → Fields → Bool
  global_below k end = false
  global_below k (field j agg later) =
      let here = contains_global_agg agg in
      let rest = global_below k later in if j == k then here else rest

-- An object whose values are left as their bytes.
abbrev pub Top : Type 0
Top = Entries Bytes Bytes

-- What serde_json does: `parse_map` is `from_slice` at a map of raw values and `is_raw` whether it
-- succeeds at one raw value, `parse_value` is `from_slice` at a value; `term_text` is `to_writer` of an
-- object with one field, `raw_of` is `RawValue::from_string`, `print_map` is `to_vec` of the map.
pub record Serde : Type 0 where
  pub parse_map : Bytes → Option Top
  pub is_raw : Bytes → Bool
  pub parse_value : Bytes → Option Value
  pub term_text : FieldName → Value → Option Bytes
  pub raw_of : Bytes → Option Bytes
  pub print_map : Top → Option Bytes

abbrev pub judged : Value → Result Unit₀ RewriteError
judged aggs =
    if contains_global_agg aggs
    then err (Failure.unfilterable (ascii "global aggregation"))
    else ok tt

abbrev pub must_clause : Option Bytes → Bytes
must_clause (some raw) = b'[' ∷ (raw ++ (b']' ∷ []))
must_clause none = ascii "[]"

-- One round of the loop over the filter, behind what is written so far; `comma` stands for `i > 0`.
abbrev pub push_term : Bytes → Bytes → Bytes → Bytes
push_term q comma term = q ++ (comma ++ (ascii "{\"term\":" ++ (term ++ (b'}' ∷ []))))

abbrev pub with_query : Top → Bytes → Top
with_query top query = Map.insert (ascii "query") query (Map.remove (ascii "query") top)

module _ (serde : Serde) where
  abbrev parsed_or_error : Bytes → Option Top → Result Top RewriteError
  parsed_or_error body (some top) = ok top
  parsed_or_error body none =
      if serde.is_raw body then err Failure.not_an_object else err Failure.invalid_json

  unfoldable pub parse_top : Bytes → Result Top RewriteError
  parse_top body =
      if all is_ascii_whitespace body then ok [] else parsed_or_error body (serde.parse_map body)

  -- One round of the loop over `["aggs", "aggregations"]`.
  abbrev pub screened : Option Bytes → Result Unit₀ RewriteError
  screened none = ok tt
  screened (some raw) = ok_or (serde.parse_value raw) Failure.invalid_json >>= judged

  unfoldable pub reject_unfilterable : Top → Result Unit₀ RewriteError
  reject_unfilterable top =
      if is_some (Map.get (ascii "suggest") top)
      then err (Failure.unfilterable (ascii "suggest"))
      else (screened (Map.get (ascii "aggs") top) >>= λ _.
          screened (Map.get (ascii "aggregations") top))

  unfoldable pub push_terms : Bytes → Bytes → Injected → Result Bytes RewriteError
  push_terms q comma [] = ok q
  push_terms q comma ((name, value) ∷ filter) =
      ok_or (serde.term_text name value) Failure.invalid_json >>= λ term.
      push_terms (push_term q comma term) (b',' ∷ []) filter

  abbrev pub raw_query : Bytes → Result Bytes RewriteError
  raw_query q =
      if from_utf8 q then ok_or (serde.raw_of q) Failure.invalid_json else err Failure.invalid_json

  unfoldable pub build_filtered_query : Option Bytes → Injected → Result Bytes RewriteError
  build_filtered_query client_query filter =
      push_terms
        (ascii "{\"bool\":{\"must\":" ++ (must_clause client_query ++ ascii ",\"filter\":[")) []
        filter
      >>= λ q. raw_query (q ++ ascii "]}}")

  abbrev pub screen : Top → Injected → Result Unit₀ RewriteError
  screen top [] = ok tt
  screen top (f ∷ filter) = reject_unfilterable top

  unfoldable pub wrap_query : Bytes → Injected → Result Bytes RewriteError
  wrap_query body filter = parse_top body >>= λ top. screen top filter >>= λ _.
      build_filtered_query (Map.get (ascii "query") top) filter >>= λ query.
      ok_or (serde.print_map (with_query top query)) Failure.invalid_json
