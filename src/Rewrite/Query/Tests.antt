-- ===== src/Rewrite/Query/Tests.antt =====
-- Runs of the filter around a search of crates/osproxy-rewrite.
use opensearch_proxy.Prelude.{
  ◌≡◌, ◌↔◌, refl, sym, ap, true, Option, none, some, [], ◌∷◌, ◌++◌, ok, ◌==◌, nat_eq, list_eq,
  pair_eq, eq_sound, if◌then◌else◌, Bool-cases, inl, inr,
}
use opensearch_proxy.Prelude.Map
use opensearch_proxy.Prelude.Bytes.{Bytes, ascii}
use opensearch_proxy.Prelude.Utf8.{from_utf8}
use opensearch_proxy.Core.Json.{Value, string, object, end, field}
use opensearch_proxy.Rewrite.Fields.{Injected}
use opensearch_proxy.Rewrite.Query.{
  Serde, Top, contains_global_agg, reject_unfilterable, push_terms, build_filtered_query, parse_top,
  wrap_query,
}
use opensearch_proxy.Rewrite.Query.Global.{HasGlobal, contains_global_agg-HasGlobal}
use opensearch_proxy.Rewrite.Query.Enclosure.{SerdeLaws, IsEnclosed, wrap_query-IsEnclosed}

-- A library that knows one body, one term and one wrapped body.
abbrev term : Bytes
term = ascii "{\"_tenant\":\"acme\"}"

abbrev wrapped_top : Top
wrapped_top =
    (
      ascii "query",
      ascii "{\"bool\":{\"must\":[{\"a\":1}],\"filter\":[{\"term\":{\"_tenant\":\"acme\"}}]}}",
    )
    ∷ (ascii "size", ascii "5")
    ∷ []

abbrev wrapped_text : Bytes
wrapped_text = ascii "wrapped"

abbrev client_top : Top
client_top = (ascii "query", ascii "{\"a\":1}") ∷ (ascii "size", ascii "5") ∷ []

abbrev small_parse : Bytes → Option Top
small_parse s = if s == wrapped_text then some wrapped_top else some client_top

abbrev small_print : Top → Option Bytes
small_print top = if top == wrapped_top then some wrapped_text else none

abbrev small : Serde
small = record {
  parse_map = small_parse;
  is_raw = λ _. true;
  parse_value = λ _. none;
  term_text = λ _ _. some term;
  raw_of = λ s. some s;
  print_map = small_print;
}

printed_once :
    (top : Top) (out : Bytes)
    → small_print top ≡ some out
    → (top ≡ wrapped_top) × (out ≡ wrapped_text)
printed_once top out h = elim (Bool-cases (top == wrapped_top)) [
  | inl same ↦
      let text : some wrapped_text ≡ some out = rw same at h in
      (eq_sound top wrapped_top same, (let t : wrapped_text ≡ out = cc in sym t))
  | inr other ↦ let wrong : ◌≡◌ {A = Option Bytes} none (some out) = rw other at h in cc
]

small-SerdeLaws : SerdeLaws small
small-SerdeLaws = record {
  map_reads_back = λ top out h.
      let (same, text) = printed_once top out h in
      (wrapped_top, ap small_parse text, λ k. sym (ap (Map.get k) same));
  object_kept = λ inner raw h. (let same : b'{' ∷ (inner ++ ascii "}") ≡ raw = cc in sym same);
}

abbrev tenant_filter : Injected
tenant_filter = (ascii "_tenant", string (ascii "acme")) ∷ []

client_body_wrapped : wrap_query small (ascii "{}") tenant_filter ≡ ok wrapped_text
unfolding wrap_query parse_top reject_unfilterable build_filtered_query push_terms Map.get
    Map.insert Map.remove from_utf8
client_body_wrapped = refl

wrap_query-IsEnclosed_example :
    (top : Top) × (parse_top small (ascii "{}") ≡ ok top)
    × IsEnclosed small tenant_filter (ascii "size") top wrapped_text
wrap_query-IsEnclosed_example =
    wrap_query-IsEnclosed small (ascii "{}") wrapped_text (ascii "size") tenant_filter
      small-SerdeLaws refl client_body_wrapped

-- A global aggregation below another one.
abbrev buried : Value
buried = object (
    field (ascii "by_day")
      (object (
        field (ascii "aggs")
          (object (field (ascii "all") (object (field (ascii "global") (object end) end)) end))
          end))
      end)

buried_found : contains_global_agg buried ≡ true
unfolding contains_global_agg Map.get
buried_found = refl

contains_global_agg-HasGlobal_example : (contains_global_agg buried ≡ true) ↔ HasGlobal buried
contains_global_agg-HasGlobal_example = contains_global_agg-HasGlobal buried
