-- ===== src/Rewrite/Query/Screening.antt =====
-- crates/osproxy-rewrite/src/query.rs: what a body is screened for.
use opensearch_proxy.Prelude.{
  ◌≡◌, refl, sym, ap, ◌∙◌, Bool, true, false, Option, none, some, [], ◌∷◌, Result, ok, err,
  bind-eq-ok, ok_or, nat_eq, list_eq, is_some, if◌then◌else◌,
}
use opensearch_proxy.Prelude.Map
use opensearch_proxy.Prelude.Map.{get-insert, get-remove}
use opensearch_proxy.Prelude.Bytes.{Bytes, ascii}
use opensearch_proxy.Core.Json.{Value}
use opensearch_proxy.Rewrite.Failure
use opensearch_proxy.Rewrite.Failure.{RewriteError}
use opensearch_proxy.Rewrite.Fields.{Injected}
use opensearch_proxy.Rewrite.Query.{
  Unit₀, Serde, contains_global_agg, Top, judged, screened, reject_unfilterable, screen,
}
use opensearch_proxy.Rewrite.Query.Global.{HasGlobal, contains_global_agg-HasGlobal}

pub ok_or-eq-ok : {A E : Type 0} (o : Option A) (e : E) (a : A) → ok_or o e ≡ ok a → o ≡ some a
ok_or-eq-ok none e a h = cc
ok_or-eq-ok (some b) e a h = let same : b ≡ a = cc in ap some same

module _ (serde : Serde) where
  -- Aggregations that are absent, or that parse and hold no global one.
  abbrev pub IsHarmless : Option Bytes → Type 0
  IsHarmless none = Unit
  IsHarmless (some raw) = (aggs : Value) × (serde.parse_value raw ≡ some aggs) × (¬ HasGlobal aggs)

  -- Nothing at the top level is evaluated outside the query, if there is a filter.
  abbrev pub IsScreened : Injected → Top → Type 0
  IsScreened [] top = Unit
  IsScreened (f ∷ filter) top =
      (Map.get (ascii "suggest") top ≡ none)
      × (IsHarmless (Map.get (ascii "aggs") top) × IsHarmless (Map.get (ascii "aggregations") top))

  not_refused :
      (b : Bool) (u : Unit₀)
      → ◌≡◌ {A = Result Unit₀ RewriteError}
          (if b then err (Failure.unfilterable (ascii "global aggregation")) else ok tt)
          (ok u)
      → b ≡ false
  not_refused true u h = cc
  not_refused false u h = refl

  without_global : (aggs : Value) → contains_global_agg aggs ≡ false → ¬ HasGlobal aggs
  without_global aggs h global =
      let wrong : false ≡ true = sym h ∙ (contains_global_agg-HasGlobal aggs).1 global in cc

  screened-IsHarmless : (o : Option Bytes) (u : Unit₀) → screened serde o ≡ ok u → IsHarmless o
  screened-IsHarmless none u h = tt
  screened-IsHarmless (some raw) u h =
      let (aggs, parsed, judged_so) =
        bind-eq-ok (ok_or (serde.parse_value raw) Failure.invalid_json) judged h in
      (
        aggs,
        ok_or-eq-ok (serde.parse_value raw) Failure.invalid_json aggs parsed,
        without_global aggs (not_refused (contains_global_agg aggs) u judged_so),
      )

  no_suggest :
      (o : Option Bytes) (rest : Result Unit₀ RewriteError) (u : Unit₀)
      → (if is_some o then err (Failure.unfilterable (ascii "suggest")) else rest) ≡ ok u
      → (o ≡ none) × (rest ≡ ok u)
  no_suggest none rest u h = (refl, h)
  no_suggest (some raw) rest u h = cc

  pub screen-IsScreened :
      (filter : Injected) (top : Top) (u : Unit₀)
      → screen serde top filter ≡ ok u
      → IsScreened filter top
  unfolding reject_unfilterable
  screen-IsScreened [] top u h = tt
  screen-IsScreened (f ∷ filter) top u h =
      let (suggest, rest) = no_suggest (Map.get (ascii "suggest") top) _ u h in
      let (v, aggs, aggregations) =
        bind-eq-ok (screened serde (Map.get (ascii "aggs") top)) _ rest in
      (
        suggest,
        (
          screened-IsHarmless (Map.get (ascii "aggs") top) v aggs,
          screened-IsHarmless (Map.get (ascii "aggregations") top) u aggregations,
        ),
      )
