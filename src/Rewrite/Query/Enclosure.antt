-- ===== src/Rewrite/Query/Enclosure.antt =====
-- crates/osproxy-rewrite/src/query.rs: what the body says that `wrap_query` answers.
use opensearch_proxy.Prelude.{
  ◌≡◌, refl, sym, ap, ◌∙◌, Bool, true, false, Option, some, List, [], ◌∷◌, ◌++◌, Result, ok, err,
  bind-eq-ok, ok_or, ◌==◌, nat_eq, list_eq, if◌then◌else◌, append-nil,
}
use opensearch_proxy.Prelude.Map
use opensearch_proxy.Prelude.Map.{get-insert, get-remove}
use opensearch_proxy.Prelude.Bytes.{Bytes, ascii}
use opensearch_proxy.Prelude.Utf8.{from_utf8}
use opensearch_proxy.Rewrite.Failure
use opensearch_proxy.Rewrite.Failure.{RewriteError}
use opensearch_proxy.Rewrite.Fields.{Injected}
use opensearch_proxy.Rewrite.Query.{
  Serde, Top, parse_top, must_clause, push_term, push_terms, build_filtered_query, screen,
  with_query, wrap_query,
}
use opensearch_proxy.Rewrite.Query.Screening.{IsScreened, ok_or-eq-ok, screen-IsScreened}
use opensearch_proxy.Rewrite.Query.Text.{
  enclosed, text_behind, text_at_start, push_behind, whole_query, whole-enclosed, inside,
  enclosed-inside,
}

-- What the code relies on: a map that is printed reads back with the same entries, and a raw value keeps
-- a text that has no whitespace around it.
pub record SerdeLaws (serde : Serde) : Type 0 where
  pub map_reads_back :
      (top : Top) (out : Bytes)
      → serde.print_map top ≡ some out
      → (read : Top) × (serde.parse_map out ≡ some read)
        × ((k : Bytes) → Map.get k read ≡ Map.get k top)
  pub object_kept :
      (inner raw : Bytes)
      → serde.raw_of (b'{' ∷ (inner ++ ascii "}")) ≡ some raw
      → raw ≡ b'{' ∷ (inner ++ ascii "}")

module _ (serde : Serde) where
  -- The terms are the texts of the fields, in order.
  abbrev pub AreTerms : Injected → List Bytes → Type 0
  AreTerms [] [] = Unit
  AreTerms ((name, value) ∷ filter) (term ∷ terms) =
      (serde.term_text name value ≡ some term) × AreTerms filter terms
  AreTerms _ _ = ⊥

raw_text :
    (b : Bool) (o : Option Bytes) (raw : Bytes)
    → ◌≡◌ {A = Result Bytes RewriteError}
        (if b then ok_or o Failure.invalid_json else err Failure.invalid_json)
        (ok raw)
    → o ≡ some raw
raw_text true o raw h = ok_or-eq-ok o Failure.invalid_json raw h
raw_text false o raw h = cc

query_bound : (top : Top) (raw : Bytes) → Map.get (ascii "query") (with_query top raw) ≡ some raw
query_bound top raw =
    get-insert (ascii "query") (ascii "query") raw (Map.remove (ascii "query") top)

other_kept :
    (k : Bytes) (top : Top) (raw : Bytes)
    → (ascii "query" == k) ≡ false
    → Map.get k (with_query top raw) ≡ Map.get k top
other_kept k top raw h =
    rw
      (
        get-insert (ascii "query") k raw (Map.remove (ascii "query") top),
        h,
        get-remove (ascii "query") k top,
        h,
      )
      refl

module _ (serde : Serde) where
  pushed_terms :
      (q comma : Bytes) (filter : Injected) (out : Bytes)
      → push_terms serde q comma filter ≡ ok out
      → (terms : List Bytes) × AreTerms serde filter terms × (out ≡ q ++ text_behind comma terms)
  unfolding push_terms
  pushed_terms q comma [] out h = let same : q ≡ out = cc in ([], tt, sym same ∙ sym (append-nil q))
  pushed_terms q comma ((name, value) ∷ filter) out h =
      let (term, printed, later) =
        bind-eq-ok (ok_or (serde.term_text name value) Failure.invalid_json) _ h in
      let (terms, are, same) = pushed_terms (push_term q comma term) (b',' ∷ []) filter out later in
      (
        term ∷ terms,
        (ok_or-eq-ok _ Failure.invalid_json term printed, are),
        same ∙ push_behind q comma term (text_behind (b',' ∷ []) terms),
      )

  built-enclosed :
      (client : Option Bytes) (filter : Injected) (raw : Bytes)
      → SerdeLaws serde
      → build_filtered_query serde client filter ≡ ok raw
      → (terms : List Bytes) × AreTerms serde filter terms × (raw ≡ enclosed client terms)
  unfolding build_filtered_query
  built-enclosed client filter raw laws h =
      let (q, pushed, checked) =
        bind-eq-ok
          (push_terms serde
            (ascii "{\"bool\":{\"must\":" ++ (must_clause client ++ ascii ",\"filter\":[")) []
            filter)
          _ h in
      let (terms, are, text) =
        pushed_terms (ascii "{\"bool\":{\"must\":" ++ (must_clause client ++ ascii ",\"filter\":["))
          [] filter q pushed in
      let kept =
        raw_text (from_utf8 (q ++ ascii "]}}")) (serde.raw_of (q ++ ascii "]}}")) raw checked in
      let shape : q ++ ascii "]}}" ≡ b'{' ∷ (inside client terms ++ ascii "}") =
        ap (λ t. t ++ ascii "]}}") text
        ∙ (ap (whole_query client) (text_at_start terms)
            ∙ (whole-enclosed client terms ∙ enclosed-inside client terms)) in
      (
        terms,
        are,
        laws.object_kept (inside client terms) raw (sym (ap serde.raw_of shape) ∙ kept)
            ∙ sym (enclosed-inside client terms),
      )

  -- What the new body says.
  pub record IsEnclosed (filter : Injected) (k : Bytes) (top : Top) (out : Bytes) : Type 0 where
    terms : List Bytes
    are_terms : AreTerms serde filter terms
    read : Top
    parsed : serde.parse_map out ≡ some read
    query : Map.get (ascii "query") read ≡ some (enclosed (Map.get (ascii "query") top) terms)
    sibling : Map.get k read ≡ Map.get k top
    screened : IsScreened serde filter top

  -- A search that is wrapped reads back with the query of the proxy, in which the query of the client is
  -- the one clause that must match and the filter holds a term for each field; every other key reads
  -- as in the body of the client; and if there is a filter, the client's body has no suggestions, and no
  -- aggregation of it is global at any depth. What serde_json prints, it reads back.
  pub wrap_query-IsEnclosed :
      (body out k : Bytes) (filter : Injected)
      → SerdeLaws serde
      → (ascii "query" == k) ≡ false
      → wrap_query serde body filter ≡ ok out
      → (top : Top) × (parse_top serde body ≡ ok top) × IsEnclosed filter k top out
  unfolding wrap_query
  wrap_query-IsEnclosed body out k filter laws other h =
      let (top, parsed, h) = bind-eq-ok (parse_top serde body) _ h in
      let (u, passed, h) = bind-eq-ok (screen serde top filter) _ h in
      let (raw, built, h) =
        bind-eq-ok (build_filtered_query serde (Map.get (ascii "query") top) filter) _ h in
      let (terms, are, text) = built-enclosed (Map.get (ascii "query") top) filter raw laws built in
      let (read, reads, same) =
        laws.map_reads_back (with_query top raw) out
          (ok_or-eq-ok (serde.print_map (with_query top raw)) Failure.invalid_json out h) in
      (
        top,
        parsed,
        record {
          terms = terms;
          are_terms = are;
          read = read;
          parsed = reads;
          query = same (ascii "query") ∙ (query_bound top raw ∙ ap some text);
          sibling = same k ∙ other_kept k top raw other;
          screened = screen-IsScreened serde filter top u passed;
        },
      )
