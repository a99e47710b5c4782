-- ===== src/Rewrite/Query/Text.antt =====
-- crates/osproxy-rewrite/src/query.rs: the text of the query that `build_filtered_query` writes.
use opensearch_proxy.Prelude.{
  ◌≡◌, refl, ap, ◌∙◌, Option, none, some, List, [], ◌∷◌, ◌++◌, nat_eq, list_eq, append_assoc,
}
use opensearch_proxy.Prelude.Bytes.{Bytes, ascii}
use opensearch_proxy.Rewrite.Query.{must_clause, push_term}

-- The text of the filter: one term for each field.
abbrev pub terms_text : List Bytes → Bytes
terms_text [] = []
terms_text (term ∷ []) = ascii "{\"term\":" ++ (term ++ ascii "}")
terms_text (term ∷ next ∷ terms) =
    ascii "{\"term\":" ++ (term ++ (ascii "}," ++ terms_text (next ∷ terms)))

-- The query of the proxy: the query of the client as the only clause that must match, beside the filter.
abbrev pub enclosed : Option Bytes → List Bytes → Bytes
enclosed none terms =
    ascii "{\"bool\":{\"must\":[],\"filter\":[" ++ (terms_text terms ++ ascii "]}}")
enclosed (some query) terms =
    ascii "{\"bool\":{\"must\":["
    ++ (query ++ (ascii "],\"filter\":[" ++ (terms_text terms ++ ascii "]}}")))

-- The terms behind a comma, or at the start.
abbrev pub text_behind : Bytes → List Bytes → Bytes
text_behind comma [] = []
text_behind comma (term ∷ terms) =
    comma ++ (ascii "{\"term\":" ++ (term ++ (b'}' ∷ text_behind (ascii ",") terms)))

pub text_at_start : (terms : List Bytes) → text_behind [] terms ≡ terms_text terms
text_at_start [] = refl
text_at_start (term ∷ []) = refl
text_at_start (term ∷ next ∷ terms) =
    ap (λ t. ascii "{\"term\":" ++ (term ++ (ascii "}," ++ t))) (text_at_start (next ∷ terms))

pub push_behind :
    (q comma term behind : Bytes)
    → push_term q comma term ++ behind
      ≡ q ++ (comma ++ (ascii "{\"term\":" ++ (term ++ (b'}' ∷ behind))))
push_behind q comma term behind =
    append_assoc q (comma ++ (ascii "{\"term\":" ++ (term ++ (b'}' ∷ [])))) behind
    ∙ ap (λ t. q ++ t)
        (append_assoc comma (ascii "{\"term\":" ++ (term ++ (b'}' ∷ []))) behind
          ∙ ap (λ t. comma ++ (ascii "{\"term\":" ++ t)) (append_assoc term (b'}' ∷ []) behind))

-- What is handed to `RawValue::from_string`.
abbrev pub whole_query : Option Bytes → Bytes → Bytes
whole_query client behind =
    ((ascii "{\"bool\":{\"must\":" ++ (must_clause client ++ ascii ",\"filter\":[")) ++ behind)
    ++ ascii "]}}"

pub whole-enclosed :
    (client : Option Bytes) (terms : List Bytes)
    → whole_query client (terms_text terms) ≡ enclosed client terms
whole-enclosed none terms = refl
whole-enclosed (some query) terms =
    rw
      (
        append_assoc query (b']' ∷ []) (ascii ",\"filter\":["),
        append_assoc query (ascii "],\"filter\":[") (terms_text terms),
        append_assoc query (ascii "],\"filter\":[" ++ terms_text terms) (ascii "]}}"),
      )
      refl

-- The query is an object without space around it.
pub inside : Option Bytes → List Bytes → Bytes
inside none terms = ascii "\"bool\":{\"must\":[],\"filter\":[" ++ (terms_text terms ++ ascii "]}")
inside (some query) terms =
    ascii "\"bool\":{\"must\":["
    ++ (query ++ (ascii "],\"filter\":[" ++ (terms_text terms ++ ascii "]}")))

pub enclosed-inside :
    (client : Option Bytes) (terms : List Bytes)
    → enclosed client terms ≡ b'{' ∷ (inside client terms ++ ascii "}")
unfolding inside
enclosed-inside none terms = rw (append_assoc (terms_text terms) (ascii "]}") (ascii "}")) refl
enclosed-inside (some query) terms =
    rw
      (
        append_assoc query (ascii "],\"filter\":[" ++ (terms_text terms ++ ascii "]}")) (ascii "}"),
        append_assoc (terms_text terms) (ascii "]}") (ascii "}"),
      )
      refl
