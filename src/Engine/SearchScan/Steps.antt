-- ===== src/Engine/SearchScan/Steps.antt =====
-- crates/osproxy-engine/src/search_scan.rs: every handler forwards, keeps or replaces.
use opensearch_proxy.Prelude.{
  ℕ, ◌-◌, ◌≡◌, refl, sym, ap, ◌∙◌, Bool, true, false, not, ◌||◌, [], ◌∷◌, ◌++◌, ◌==◌, nat_eq,
  if◌then◌else◌, arith,
}
use opensearch_proxy.Prelude.Bytes.{Bytes}
use opensearch_proxy.Engine.SearchScan.State.{
  Elem, to_elem, opens, closes, Phase, seek_root, obj_expect_key, obj_read_key, obj_expect_colon,
  obj_expect_value, skip_value, obj_expect_comma, arr_expect_elem, arr_read_elem, arr_expect_comma,
  passthrough, Flow, consume, redo, ElemKind, unknown, str, struct, scalar_kind, Scanner, push,
  is_ws,
}
use opensearch_proxy.Engine.SearchScan.Handlers.{
  at_seek_root, at_obj_expect_key, at_obj_expect_colon, at_obj_expect_value, skip_in_string,
  skip_nested, at_skip_value, at_obj_expect_comma, at_arr_expect_elem, at_arr_expect_comma, keep,
  begin_elem,
}
use opensearch_proxy.Engine.SearchScan.Machine.{
  at_obj_read_key, finish_elem, read_str_byte, read_struct_elem_byte, read_kind, dispatch,
}
use opensearch_proxy.Engine.SearchScan.Forwarding.{
  framing, pending, Tracks, passed_on, kept, finished, handed_on,
}

either : {A : Type 0} (P : A → Type 0) (c : Bool) (x y : A) → P x → P y → P (if c then x else y)
either P true x y px py = px
either P false x y px py = py

-- The byte is passed on, and no hit is being framed.
record IsPassed (s : Scanner) (b : ℕ) (t : Scanner) : Type 0 where
  out : t.out ≡ s.out ++ (b ∷ [])
  quiet : pending t ≡ []

module _ (s : Scanner) (b : ℕ) (quiet : pending s ≡ []) where
  root-IsPassed : IsPassed s b (at_seek_root s b)
  root-IsPassed = record { out = ground arith; quiet = ground arith }

  key-IsPassed : IsPassed s b (at_obj_expect_key s b)
  key-IsPassed = record { out = ground arith; quiet = ground arith }

  colon-IsPassed : IsPassed s b (at_obj_expect_colon s b)
  colon-IsPassed = record { out = ground arith; quiet = ground arith }

  value-IsPassed : IsPassed s b (at_obj_expect_value s b)
  value-IsPassed = record { out = ground arith; quiet = ground arith }

  comma-IsPassed : IsPassed s b (at_obj_expect_comma s b)
  comma-IsPassed = record { out = ground arith; quiet = ground arith }

  array_comma-IsPassed : IsPassed s b (at_arr_expect_comma s b)
  array_comma-IsPassed = record { out = ground arith; quiet = ground arith }

  in_string-IsPassed : IsPassed s b (skip_in_string (push b s) b)
  in_string-IsPassed = record { out = ground arith; quiet = ground arith }

  nested-IsPassed : IsPassed s b (skip_nested (push b s) b)
  nested-IsPassed = record { out = ground arith; quiet = ground arith }

  read_key-IsPassed :
      (transform : Bytes → Bytes) (is_hits : Bytes → Bool)
      → IsPassed s b (at_obj_read_key transform is_hits s b)
  read_key-IsPassed transform is_hits = record { out = ground arith; quiet = ground arith }

-- What a handler does to the invariant: a byte that is consumed has come in, and one that is handed on has
-- not, and meets a phase that consumes it.
abbrev pub ready : Phase → ElemKind → Bool
ready obj_expect_comma kind = true
ready arr_expect_comma kind = true
ready arr_read_elem unknown = true
ready _ _ = false

module _ (transform : Bytes → Bytes) (is_hits : Bytes → Bool) where
  abbrev pub IsStep : Bytes → Bytes → ℕ → Scanner × Flow → Type 0
  IsStep input sent b (t, consume) = Tracks transform (input ++ (b ∷ [])) sent t
  IsStep input sent b (t, redo) = Tracks transform input sent t × (ready t.phase t.elem.kind ≡ true)

  module _ (input sent : Bytes) (b : ℕ) (s : Scanner) (h : Tracks transform input sent s) where
    passed-Tracks :
        (t : Scanner)
        → pending s ≡ []
        → IsPassed s b t
        → Tracks transform (input ++ (b ∷ [])) sent t
    passed-Tracks t quiet p = passed_on transform input sent b s t h quiet p.out p.quiet

    skip-IsStep : pending s ≡ [] → IsStep input sent b (at_skip_value s b)
    skip-IsStep quiet =
        either (IsStep input sent b) s.skip.in_str _ _
          (passed-Tracks _ quiet (in_string-IsPassed s b quiet))
          (either (IsStep input sent b) (not (s.skip.depth == 0)) _ _
            (passed-Tracks _ quiet (nested-IsPassed s b quiet))
            (either (IsStep input sent b) (is_ws b || ((b == b',') || (b == b'}'))) _ _
              (handed_on transform input sent s _ h refl (sym quiet), refl)
              (passed-Tracks _ quiet (record { out = refl; quiet = quiet }))))

    elem-IsStep : pending s ≡ [] → IsStep input sent b (at_arr_expect_elem s b)
    elem-IsStep quiet =
        either (IsStep input sent b) (is_ws b) _ _
          (passed-Tracks _ quiet (record { out = refl; quiet = quiet }))
          (either (IsStep input sent b) (b == b']') _ _
            (passed-Tracks _ quiet (record { out = refl; quiet = refl }))
            (handed_on transform input sent s _ h refl (sym quiet), refl))

  -- A hit that is being framed.
  module _ (input sent : Bytes) (b : ℕ) (u : Scanner) (h : Tracks transform input sent u)
      (framed : u.phase ≡ arr_read_elem) where
    end-Tracks : Tracks transform input sent (finish_elem transform is_hits u)
    end-Tracks =
        finished transform input sent u _ h
          (ap (λ p. u.out ++ transform (framing p u.elem.buf)) (sym framed)) refl

    str-Tracks : Tracks transform input sent (read_str_byte transform is_hits u b)
    str-Tracks =
        either (Tracks transform input sent) u.elem.esc _ _
          (handed_on transform input sent u _ h refl refl)
          (either (Tracks transform input sent) (b == 92) _ _
            (handed_on transform input sent u _ h refl refl)
            (either (Tracks transform input sent) (b == b'"') _ _ end-Tracks h))

  module _ (input sent : Bytes) (b : ℕ) (u : Scanner) (h : Tracks transform input sent u)
      (framed : u.phase ≡ arr_read_elem) where
    closed-Tracks : Tracks transform input sent (
        let v = to_elem (record u.elem { depth = u.elem.depth - 1 }) u in
        if v.elem.depth == 0 then finish_elem transform is_hits v else v)
    closed-Tracks =
        let v = to_elem (record u.elem { depth = u.elem.depth - 1 }) u in
        let same = handed_on transform input sent u v h refl refl in
        either (Tracks transform input sent) (u.elem.depth - 1 == 0) _ _
          (end-Tracks input sent b v same framed) same

    struct-Tracks : Tracks transform input sent (read_struct_elem_byte transform is_hits u b)
    struct-Tracks =
        either (Tracks transform input sent) u.elem.in_str _ _
          (either (Tracks transform input sent) u.elem.esc _ _
            (handed_on transform input sent u _ h refl refl)
            (either (Tracks transform input sent) (b == 92) _ _
              (handed_on transform input sent u _ h refl refl)
              (either (Tracks transform input sent) (b == b'"') _ _
                (handed_on transform input sent u _ h refl refl) h)))
          (either (Tracks transform input sent) (b == b'"') _ _
            (handed_on transform input sent u _ h refl refl)
            (either (Tracks transform input sent) (opens b) _ _
              (handed_on transform input sent u _ h refl refl)
              (either (Tracks transform input sent) (closes b) _ _ closed-Tracks h)))

  module _ (input sent : Bytes) (b : ℕ) (s : Scanner) (h : Tracks transform input sent s)
      (framed : s.phase ≡ arr_read_elem) where
    in_hit : (buf : Bytes) → framing s.phase buf ≡ buf
    in_hit buf = ap (λ p. framing p buf) framed

    keep-Tracks :
        (t : Scanner)
        → t.out ≡ s.out
        → t.phase ≡ s.phase
        → t.elem.buf ≡ s.elem.buf ++ (b ∷ [])
        → Tracks transform (input ++ (b ∷ [])) sent t
    keep-Tracks t out same buf = kept transform input sent b s t h out (
        ap (λ p. framing p t.elem.buf) same
        ∙ (in_hit t.elem.buf ∙ (buf ∙ ap (λ i. i ++ (b ∷ [])) (sym (in_hit s.elem.buf)))))

    begin_elem-buf : (e : Elem) → (begin_elem b e).buf ≡ e.buf
    begin_elem-buf e = ground arith

    kind-IsStep : (k : ElemKind) → IsStep input sent b (read_kind transform is_hits k s b)
    kind-IsStep unknown = keep-Tracks _ refl refl (begin_elem-buf (keep b s).elem)
    kind-IsStep str =
        str-Tracks (input ++ (b ∷ [])) sent b (keep b s) (keep-Tracks (keep b s) refl refl refl)
          framed
    kind-IsStep struct =
        struct-Tracks (input ++ (b ∷ [])) sent b (keep b s) (keep-Tracks (keep b s) refl refl refl)
          framed
    kind-IsStep scalar_kind =
        either (IsStep input sent b) (is_ws b || ((b == b',') || (b == b']'))) _ _
          (end-Tracks input sent b s h framed, refl) (keep-Tracks (keep b s) refl refl refl)

  module _ (input sent : Bytes) (b : ℕ) (s : Scanner) (h : Tracks transform input sent s) where
    consumed : (t : Scanner) → pending s ≡ [] → IsPassed s b t → IsStep input sent b (t, consume)
    consumed t quiet p = passed-Tracks input sent b s h t quiet p

    pub dispatch-IsStep :
        (p : Phase) → s.phase ≡ p → IsStep input sent b (dispatch transform is_hits p s b)
    dispatch-IsStep seek_root e =
        let quiet : pending s ≡ [] = ap (λ p. framing p s.elem.buf) e in
        consumed _ quiet (root-IsPassed s b quiet)
    dispatch-IsStep obj_expect_key e =
        let quiet : pending s ≡ [] = ap (λ p. framing p s.elem.buf) e in
        consumed _ quiet (key-IsPassed s b quiet)
    dispatch-IsStep obj_read_key e =
        let quiet : pending s ≡ [] = ap (λ p. framing p s.elem.buf) e in
        consumed _ quiet (read_key-IsPassed s b quiet transform is_hits)
    dispatch-IsStep obj_expect_colon e =
        let quiet : pending s ≡ [] = ap (λ p. framing p s.elem.buf) e in
        consumed _ quiet (colon-IsPassed s b quiet)
    dispatch-IsStep obj_expect_value e =
        let quiet : pending s ≡ [] = ap (λ p. framing p s.elem.buf) e in
        consumed _ quiet (value-IsPassed s b quiet)
    dispatch-IsStep skip_value e = skip-IsStep input sent b s h (ap (λ p. framing p s.elem.buf) e)
    dispatch-IsStep obj_expect_comma e =
        let quiet : pending s ≡ [] = ap (λ p. framing p s.elem.buf) e in
        consumed _ quiet (comma-IsPassed s b quiet)
    dispatch-IsStep arr_expect_elem e =
        elem-IsStep input sent b s h (ap (λ p. framing p s.elem.buf) e)
    dispatch-IsStep arr_read_elem e = kind-IsStep input sent b s h e s.elem.kind
    dispatch-IsStep arr_expect_comma e =
        let quiet : pending s ≡ [] = ap (λ p. framing p s.elem.buf) e in
        consumed _ quiet (array_comma-IsPassed s b quiet)
    dispatch-IsStep passthrough e =
        let quiet : pending s ≡ [] = ap (λ p. framing p s.elem.buf) e in
        consumed _ quiet (record { out = refl; quiet = quiet })
