-- ===== src/Engine/SearchScan/Streaming.antt =====
-- crates/osproxy-engine/src/search_scan.rs: a response in any chunks.
use opensearch_proxy.Prelude.{
  ℕ, ◌≡◌, refl, sym, ap, subst, ◌∙◌, Bool, true, Option, none, some, List, [], ◌∷◌, ◌++◌,
  append_assoc, append-nil, Bool-cases, inl, inr,
}
use opensearch_proxy.Prelude.Bytes.{Bytes}
use opensearch_proxy.Engine.SearchScan.State.{
  Phase, seek_root, obj_expect_key, obj_read_key, obj_expect_colon, obj_expect_value, skip_value,
  obj_expect_comma, arr_expect_elem, arr_read_elem, arr_expect_comma, passthrough, str, struct,
  scalar_kind, Flow, consume, redo, ElemKind, unknown, Scanner, new_scanner, push,
}
use opensearch_proxy.Engine.SearchScan.Machine.{
  read_kind, dispatch, flowed, step_loop, step, is_passthrough, then_step, feed_loop, drained, feed,
}
use opensearch_proxy.Engine.SearchScan.Forwarding.{
  Forwarded, nothing, framing, pending, Tracks, passed_on, handed_on,
}
use opensearch_proxy.Engine.SearchScan.Steps.{ready, IsStep, dispatch-IsStep}

module _ (transform : Bytes → Bytes) (is_hits : Bytes → Bool) where
  -- A state that is reached, and tracks what came in.
  abbrev pub Reaches : Bytes → Bytes → Option Scanner → Type 0
  Reaches input sent none = ⊥
  Reaches input sent (some s) = Tracks transform input sent s

  -- A phase that a byte is handed to consumes it.
  ready_consumes :
      (b : ℕ) (t : Scanner) (p : Phase) (k : ElemKind)
      → t.elem.kind ≡ k
      → ready p k ≡ true
      → (dispatch transform is_hits p t b).1 ≡ consume
  ready_consumes b t obj_expect_comma k kind r = refl
  ready_consumes b t arr_expect_comma k kind r = refl
  ready_consumes b t arr_read_elem unknown kind r =
      ap (λ k. (read_kind transform is_hits k t b).1) kind
  ready_consumes b t arr_read_elem str kind r = cc
  ready_consumes b t arr_read_elem struct kind r = cc
  ready_consumes b t arr_read_elem scalar_kind kind r = cc
  ready_consumes b t seek_root k kind r = cc
  ready_consumes b t obj_expect_key k kind r = cc
  ready_consumes b t obj_read_key k kind r = cc
  ready_consumes b t obj_expect_colon k kind r = cc
  ready_consumes b t obj_expect_value k kind r = cc
  ready_consumes b t skip_value k kind r = cc
  ready_consumes b t arr_expect_elem k kind r = cc
  ready_consumes b t passthrough k kind r = cc

  second_round :
      (input sent : Bytes) (b : ℕ) (x : Scanner × Flow)
      → IsStep transform is_hits input sent b x
      → x.1 ≡ consume
      → Reaches
          (input ++ (b ∷ []))
          sent
          (flowed transform is_hits (step_loop transform is_hits 0 b) x)
  second_round input sent b (t, consume) h c = h
  second_round input sent b (t, redo) h c = absurd (no_redo c)
    where
      no_redo : redo ≡ consume → ⊥
      no_redo c = cc

  first_round :
      (input sent : Bytes) (b : ℕ) (x : Scanner × Flow)
      → IsStep transform is_hits input sent b x
      → Reaches
          (input ++ (b ∷ []))
          sent
          (flowed transform is_hits (step_loop transform is_hits 1 b) x)
  unfolding step_loop
  first_round input sent b (t, consume) h = h
  first_round input sent b (t, redo) (h, r) =
      second_round input sent b (dispatch transform is_hits t.phase t b)
        (dispatch-IsStep transform is_hits input sent b t h t.phase refl)
        (ready_consumes b t t.phase t.elem.kind refl r)

  step-Reaches :
      (input sent : Bytes) (b : ℕ) (s : Scanner)
      → Tracks transform input sent s
      → Reaches (input ++ (b ∷ [])) sent (step transform is_hits b s)
  unfolding step step_loop
  step-Reaches input sent b s h =
      first_round input sent b (dispatch transform is_hits s.phase s b)
        (dispatch-IsStep transform is_hits input sent b s h s.phase refl)

  -- Bytes that are copied at once behind the array.
  copied :
      (input sent chunk : Bytes) (s : Scanner)
      → s.phase ≡ passthrough
      → Tracks transform input sent s
      → Tracks transform (input ++ chunk) sent (record s { out = s.out ++ chunk })
  copied input sent [] s at h =
      subst (λ i. Tracks transform i sent (record s { out = s.out ++ [] })) (sym (append-nil input))
        (handed_on transform input sent s _ h (append-nil s.out) refl)
  copied input sent (b ∷ chunk) s at h =
      let quiet : pending s ≡ [] = ap (λ p. framing p s.elem.buf) at in
      let later =
        copied (input ++ (b ∷ [])) sent chunk (push b s) at
          (passed_on transform input sent b s (push b s) h quiet refl quiet) in
      subst (λ i. Tracks transform i sent (record s { out = s.out ++ (b ∷ chunk) }))
        (append_assoc input (b ∷ []) chunk)
        (handed_on transform ((input ++ (b ∷ [])) ++ chunk) sent
          (record s { out = (s.out ++ (b ∷ [])) ++ chunk }) _ later
          (sym (append_assoc s.out (b ∷ []) chunk)) refl)

  behind_array : (p : Phase) → is_passthrough transform is_hits p ≡ true → p ≡ passthrough
  behind_array passthrough h = refl
  behind_array seek_root h = cc
  behind_array obj_expect_key h = cc
  behind_array obj_read_key h = cc
  behind_array obj_expect_colon h = cc
  behind_array obj_expect_value h = cc
  behind_array skip_value h = cc
  behind_array obj_expect_comma h = cc
  behind_array arr_expect_elem h = cc
  behind_array arr_read_elem h = cc
  behind_array arr_expect_comma h = cc

  then-Reaches :
      (input whole sent : Bytes) (rest : Scanner → Option Scanner) (o : Option Scanner)
      → Reaches input sent o
      → ((t : Scanner) → Tracks transform input sent t → Reaches whole sent (rest t))
      → Reaches whole sent (then_step transform is_hits rest o)
  then-Reaches input whole sent rest none h later = absurd h
  then-Reaches input whole sent rest (some t) h later = later t h

  feed_loop-Reaches :
      (input sent chunk : Bytes) (s : Scanner)
      → Tracks transform input sent s
      → Reaches (input ++ chunk) sent (feed_loop transform is_hits chunk s)
  unfolding feed_loop
  feed_loop-Reaches input sent [] s h =
      subst (λ i. Tracks transform i sent s) (sym (append-nil input)) h
  feed_loop-Reaches input sent (b ∷ chunk) s h =
      let rest =
        subst
          (λ i. Reaches i sent (
            then_step transform is_hits (λ t. feed_loop transform is_hits chunk t)
              (step transform is_hits b s)))
          (append_assoc input (b ∷ []) chunk)
          (then-Reaches (input ++ (b ∷ [])) ((input ++ (b ∷ [])) ++ chunk) sent _
            (step transform is_hits b s) (step-Reaches input sent b s h)
            (λ t h. feed_loop-Reaches (input ++ (b ∷ [])) sent chunk t h)) in
      elim (Bool-cases (is_passthrough transform is_hits s.phase)) [
        | inl behind ↦ rw behind (copied input sent (b ∷ chunk) s (behind_array s.phase behind) h)
        | inr before ↦ rw before rest
      ]

  -- The chunks of a response, one after the other, and all that is sent for them.
  abbrev onward :
      (Bytes → Scanner → Option (Scanner × Bytes))
      → Bytes
      → Option (Scanner × Bytes)
      → Option (Scanner × Bytes)
  onward later sent none = none
  onward later sent (some (s, text)) = later (sent ++ text) s

  unfoldable pub stream : List Bytes → Bytes → Scanner → Option (Scanner × Bytes)
  stream [] sent s = some (s, sent)
  stream (chunk ∷ chunks) sent s =
      onward (λ sent s. stream chunks sent s) sent (feed transform is_hits chunk s)

  abbrev pub concat : List Bytes → Bytes
  concat [] = []
  concat (chunk ∷ chunks) = chunk ++ concat chunks

  abbrev pub IsForwarded : Bytes → Option (Scanner × Bytes) → Type 0
  IsForwarded input none = ⊥
  IsForwarded input (some (s, sent)) =
      (settled : Bytes) × (input ≡ settled ++ pending s) × Forwarded transform settled sent

  -- Between two chunks everything is sent.
  drained-Tracks :
      (input sent : Bytes) (s : Scanner)
      → Tracks transform input sent s
      → Tracks transform input (sent ++ s.out) (record s { out = [] })
  drained-Tracks input sent s h = record {
    settled = h.settled;
    whole = h.whole;
    forwarded =
        subst (Forwarded transform h.settled) (sym (append-nil (sent ++ s.out))) h.forwarded;
  }

  onward-IsForwarded :
      (input whole sent : Bytes) (later : Bytes → Scanner → Option (Scanner × Bytes))
      (o : Option Scanner)
      → Reaches input sent o
      → ((sent : Bytes) (t : Scanner)
          → Tracks transform input sent t
          → t.out ≡ []
          → IsForwarded whole (later sent t))
      → IsForwarded whole (onward later sent (drained transform is_hits o))
  onward-IsForwarded input whole sent later none h each = absurd h
  onward-IsForwarded input whole sent later (some s) h each =
      each (sent ++ s.out) (record s { out = [] }) (drained-Tracks input sent s h) refl

  stream-Tracks :
      (chunks : List Bytes) (input sent : Bytes) (s : Scanner)
      → Tracks transform input sent s
      → s.out ≡ []
      → IsForwarded (input ++ concat chunks) (stream chunks sent s)
  unfolding stream feed
  stream-Tracks [] input sent s h empty = (
    h.settled,
    append-nil input ∙ h.whole,
    subst (Forwarded transform h.settled) (ap (λ o. sent ++ o) empty ∙ append-nil sent) h.forwarded,
  )
  stream-Tracks (chunk ∷ chunks) input sent s h empty =
      onward-IsForwarded (input ++ chunk) (input ++ (chunk ++ concat chunks)) sent _
        (feed_loop transform is_hits chunk s) (feed_loop-Reaches input sent chunk s h)
        (λ sent t h empty.
          subst (λ i. IsForwarded i (stream chunks sent t))
            (append_assoc input chunk (concat chunks))
            (stream-Tracks chunks (input ++ chunk) sent t h empty))

  -- However a response is cut into chunks, the scanner takes every byte of it, and all that it sends is
  -- the response with some texts in it replaced by their transforms, in order and nothing else changed,
  -- but for the bytes of the hit that it is framing at the end, which it keeps back.
  pub stream-IsForwarded :
      (chunks : List Bytes) → IsForwarded (concat chunks) (stream chunks [] new_scanner)
  stream-IsForwarded chunks =
      stream-Tracks chunks [] [] new_scanner
        (record { settled = []; whole = refl; forwarded = nothing }) refl
