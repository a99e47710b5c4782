-- ===== src/Engine/SearchScan/Forwarding.antt =====
-- crates/osproxy-engine/src/search_scan.rs: what is sent is what came in, with the framed hits replaced.
use opensearch_proxy.Prelude.{
  ℕ, ◌≡◌, sym, ap, subst, ◌∙◌, [], ◌∷◌, ◌++◌, nat_eq, append_assoc, append-nil,
}
use opensearch_proxy.Prelude.Bytes.{Bytes}
use opensearch_proxy.Engine.SearchScan.State.{Phase, Scanner, arr_read_elem}

-- What comes in, and what is sent for it: bytes one by one, and texts that are transformed as a whole.
pub data Forwarded (transform : Bytes → Bytes) : Bytes → Bytes → Type 0 where
  nothing : Forwarded transform [] []
  verbatim :
      {i o : Bytes} (b : ℕ)
      → Forwarded transform i o
      → Forwarded transform (i ++ (b ∷ [])) (o ++ (b ∷ []))
  replaced :
      {i o : Bytes} (hit : Bytes)
      → Forwarded transform i o
      → Forwarded transform (i ++ hit) (o ++ transform hit)

-- The bytes of the hit that is being framed.
abbrev pub framing : Phase → Bytes → Bytes
framing arr_read_elem buf = buf
framing _ buf = []

abbrev pub pending : Scanner → Bytes
pending s = framing s.phase s.elem.buf

module _ (transform : Bytes → Bytes) where
  -- All that came in was forwarded, but for the bytes that are being framed.
  pub record Tracks (input sent : Bytes) (s : Scanner) : Type 0 where
    pub settled : Bytes
    pub whole : input ≡ settled ++ pending s
    pub forwarded : Forwarded transform settled (sent ++ s.out)

  -- A byte that is passed on.
  pub passed_on :
      (input sent : Bytes) (b : ℕ) (s t : Scanner)
      → Tracks input sent s
      → pending s ≡ []
      → t.out ≡ s.out ++ (b ∷ [])
      → pending t ≡ []
      → Tracks (input ++ (b ∷ [])) sent t
  passed_on input sent b s t h none_before out none_after = record {
    settled = h.settled ++ (b ∷ []);
    whole =
        ap (λ i. i ++ (b ∷ []))
          (h.whole ∙ (ap (λ p. h.settled ++ p) none_before ∙ append-nil h.settled))
        ∙ (sym (append-nil (h.settled ++ (b ∷ [])))
            ∙ ap (λ p. (h.settled ++ (b ∷ [])) ++ p) (sym none_after));
    forwarded =
        subst (Forwarded transform (h.settled ++ (b ∷ [])))
          (append_assoc sent s.out (b ∷ []) ∙ ap (λ o. sent ++ o) (sym out))
          (verbatim b h.forwarded);
  }

  -- A byte that is kept for the hit.
  pub kept :
      (input sent : Bytes) (b : ℕ) (s t : Scanner)
      → Tracks input sent s
      → t.out ≡ s.out
      → pending t ≡ pending s ++ (b ∷ [])
      → Tracks (input ++ (b ∷ [])) sent t
  kept input sent b s t h out more = record {
    settled = h.settled;
    whole =
        ap (λ i. i ++ (b ∷ [])) h.whole
        ∙ (append_assoc h.settled (pending s) (b ∷ []) ∙ ap (λ p. h.settled ++ p) (sym more));
    forwarded = subst (Forwarded transform h.settled) (ap (λ o. sent ++ o) (sym out)) h.forwarded;
  }

  -- The hit is complete.
  pub finished :
      (input sent : Bytes) (s t : Scanner)
      → Tracks input sent s
      → t.out ≡ s.out ++ transform (pending s)
      → pending t ≡ []
      → Tracks input sent t
  finished input sent s t h out none_after = record {
    settled = h.settled ++ pending s;
    whole =
        h.whole
        ∙ (sym (append-nil (h.settled ++ pending s))
            ∙ ap (λ p. (h.settled ++ pending s) ++ p) (sym none_after));
    forwarded =
        subst (Forwarded transform (h.settled ++ pending s))
          (append_assoc sent s.out (transform (pending s)) ∙ ap (λ o. sent ++ o) (sym out))
          (replaced (pending s) h.forwarded);
  }

  -- Nothing happens but a change of the phase.
  pub handed_on :
      (input sent : Bytes) (s t : Scanner)
      → Tracks input sent s
      → t.out ≡ s.out
      → pending t ≡ pending s
      → Tracks input sent t
  handed_on input sent s t h out same = record {
    settled = h.settled;
    whole = h.whole ∙ ap (λ p. h.settled ++ p) (sym same);
    forwarded = subst (Forwarded transform h.settled) (ap (λ o. sent ++ o) (sym out)) h.forwarded;
  }
