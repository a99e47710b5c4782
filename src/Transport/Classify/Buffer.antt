-- ===== src/Transport/Classify/Buffer.antt =====
-- crates/osproxy-transport/src/classify.rs: the stack buffer loses nothing that the classes look at.
use opensearch_proxy.Prelude.{
  ℕ, suc, ◌≡◌, ◌≤◌, refl, ap, ◌∙◌, false, List, [], ◌∷◌, arith, ltb, if◌then◌else◌,
}
use opensearch_proxy.Prelude.Bytes.{Bytes}
use opensearch_proxy.Spi.Request.{HttpMethod}
use opensearch_proxy.Transport.Classify.{
  fill, filled, take, set_at, split, non_empty, segments, classify_segments, classify,
}

not_below : (n : ℕ) → 4 ≤ n → ltb n 4 ≡ false
not_below n h = ground arith

-- A full buffer is kept, whatever follows.
full_kept :
    (later : List Bytes) (a b c d : Bytes) (n : ℕ)
    → 4 ≤ n
    → filled (fill later (a ∷ b ∷ c ∷ d ∷ []) n) ≡ a ∷ b ∷ c ∷ d ∷ []
unfolding fill
full_kept [] a b c d n h = ap (λ t. take (if t then n else 4) (a ∷ b ∷ c ∷ d ∷ [])) (not_below n h)
full_kept (s ∷ later) a b c d n h =
    let buf : List Bytes = a ∷ b ∷ c ∷ d ∷ [] in
    ap (λ t. filled (fill later (if t then set_at n s buf else buf) (suc n))) (not_below n h)
    ∙ full_kept later a b c d (suc n) (omega arith)

buffered :
    (method : HttpMethod) (all : List Bytes)
    → classify_segments method (filled (fill all ([] ∷ [] ∷ [] ∷ [] ∷ []) 0))
      ≡ classify_segments method all
unfolding fill classify_segments
buffered method [] = refl
buffered method (a ∷ []) = refl
buffered method (a ∷ b ∷ []) = refl
buffered method (a ∷ b ∷ c ∷ []) = refl
buffered method (a ∷ b ∷ c ∷ d ∷ later) =
    ap (classify_segments method) (full_kept later a b c d 4 (omega arith))

-- The buffer of four segments changes no answer: a path is classified as by all of its non-empty
-- segments, however many there are.
pub classify-split :
    (method : HttpMethod) (path : Bytes)
    → classify method path ≡ classify_segments method (non_empty (split path))
unfolding classify segments
classify-split method path = buffered method (non_empty (split path))
