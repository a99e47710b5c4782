-- ===== src/Core/Scan/Boundary/Words.antt =====
-- crates/osproxy-core/src/json.rs: the search by words against the search byte by byte.
use opensearch_proxy.Prelude.{
  ℕ, zero, suc, ◌+◌, ◌-◌, ◌*◌, ◌<◌, ◌≡◌, refl, sym, ap, ◌∙◌, Bool, true, false, Option, none, some,
  [], ◌∷◌, ◌++◌, if◌then◌else◌, length, length-append, arith, ◌==◌, nat_eq, Bool-cases, inl, inr,
}
use mathlib.Core.Option
use opensearch_proxy.Prelude.Bytes.{Bytes, cons_chunk, split_chunk}
use opensearch_proxy.Core.Scan.Strings.{is_string_boundary, longer, run_to_boundary}
use opensearch_proxy.Core.Scan.Boundary.{
  position, Wide, trailing_zeros, lane_or_next, chunk_round, chunk_loop, next_string_boundary,
}
use opensearch_proxy.Core.Scan.Boundary.Lanes.{bits, IsLanewise, lane-position, boundary_mask-bits}

-- A chunk that is split off has its length, and stands before the rest.
abbrev IsChunk : ℕ → Bytes → Option (Bytes × Bytes) → Type 0
IsChunk n s none = Unit
IsChunk n s (some (chunk, rest)) = (length chunk ≡ n) × (s ≡ chunk ++ rest)

cons-IsChunk :
    (n c : ℕ) (s : Bytes) (o : Option (Bytes × Bytes))
    → IsChunk n s o
    → IsChunk (suc n) (c ∷ s) (cons_chunk c o)
cons-IsChunk n c s none h = tt
cons-IsChunk n c s (some (chunk, rest)) (size, whole) = (ap suc size, ap (λ t. c ∷ t) whole)

split-IsChunk : (n : ℕ) (s : Bytes) → IsChunk n s (split_chunk n s)
unfolding split_chunk
split-IsChunk zero s = (refl, refl)
split-IsChunk (suc n) [] = tt
split-IsChunk (suc n) (c ∷ s) = cons-IsChunk n c s (split_chunk n s) (split-IsChunk n s)

-- The position in a chunk and a rest: in the chunk, or else in the rest.
abbrev first_or : Option ℕ → ℕ → Option ℕ → Option ℕ
first_or (some pos) n later = some pos
first_or none n later = Option.map (λ pos. n + pos) later

position-append :
    (chunk rest : Bytes)
    → position (chunk ++ rest) ≡ first_or (position chunk) (length chunk) (position rest)
unfolding position
position-append [] rest = sym (map_zero (position rest))
  where
    map_zero : (o : Option ℕ) → Option.map (λ pos. 0 + pos) o ≡ o
    map_zero none = refl
    map_zero (some n) = ap some (omega arith)
position-append (c ∷ chunk) rest =
    shifted (is_string_boundary c) (position chunk) (position rest) _ (position-append chunk rest)
  where
    shifted :
        (b : Bool) (o later whole : Option ℕ)
        → whole ≡ first_or o (length chunk) later
        → (if b then some 0 else Option.map suc whole)
          ≡ first_or (if b then some 0 else Option.map suc o) (suc (length chunk)) later
    shifted true o later whole h = refl
    shifted false (some pos) later whole h = ap (Option.map suc) h
    shifted false none none whole h = ap (Option.map suc) h
    shifted false none (some pos) whole h = ap (Option.map suc) h ∙ ap some (omega arith)

from_start : (o : Option ℕ) → Option.map (λ pos. 0 * 32 + pos) o ≡ o
from_start none = refl
from_start (some pos) = ap some (omega arith)

-- The run that the scanner takes ends at the position.
run-position :
    (s : Bytes) → Option.map (λ (x : Bytes × Bytes). length x.0) (run_to_boundary s) ≡ position s
unfolding run_to_boundary position
run-position [] = refl
run-position (c ∷ s) =
    chosen_run (is_string_boundary c) (run_to_boundary s) (position s) (run-position s)
  where
    chosen_run :
        (b : Bool) (o : Option (Bytes × Bytes)) (later : Option ℕ)
        → Option.map (λ (x : Bytes × Bytes). length x.0) o ≡ later
        → Option.map
            (λ (x : Bytes × Bytes). length x.0)
            (if b then some ([], c ∷ s) else longer c o)
          ≡ (if b then some 0 else Option.map suc later)
    chosen_run true o later h = refl
    chosen_run false none later h = ap (Option.map suc) h
    chosen_run false (some (run, rest)) later h = ap (Option.map suc) h

module _ {V : Type 0} (wide : Wide V) (law : IsLanewise wide) where
  tail_found :
      (total i : ℕ) (s : Bytes) (o : Option ℕ)
      → i * 32 + length s ≡ total
      → Option.map (λ pos. (total - length s) + pos) o ≡ Option.map (λ pos. i * 32 + pos) o
  tail_found total i s none h = refl
  tail_found total i s (some pos) h = ap some (omega arith)

  next_chunk :
      (i n : ℕ) (o : Option ℕ)
      → n ≡ 32
      → Option.map (λ pos. suc i * 32 + pos) o
        ≡ Option.map (λ pos. i * 32 + pos) (Option.map (λ pos. n + pos) o)
  next_chunk i n none h = refl
  next_chunk i n (some pos) h = ap some (omega arith)

  chosen :
      (i : ℕ) (loop : ℕ → Bytes → Option ℕ) (chunk rest : Bytes) (mask : ℕ)
      → length chunk ≡ 32
      → loop (suc i) rest ≡ Option.map (λ pos. suc i * 32 + pos) (position rest)
      → (if mask == 0 then none else some (trailing_zeros 32 mask)) ≡ position chunk
      → lane_or_next wide loop i rest mask
        ≡ Option.map
            (λ pos. i * 32 + pos)
            (first_or (position chunk) (length chunk) (position rest))
  chosen i loop chunk rest mask size later found = elim (Bool-cases (mask == 0)) [
    | inl clear ↦
        let nowhere : position chunk ≡ none = cc in
        rw (clear, nowhere) (later ∙ next_chunk i (length chunk) (position rest) size)
    | inr set ↦
        let lane : position chunk ≡ some (trailing_zeros 32 mask) = cc in rw (set, lane) refl
  ]

  round_position :
      (loop : ℕ → Bytes → Option ℕ) (total i : ℕ) (s : Bytes) (o : Option (Bytes × Bytes))
      → IsChunk 32 s o
      → i * 32 + length s ≡ total
      → ((rest : Bytes)
          → 32 + length rest ≡ length s
          → loop (suc i) rest ≡ Option.map (λ pos. suc i * 32 + pos) (position rest))
      → chunk_round wide loop total i s o ≡ Option.map (λ pos. i * 32 + pos) (position s)
  round_position loop total i s none c h each = tail_found total i s (position s) h
  round_position loop total i s (some (chunk, rest)) (size, whole) h each =
      (ap (lane_or_next wide loop i rest) (boundary_mask-bits wide chunk law size)
        ∙ chosen i loop chunk rest (bits is_string_boundary chunk) size
            (each rest (omega (arith, size, ap length whole, length-append chunk rest)))
            (lane-position 32 chunk (omega (arith, size))))
      ∙ ap (Option.map (λ pos. i * 32 + pos))
          (sym (position-append chunk rest) ∙ ap position (sym whole))

  loop-position :
      (fuel total i : ℕ) (s : Bytes)
      → length s < fuel
      → i * 32 + length s ≡ total
      → chunk_loop wide fuel total i s ≡ Option.map (λ pos. i * 32 + pos) (position s)
  unfolding chunk_loop
  loop-position zero total i s enough h = elim enough [ ]
  loop-position (suc fuel) total i s enough h =
      round_position (chunk_loop wide fuel total) total i s (split_chunk 32 s) (split-IsChunk 32 s)
        h
        (λ rest shorter.
          loop-position fuel total (suc i) rest (omega (arith, enough, shorter))
            (omega (arith, h, shorter)))

  -- The search by words of 32 bytes finds what the search byte by byte finds: the offset of the run
  -- that the scanner takes, or nothing where no quote, backslash or control byte is left. The vectors
  -- of `wide` compare lane by lane.
  pub next_string_boundary-run :
      (bytes : Bytes)
      → next_string_boundary wide bytes
        ≡ Option.map (λ (x : Bytes × Bytes). length x.0) (run_to_boundary bytes)
  unfolding next_string_boundary
  next_string_boundary-run bytes =
      (loop-position (suc (length bytes)) (length bytes) 0 bytes (omega arith) (omega arith)
        ∙ from_start (position bytes))
      ∙ sym (run-position bytes)
