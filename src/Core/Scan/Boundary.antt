-- ===== src/Core/Scan/Boundary.antt =====
-- crates/osproxy-core/src/json.rs: the search for the end of a run by words of 32 bytes. The vectors of
-- the crate `wide` are a parameter.
pub mod Lanes
pub mod Words
use Prim.Native.Nat.{bit_or}
use opensearch_proxy.Prelude.{
  ℕ, zero, suc, ◌+◌, ◌-◌, ◌*◌, ◌/◌, ◌%◌, Option, none, some, [], ◌∷◌, if◌then◌else◌, length, ◌==◌,
  nat_eq,
}
use mathlib.Core.Option
use opensearch_proxy.Prelude.Bytes.{Bytes, split_chunk}
use opensearch_proxy.Core.Scan.Strings.{is_string_boundary}

-- `iter().position(|&c| is_string_boundary(c))`
unfoldable pub position : Bytes → Option ℕ
position [] = none
position (c ∷ s) =
    let later = position s in if is_string_boundary c then some 0 else Option.map suc later

-- The operations of `wide::u8x32` that the search uses, over a type of vectors: a vector from 32
-- bytes, one with the same byte in each lane, the comparisons of lanes, and the bits of a comparison.
pub record Wide (V : Type 0) : Type 0 where
  pub from_lanes : Bytes → V
  pub splat : ℕ → V
  pub simd_eq : V → V → V
  pub simd_lt : V → V → V
  pub to_bitmask : V → ℕ

-- `u32::trailing_zeros`, of a number of `n` bits
unfoldable pub trailing_zeros : ℕ → ℕ → ℕ
trailing_zeros zero m = 0
trailing_zeros (suc n) m =
    let later = trailing_zeros n (m / 2) in if m % 2 == 1 then 0 else suc later

module _ {V : Type 0} (wide : Wide V) where
  -- The lanes of a chunk that end a run.
  unfoldable pub boundary_mask : Bytes → ℕ
  boundary_mask chunk =
      let v = wide.from_lanes chunk in
      bit_or
        (bit_or (wide.to_bitmask (wide.simd_eq v (wide.splat b'"')))
          (wide.to_bitmask (wide.simd_eq v (wide.splat b'\\'))))
        (wide.to_bitmask (wide.simd_lt v (wide.splat 0x20)))

  abbrev pub lane_or_next : (ℕ → Bytes → Option ℕ) → ℕ → Bytes → ℕ → Option ℕ
  lane_or_next loop i rest mask =
      let later = loop (suc i) rest in
      if mask == 0 then later else some (i * 32 + trailing_zeros 32 mask)

  abbrev pub chunk_round :
      (ℕ → Bytes → Option ℕ) → ℕ → ℕ → Bytes → Option (Bytes × Bytes) → Option ℕ
  chunk_round loop total i s none = Option.map (λ pos. (total - length s) + pos) (position s)
  chunk_round loop total i s (some (chunk, rest)) = lane_or_next loop i rest (boundary_mask chunk)

  -- Each round but the last takes 32 bytes, so as many rounds as bytes, and one, are enough.
  unfoldable pub chunk_loop : ℕ → ℕ → ℕ → Bytes → Option ℕ
  chunk_loop zero total i s = none
  chunk_loop (suc fuel) total i s = chunk_round (chunk_loop fuel total) total i s (split_chunk 32 s)

  unfoldable pub next_string_boundary : Bytes → Option ℕ
  next_string_boundary bytes = chunk_loop (suc (length bytes)) (length bytes) 0 bytes
