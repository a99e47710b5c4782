-- ===== src/Core/Scan/Boundary/Lanes.antt =====
-- crates/osproxy-core/src/json.rs: the mask of a chunk, and the first lane that it names.
use Prim.Native.Nat.{bit_or}
use opensearch_proxy.Prelude.{
  ℕ, zero, suc, ◌+◌, ◌*◌, ◌/◌, ◌≤◌, ◌≡◌, refl, ap, ◌∙◌, fun_ext, Bool, true, false, ◌||◌, Option,
  none, some, [], ◌∷◌, if◌then◌else◌, length, ◌==◌, nat_eq, ltb, arith, Bool-cases, inl, inr,
}
use mathlib.Core.Option
use opensearch_proxy.Prelude.Bits.{bit_or_step}
use opensearch_proxy.Prelude.Bytes.{Bytes}
use opensearch_proxy.Core.Scan.Strings.{is_string_boundary}
use opensearch_proxy.Core.Scan.Boundary.{position, Wide, trailing_zeros, boundary_mask}

abbrev digit : Bool → ℕ
digit b = if b then 1 else 0

-- The number whose bit `i` says whether lane `i` passes the test.
abbrev pub bits : (ℕ → Bool) → Bytes → ℕ
bits test [] = 0
bits test (b ∷ s) = digit (test b) + 2 * bits test s

-- What `wide` documents: the comparisons compare the unsigned bytes of each lane, and `to_bitmask`
-- gives a bit for each lane of a comparison, the first lane in the lowest bit.
pub record IsLanewise {V : Type 0} (wide : Wide V) : Type 0 where
  pub eq_lanes :
      (chunk : Bytes) (c : ℕ)
      → length chunk ≡ 32
      → wide.to_bitmask (wide.simd_eq (wide.from_lanes chunk) (wide.splat c))
        ≡ bits (λ b. b == c) chunk
  pub lt_lanes :
      (chunk : Bytes) (c : ℕ)
      → length chunk ≡ 32
      → wide.to_bitmask (wide.simd_lt (wide.from_lanes chunk) (wide.splat c))
        ≡ bits (λ b. ltb b c) chunk

or_digit :
    (x y : Bool) (m n : ℕ)
    → bit_or (digit x + 2 * m) (digit y + 2 * n) ≡ digit (x || y) + 2 * bit_or m n
or_digit x y m n =
    let low : (digit x + 2 * m) / 2 ≡ m = ground arith in
    let high : (digit y + 2 * n) / 2 ≡ n = ground arith in
    let halves : bit_or ((digit x + 2 * m) / 2) ((digit y + 2 * n) / 2) ≡ bit_or m n =
      λ i. bit_or (low i) (high i) in
    let step = bit_or_step (digit x + 2 * m) (digit y + 2 * n) in ground (arith, step, halves)

or_bits : (p q : ℕ → Bool) (s : Bytes) → bit_or (bits p s) (bits q s) ≡ bits (λ b. p b || q b) s
or_bits p q [] = refl
or_bits p q (b ∷ s) =
    or_digit (p b) (q b) (bits p s) (bits q s)
    ∙ ap (λ n. digit (p b || q b) + 2 * n) (or_bits p q s)

or_assoc : (x y z : Bool) → ((x || y) || z) ≡ (x || (y || z))
or_assoc true y z = refl
or_assoc false y z = refl

-- The lowest bit that is set is the first boundary.
lowest :
    (n m : ℕ) (b : Bool) (later : Option ℕ)
    → (if m == 0 then none else some (trailing_zeros n m)) ≡ later
    → (if digit b + 2 * m == 0 then none else some (trailing_zeros (suc n) (digit b + 2 * m)))
      ≡ (if b then some 0 else Option.map suc later)
unfolding trailing_zeros
lowest n m true later h = ground arith
lowest n m false later h =
    let half : (0 + 2 * m) / 2 ≡ m = omega arith in
    rw half
      (elim (Bool-cases (m == 0)) [ inl zero_mask ↦ ground arith | inr some_bit ↦ ground arith ])

pub lane-position :
    (n : ℕ) (s : Bytes)
    → length s ≤ n
    → (if bits is_string_boundary s == 0
        then none
        else some (trailing_zeros n (bits is_string_boundary s)))
      ≡ position s
unfolding position
lane-position n [] le = refl
lane-position zero (c ∷ s) le = absurd (omega arith)
lane-position (suc n) (c ∷ s) le =
    lowest n (bits is_string_boundary s) (is_string_boundary c) (position s)
      (lane-position n s (omega arith))

pub boundary_mask-bits :
    {V : Type 0} (wide : Wide V) (chunk : Bytes)
    → IsLanewise wide
    → length chunk ≡ 32
    → boundary_mask wide chunk ≡ bits is_string_boundary chunk
unfolding boundary_mask
boundary_mask-bits wide chunk law size =
    rw (law.eq_lanes chunk b'"' size, law.eq_lanes chunk b'\\' size, law.lt_lanes chunk 0x20 size)
      (rw (or_bits (λ b. b == b'"') (λ b. b == b'\\') chunk) (
        or_bits (λ b. (b == b'"') || (b == b'\\')) (λ b. ltb b 0x20) chunk
        ∙ ap (λ test. bits test chunk)
            (fun_ext (λ b. or_assoc (b == b'"') (b == b'\\') (ltb b 0x20)))))
