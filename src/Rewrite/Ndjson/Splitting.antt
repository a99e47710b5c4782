-- ===== src/Rewrite/Ndjson/Splitting.antt =====
-- crates/osproxy-rewrite/src/ndjson.rs: the iterator gives the lines that splitting at line feeds gives.
use opensearch_proxy.Prelude.{
  ℕ, zero, suc, ◌+◌, ◌≤◌, ◌<◌, ◌≡◌, refl, ap, fun_ext, ◌∙◌, Option, none, some, List, [], ◌∷◌, ◌==◌,
  nat_eq, if◌then◌else◌, length, arith, Bool-cases, inl, inr,
}
use mathlib.Core.Option
use opensearch_proxy.Prelude.Bytes.{Bytes}
use opensearch_proxy.Rewrite.Ndjson.{
  before, behind, keep_line, line_end, lines_loop, non_blank_lines,
}

-- `split(|b| b == b'\n')`: the first line, and the others.
abbrev pub in_front : ℕ → Bytes × List Bytes → Bytes × List Bytes
in_front c (line, later) = (c ∷ line, later)

abbrev pub line_feed : Bytes × List Bytes → Bytes × List Bytes
line_feed (line, later) = ([], line ∷ later)

unfoldable pub split_lines : Bytes → Bytes × List Bytes
split_lines [] = ([], [])
split_lines (c ∷ s) =
    let rest = split_lines s in if c == 10 then line_feed rest else in_front c rest

abbrev pub keep_all : List Bytes → List Bytes
keep_all [] = []
keep_all (line ∷ later) = keep_line line (keep_all later)

-- The first position of a byte, as `memchr` is documented.
unfoldable pub first_position : ℕ → Bytes → Option ℕ
first_position b [] = none
first_position b (c ∷ s) =
    let later = first_position b s in if c == b then some 0 else Option.map suc later

abbrev lines_from : Option Bytes → List Bytes
lines_from none = []
lines_from (some rest) = let (line, later) = split_lines rest in line ∷ later

shifted :
    (o : Option ℕ) (c : ℕ) (s : Bytes)
    → line_end first_position (Option.map suc o) (c ∷ s) ≡ suc (line_end first_position o s)
shifted none c s = refl
shifted (some pos) c s = refl

-- The first line ends at the position, and the others are those of the bytes behind it.
first_line :
    (s : Bytes)
    → (before (line_end first_position (first_position 10 s) s) s ≡ (split_lines s).0)
      × (lines_from (behind (line_end first_position (first_position 10 s) s + 1) s)
          ≡ (split_lines s).1)
unfolding split_lines first_position
first_line [] = (refl, refl)
first_line (c ∷ s) = elim (Bool-cases (c == 10)) [
  | inl feed ↦ rw feed (refl, refl)
  | inr other ↦
      let end = line_end first_position (first_position 10 s) s in
      let (line, later) = first_line s in
      let further : suc end + 1 ≡ suc (end + 1) = omega arith in
      rw (other, shifted (first_position 10 s) c s, further) (ap (λ t. c ∷ t) line, later)
]

-- The bytes behind a line are fewer.
abbrev Fits : Option Bytes → ℕ → Type 0
Fits none n = Unit
Fits (some rest) n = length rest < n

behind-Fits : (n m : ℕ) (s : Bytes) → length s ≤ m → Fits (behind (suc n) s) m
behind-Fits n m [] le = tt
behind-Fits zero m (c ∷ s) le = omega arith
behind-Fits (suc n) m (c ∷ s) le = behind-Fits n m s (omega arith)

all_lines :
    (fuel : ℕ) (o : Option Bytes)
    → Fits o fuel
    → lines_loop first_position fuel o ≡ keep_all (lines_from o)
unfolding lines_loop
all_lines zero none fits = refl
all_lines zero (some rest) fits = absurd (omega arith)
all_lines (suc fuel) none fits = refl
all_lines (suc fuel) (some rest) fits =
    let end = line_end first_position (first_position 10 rest) rest in
    let (line, later) = first_line rest in
    let step : end + 1 ≡ suc end = omega arith in
    let shorter : Fits (behind (end + 1) rest) fuel =
      rw step (behind-Fits end fuel rest (omega arith)) in
    ap (keep_line (before end rest)) (all_lines fuel (behind (end + 1) rest) shorter)
    ∙ (ap (λ t. keep_line (before end rest) (keep_all t)) later
        ∙ ap (λ t. keep_line t (keep_all (split_lines rest).1)) line)

-- The iterator over a body gives every line that splitting the body at its line feeds gives, in order,
-- but for the blank ones. The search of memchr finds the first position of a byte.
pub non_blank_lines-split :
    (memchr : ℕ → Bytes → Option ℕ)
    → ((b : ℕ) (s : Bytes) → memchr b s ≡ first_position b s)
    → (body : Bytes)
    → non_blank_lines memchr body ≡ keep_line (split_lines body).0 (keep_all (split_lines body).1)
unfolding non_blank_lines
non_blank_lines-split memchr law body =
    ap (λ m. non_blank_lines m body) (fun_ext (λ b. fun_ext (λ s. law b s)))
    ∙ all_lines (length body + 1) (some body) (omega arith)
