-- ===== src/Prelude/Utf8.antt =====
-- UTF-8 of the standard library: `char::from_u32`, `char::encode_utf8` and the test of
-- `String::from_utf8`, by the table of well-formed byte sequences.
use opensearch_proxy.Prelude.Tests.{leb, ltb, if◌then◌else◌}
use Prim.Native.Nat.{ℕ, zero, suc, ◌+◌, ◌/◌, ◌%◌}
use mathlib.Core.Bool.{Bool, true, false, ◌&&◌, ◌||◌}
use mathlib.Core.Option.{Option, none, some}
use mathlib.Core.List.{[], ◌∷◌}
use opensearch_proxy.Prelude.Equality.{◌==◌, nat_eq}
use opensearch_proxy.Prelude.Bytes.{Bytes}

abbrev between : ℕ → ℕ → ℕ → Bool
between low high c = leb low c && leb c high

unfoldable pub from_u32 : ℕ → Option ℕ
from_u32 c = if between 0xd800 0xdfff c || ltb 0x10_ffff c then none else some c

unfoldable pub encode_utf8 : ℕ → Bytes
encode_utf8 c =
    if ltb c 0x80
    then c ∷ []
    else if ltb c 0x800
    then (0xc0 + c / 64) ∷ (0x80 + c % 64) ∷ []
    else if ltb c 0x1_0000
    then (0xe0 + c / 4096) ∷ (0x80 + c / 64 % 64) ∷ (0x80 + c % 64) ∷ []
    else (0xf0 + c / 0x4_0000)
      ∷ (0x80 + c / 4096 % 64)
      ∷ (0x80 + c / 64 % 64)
      ∷ (0x80 + c % 64)
      ∷ []

-- Where a sequence of bytes stands: between characters, or inside one, whose next byte is in a range
-- and is followed by some more continuation bytes.
pub data Place : Type 0 where
  boundary : Place
  inside : ℕ → ℕ → ℕ → Place

abbrev pub lead : ℕ → Option Place
lead c =
    if ltb c 0x80
    then some boundary
    else if between 0xc2 0xdf c
    then some (inside 0x80 0xbf 0)
    else if c == 0xe0
    then some (inside 0xa0 0xbf 1)
    else if c == 0xed
    then some (inside 0x80 0x9f 1)
    else if between 0xe1 0xef c
    then some (inside 0x80 0xbf 1)
    else if c == 0xf0
    then some (inside 0x90 0xbf 2)
    else if c == 0xf4
    then some (inside 0x80 0x8f 2)
    else if between 0xf1 0xf3 c
    then some (inside 0x80 0xbf 2)
    else none

abbrev pub after_continuation : ℕ → Place
after_continuation zero = boundary
after_continuation (suc more) = inside 0x80 0xbf more

abbrev pub step : Place → ℕ → Option Place
step boundary c = lead c
step (inside low high more) c = if between low high c then some (after_continuation more) else none

abbrev pub walk : Option Place → Bytes → Option Place
walk none s = none
walk (some p) [] = some p
walk (some p) (c ∷ s) = walk (step p c) s

abbrev pub ends_between : Option Place → Bool
ends_between (some boundary) = true
ends_between (some (inside _ _ _)) = false
ends_between none = false

unfoldable pub from_utf8 : Bytes → Bool
from_utf8 s = ends_between (walk (some boundary) s)
