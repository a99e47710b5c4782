-- ===== src/Rewrite/Ndjson.antt =====
-- crates/osproxy-rewrite/src/ndjson.rs: the lines of a body that are not blank.
pub mod Splitting
use opensearch_proxy.Prelude.{
  ℕ, zero, suc, ◌+◌, Bool, true, false, ◌||◌, Option, none, some, List, [], ◌∷◌, ◌==◌, nat_eq,
  if◌then◌else◌, length, all,
}
use opensearch_proxy.Prelude.Bytes.{Bytes}

-- `u8::is_ascii_whitespace`
abbrev pub is_ascii_whitespace : ℕ → Bool
is_ascii_whitespace c = (c == b' ') || ((c == 9) || ((c == 10) || ((c == 12) || (c == 13))))

abbrev pub before : ℕ → Bytes → Bytes
before zero s = []
before (suc n) [] = []
before (suc n) (c ∷ s) = c ∷ before n s

-- `body[start..]` behind `n` more bytes, where there are so many.
abbrev pub behind : ℕ → Bytes → Option Bytes
behind zero s = some s
behind (suc n) [] = none
behind (suc n) (c ∷ s) = behind n s

abbrev pub keep_line : Bytes → List Bytes → List Bytes
keep_line line later = if all is_ascii_whitespace line then later else line ∷ later

-- `memchr` is the first position of a byte: the search of the crate memchr.
module _ (memchr : ℕ → Bytes → Option ℕ) where
  abbrev pub line_end : Option ℕ → Bytes → ℕ
  line_end (some rel) rest = rel
  line_end none rest = length rest

  -- The rounds of the iterator from `start` on; `none` is a start behind the end. A round passes over a
  -- line feed or ends, so one more than the bytes is enough.
  unfoldable pub lines_loop : ℕ → Option Bytes → List Bytes
  lines_loop zero rest = []
  lines_loop (suc fuel) none = []
  lines_loop (suc fuel) (some rest) =
      let end = line_end (memchr 10 rest) rest in
      keep_line (before end rest) (lines_loop fuel (behind (end + 1) rest))

  unfoldable pub non_blank_lines : Bytes → List Bytes
  non_blank_lines body = lines_loop (length body + 1) (some body)
