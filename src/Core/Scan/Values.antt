-- ===== src/Core/Scan/Values.antt =====
-- crates/osproxy-core/src/json.rs: skipping a value moves the cursor forward, within its fuel.
use opensearch_proxy.Prelude.{
  ℕ, zero, suc, ◌+◌, ◌≤◌, ◌<◌, ◌||◌, [], ◌∷◌, ◌==◌, nat_eq, length, arith,
}
use opensearch_proxy.Prelude.Bytes.{Bytes, ascii}
use opensearch_proxy.Core.Scan.Cursor.{Scan, Unit₀, skip_ws, expect, is_digit}
use opensearch_proxy.Core.Scan.Strings.{skip_string}
use opensearch_proxy.Core.Scan.Skip.{
  opened, next_or_close, value_round, member_round, element_round, skip_value_loop, members_loop,
  elements_loop, skip_value,
}
use opensearch_proxy.Core.Scan.Bounds.{
  Within, Within-le, if-Within, bind-Within, length-skip_ws, expect-Within, number-Within,
  literal-Within,
}
use opensearch_proxy.Core.Scan.Reach.{Loops, skip_string-Within}

-- A scan after white space.
pub after_ws-Within :
    {A : Type 0} (p : Bytes → Scan A) (s : Bytes) (n : ℕ)
    → Within (p (skip_ws s)) (length (skip_ws s))
    → length s ≤ n
    → Within (p (skip_ws s)) n
after_ws-Within p s n h le = Within-le (p (skip_ws s)) _ _ (omega (arith, length-skip_ws s)) h

opened-Within :
    (close : ℕ) (loop : Bytes → Scan Unit₀) (s : Bytes) (n : ℕ)
    → Loops loop n
    → length s < n
    → Within (opened close loop s) n
opened-Within close loop [] n loops h = loops [] h
opened-Within close loop (c ∷ s) n loops h =
    if-Within (c == close) _ _ _ (omega arith) (loops (c ∷ s) h)

next_or_close-Within :
    (close : ℕ) (loop : Bytes → Scan Unit₀) (s : Bytes) (n : ℕ)
    → Loops loop n
    → length s < n
    → Within (next_or_close close loop s) n
next_or_close-Within close loop [] n loops h = tt
next_or_close-Within close loop (c ∷ s) n loops h =
    if-Within (c == b',') _ _ _ (loops s (omega arith))
      (if-Within (c == close) _ _ _ (omega arith) tt)

value_round-Within :
    (members elements : Bytes → Scan Unit₀) (s : Bytes)
    → Loops members (length s)
    → Loops elements (length s)
    → Within (value_round members elements s) (length s)
value_round-Within members elements [] ms es = tt
value_round-Within members elements (c ∷ s) ms es =
    let less : length (skip_ws s) < suc (length s) = omega (arith, length-skip_ws s) in
    if-Within (c == b'{') _ _ _ (opened-Within b'}' members (skip_ws s) _ ms less) (
      if-Within (c == b'[') _ _ _ (opened-Within b']' elements (skip_ws s) _ es less) (
        if-Within (c == b'"') _ _ _ (skip_string-Within (c ∷ s)) (
          if-Within (c == b't') _ _ _ (literal-Within (ascii "true") (c ∷ s) (omega arith)) (
            if-Within (c == b'f') _ _ _ (literal-Within (ascii "false") (c ∷ s) (omega arith)) (
              if-Within (c == b'n') _ _ _ (literal-Within (ascii "null") (c ∷ s) (omega arith))
                (if-Within ((c == b'-') || is_digit c) _ _ _ (number-Within (c ∷ s)) tt))))))

-- A value that is skipped from fewer than `n` bytes leaves fewer.
abbrev Advances : (Bytes → Scan Unit₀) → ℕ → Type 0
Advances value n = (s : Bytes) → length s < n → Within (value s) (length s)

element_round-Within :
    (value elements : Bytes → Scan Unit₀) (s : Bytes)
    → Within (value s) (length s)
    → Loops elements (length s)
    → Within (element_round value elements s) (length s)
element_round-Within value elements s v es = bind-Within (value s) _ (length s) _ v (λ _ t h.
    next_or_close-Within b']' elements (skip_ws t) (length s) es
      (omega (arith, h, length-skip_ws t)))

member_round-Within :
    (value members : Bytes → Scan Unit₀) (s : Bytes)
    → Advances value (length s)
    → Loops members (length s)
    → Within (member_round value members s) (length s)
member_round-Within value members s vs ms =
    bind-Within (skip_string (skip_ws s)) _ (length s) _
      (after_ws-Within skip_string s (length s) (skip_string-Within (skip_ws s)) (omega arith))
      (λ _ t h.
        bind-Within (expect b':' (skip_ws t)) _ (length s) _
          (after_ws-Within (expect b':') t (length s) (expect-Within b':' (skip_ws t))
            (omega (arith, h)))
          (λ _ u k.
            bind-Within (value u) _ (length s) _
              (Within-le (value u) _ _ (omega (arith, k)) (vs u k))
              (λ _ v l.
                next_or_close-Within b'}' members (skip_ws v) (length s) ms
                  (omega (arith, l, length-skip_ws v)))))

mutual
  unfolding skip_value_loop

  value_loop-Within :
      (fuel : ℕ) (s : Bytes)
      → length s + length s < fuel
      → Within (skip_value_loop fuel s) (length s)
  value_loop-Within zero s h = elim h [ ]
  value_loop-Within (suc fuel) s h =
      Within-le (value_round (λ s. members_loop fuel s) (λ s. elements_loop fuel s) (skip_ws s)) _ _
        (length-skip_ws s)
        (value_round-Within _ _ (skip_ws s)
          (λ t less.
            Within-le (members_loop fuel t) _ _ (omega (arith, less))
              (members_loop-Within fuel t (omega (arith, h, less, length-skip_ws s))))
          (λ t less.
            Within-le (elements_loop fuel t) _ _ (omega (arith, less))
              (elements_loop-Within fuel t (omega (arith, h, less, length-skip_ws s)))))

  members_loop-Within :
      (fuel : ℕ) (s : Bytes)
      → suc (length s + length s) < fuel
      → Within (members_loop fuel s) (length s)
  members_loop-Within zero s h = elim h [ ]
  members_loop-Within (suc fuel) s h =
      member_round-Within _ _ s (λ t less. value_loop-Within fuel t (omega (arith, h, less)))
        (λ t less.
          Within-le (members_loop fuel t) _ _ (omega (arith, less))
            (members_loop-Within fuel t (omega (arith, h, less))))

  elements_loop-Within :
      (fuel : ℕ) (s : Bytes)
      → suc (length s + length s) < fuel
      → Within (elements_loop fuel s) (length s)
  elements_loop-Within zero s h = elim h [ ]
  elements_loop-Within (suc fuel) s h =
      element_round-Within (λ s. skip_value_loop fuel s) (λ s. elements_loop fuel s) s
        (value_loop-Within fuel s (omega (arith, h)))
        (λ t less.
          Within-le (elements_loop fuel t) _ _ (omega (arith, less))
            (elements_loop-Within fuel t (omega (arith, h, less))))

pub skip_value-Within : (s : Bytes) → Within (skip_value s) (length s)
unfolding skip_value
skip_value-Within s = value_loop-Within (suc (length s + length s)) s (omega arith)
