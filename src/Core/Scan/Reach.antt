-- ===== src/Core/Scan/Reach.antt =====
-- crates/osproxy-core/src/json.rs: strings and values move the cursor forward, within their fuel.
use opensearch_proxy.Prelude.{
  ℕ, zero, suc, ◌≤◌, ◌<◌, Bool, true, false, Option, none, some, [], ◌∷◌, ◌++◌, ◌==◌, nat_eq,
  if◌then◌else◌, length, arith,
}
use opensearch_proxy.Prelude.Bytes.{Bytes}
use opensearch_proxy.Prelude.Utf8.{from_utf8, from_u32}
use opensearch_proxy.Core.Scan.Cursor.{Scan, Unit₀, expect, hex4, within}
use opensearch_proxy.Core.Scan.Strings.{
  is_string_boundary, longer, run_to_boundary, skip_escape, skip_round, skip_chars, skip_string,
  simple_escape, low_surrogate, code_point, push_code, decode_unicode_escape, escaped,
  decode_escape, decode_round, decode_chars, string_decode,
}
use opensearch_proxy.Core.Scan.Bounds.{
  Within, Within-le, if-Within, bind-Within, expect-Within, hex_digits-Within,
}

-- The bytes from the boundary on are no more than were searched.
abbrev Remains : Option (Bytes × Bytes) → ℕ → Type 0
Remains none n = Unit
Remains (some (run, rest)) n = length rest ≤ n

longer-Remains :
    (c : ℕ) (o : Option (Bytes × Bytes)) (n : ℕ) → Remains o n → Remains (longer c o) (suc n)
longer-Remains c none n h = tt
longer-Remains c (some (run, rest)) n h = omega arith

run_step-Remains :
    (c : ℕ) (s : Bytes) (b : Bool)
    → Remains (run_to_boundary s) (length s)
    → Remains (if b then some ([], c ∷ s) else longer c (run_to_boundary s)) (suc (length s))
run_step-Remains c s true h = omega arith
run_step-Remains c s false h = longer-Remains c (run_to_boundary s) (length s) h

run-Remains : (s : Bytes) → Remains (run_to_boundary s) (length s)
unfolding run_to_boundary
run-Remains [] = tt
run-Remains (c ∷ s) = run_step-Remains c s (is_string_boundary c) (run-Remains s)

hex4-Within : (s : Bytes) (n : ℕ) → length s < n → Within (hex4 s) n
hex4-Within s n h = Within-le (hex4 s) _ _ h (hex_digits-Within 4 0 s)

-- A loop that moves on from any bytes fewer than `n`.
abbrev pub Loops : {A : Type 0} → (Bytes → Scan A) → ℕ → Type 0
Loops loop n = (s : Bytes) → length s < n → Within (loop s) n

skip_escape-Within :
    (loop : Bytes → Scan Unit₀) (s : Bytes) (n : ℕ)
    → Loops loop n
    → length s < n
    → Within (skip_escape loop s) n
skip_escape-Within loop [] n loops h = tt
skip_escape-Within loop (e ∷ s) n loops h =
    if-Within (e == b'u') _ _ _
      (bind-Within (hex4 s) _ n n (hex4-Within s n (omega arith)) (λ _ t. loops t))
      (loops s (omega arith))

skip_round-Within :
    (loop : Bytes → Scan Unit₀) (o : Option (Bytes × Bytes)) (n : ℕ)
    → Loops loop n
    → Remains o n
    → Within (skip_round loop o) n
skip_round-Within loop none n loops h = tt
skip_round-Within loop (some (run, [])) n loops h = tt
skip_round-Within loop (some (run, c ∷ s)) n loops h =
    if-Within (c == b'"') _ _ _ (omega arith)
      (if-Within (c == b'\\') _ _ _ (skip_escape-Within loop s n loops (omega arith)) tt)

skip_chars-Within :
    (fuel : ℕ) (s : Bytes) → length s < fuel → Within (skip_chars fuel s) (suc (length s))
unfolding skip_chars
skip_chars-Within zero s h = elim h [ ]
skip_chars-Within (suc fuel) s h =
    Within-le (skip_round (skip_chars fuel) (run_to_boundary s)) (length s) _ (omega arith) (
      skip_round-Within (skip_chars fuel) (run_to_boundary s) (length s)
        (λ t less.
          Within-le (skip_chars fuel t) _ _ (omega (arith, less))
            (skip_chars-Within fuel t (omega (arith, less, h))))
        (run-Remains s))

pub skip_string-Within : (s : Bytes) → Within (skip_string s) (length s)
unfolding skip_string
skip_string-Within s = bind-Within (expect b'"' s) _ (length s) _ (expect-Within b'"' s) (λ _ t h.
    Within-le (skip_chars (suc (length t)) t) _ _ h
      (skip_chars-Within (suc (length t)) t (omega arith)))

low_surrogate-Within :
    (hi lo : ℕ) (s : Bytes) (n : ℕ) → length s < n → Within (low_surrogate hi lo s) n
low_surrogate-Within hi lo s n h = if-Within (within 0xdc00 0xdfff lo) _ _ _ h tt

expect-Below : (byte : ℕ) (s : Bytes) (n : ℕ) → length s < n → Within (expect byte s) n
expect-Below byte s n h = Within-le (expect byte s) _ _ (omega (arith, h)) (expect-Within byte s)

code_point-Within : (hi : ℕ) (s : Bytes) (n : ℕ) → length s < n → Within (code_point hi s) n
code_point-Within hi s n h =
    if-Within (within 0xd800 0xdbff hi) _ _ _
      (bind-Within (expect b'\\' s) _ n n (expect-Below b'\\' s n h) (λ _ t k.
        bind-Within (expect b'u' t) _ n n (expect-Below b'u' t n k) (λ _ u l.
          bind-Within (hex4 u) _ n n (hex4-Within u n l)
            (λ lo v m. low_surrogate-Within hi lo v n m))))
      (if-Within (within 0xdc00 0xdfff hi) _ _ _ tt h)

push_code-Within :
    (out : Bytes) (o : Option ℕ) (s : Bytes) (n : ℕ) → length s < n → Within (push_code out o s) n
push_code-Within out none s n h = tt
push_code-Within out (some code) s n h = h

unicode-Within : (out s : Bytes) (n : ℕ) → length s < n → Within (decode_unicode_escape out s) n
unfolding decode_unicode_escape
unicode-Within out s n h = bind-Within (hex4 s) _ n n (hex4-Within s n h) (λ hi t k.
    bind-Within (code_point hi t) _ n n (code_point-Within hi t n k)
      (λ code u l. push_code-Within out (from_u32 code) u n l))

escaped-Within :
    (out : Bytes) (e : ℕ) (s : Bytes) (o : Option ℕ) (n : ℕ)
    → length s < n
    → Within (escaped out e s o) n
escaped-Within out e s (some ch) n h = h
escaped-Within out e s none n h = if-Within (e == b'u') _ _ _ (unicode-Within out s n h) tt

decode_escape-Within : (out s : Bytes) (n : ℕ) → length s < n → Within (decode_escape out s) n
unfolding decode_escape
decode_escape-Within out [] n h = tt
decode_escape-Within out (e ∷ s) n h = escaped-Within out e s (simple_escape e) n (omega arith)

decode_round-Within :
    (loop : Bytes → Bytes → Scan Bytes) (out : Bytes) (o : Option (Bytes × Bytes)) (n : ℕ)
    → ((out : Bytes) → Loops (loop out) n)
    → Remains o n
    → Within (decode_round loop out o) n
decode_round-Within loop out none n loops h = tt
decode_round-Within loop out (some (run, [])) n loops h = tt
decode_round-Within loop out (some (run, c ∷ s)) n loops h =
    if-Within (c == b'"') _ _ _ (if-Within (from_utf8 (out ++ run)) _ _ _ (omega arith) tt) (
      if-Within (c == b'\\') _ _ _
        (bind-Within (decode_escape (out ++ run) s) _ n n
          (decode_escape-Within (out ++ run) s n (omega arith)) loops)
        tt)

decode_chars-Within :
    (fuel : ℕ) (out s : Bytes) → length s < fuel → Within (decode_chars fuel out s) (suc (length s))
unfolding decode_chars
decode_chars-Within zero out s h = elim h [ ]
decode_chars-Within (suc fuel) out s h =
    Within-le (decode_round (decode_chars fuel) out (run_to_boundary s)) (length s) _ (omega arith)
      (decode_round-Within (decode_chars fuel) out (run_to_boundary s) (length s)
        (λ o t less.
          Within-le (decode_chars fuel o t) _ _ (omega (arith, less))
            (decode_chars-Within fuel o t (omega (arith, less, h))))
        (run-Remains s))

pub string_decode-Within : (s : Bytes) → Within (string_decode s) (length s)
unfolding string_decode
string_decode-Within s = bind-Within (expect b'"' s) _ (length s) _ (expect-Within b'"' s) (λ _ t h.
    Within-le (decode_chars (suc (length t)) [] t) _ _ h
      (decode_chars-Within (suc (length t)) [] t (omega arith)))
