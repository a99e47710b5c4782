-- ===== src/Rewrite/Fields/Splice/Object.antt =====
-- crates/osproxy-core/src/json.rs: the scan of an object, taken apart and put together.
use opensearch_proxy.Prelude.{
  ℕ, zero, suc, ◌-◌, ◌≤◌, ◌≡◌, refl, sym, ap, ◌∙◌, Bool, true, false, none, some, List, [], ◌∷◌,
  ◌++◌, ◌==◌, nat_eq, if◌then◌else◌, length, length-append, arith, All, Bool-cases, inl, inr, ◌⊎◌,
  ok, err, eq_sound, list_eq,
}
use opensearch_proxy.Prelude.Bytes.{Bytes}
use opensearch_proxy.Core.Scan.Cursor.{
  Scan, done, invalid, out_of_fuel, ◌>>=◌, Unit₀, skip_ws, is_ws,
}
use opensearch_proxy.Core.Scan.Document.{
  Scanned, TopLevel, at_end, ended, keys_loop, with_keys, members_or_empty, object_members,
  no_object, top_level_at, object_top_level, validate,
}
use opensearch_proxy.Core.Scan.Bounds.{length-skip_ws}
use opensearch_proxy.Rewrite.Fields.Splice.Keys.{IsDelimited, bind_done}

-- White space before the cursor.
ws_before : (s : Bytes) → (w : Bytes) × All (λ c. is_ws c ≡ true) w × (s ≡ w ++ skip_ws s)
unfolding skip_ws
ws_before [] = ([], tt, refl)
ws_before (c ∷ s) = chosen (is_ws c) refl (ws_before s)
  where
    chosen :
        (b : Bool)
        → is_ws c ≡ b
        → ((w : Bytes) × All (λ c. is_ws c ≡ true) w × (s ≡ w ++ skip_ws s))
        → (w : Bytes) × All (λ c. is_ws c ≡ true) w
          × (c ∷ s ≡ w ++ (if b then skip_ws s else c ∷ s))
    chosen true space (w, all, same) = (c ∷ w, (space, all), ap (λ t. c ∷ t) same)
    chosen false other _ = ([], tt, refl)

skip_ws-append : (w s : Bytes) → All (λ c. is_ws c ≡ true) w → skip_ws (w ++ s) ≡ skip_ws s
unfolding skip_ws
skip_ws-append [] s h = refl
skip_ws-append (c ∷ w) s (space, h) = rw space (skip_ws-append w s h)

skip_ws_twice : (s : Bytes) → skip_ws (skip_ws s) ≡ skip_ws s
skip_ws_twice s =
    let (w, all, same) = ws_before s in
    sym (skip_ws-append w (skip_ws s) all) ∙ ap skip_ws (sym same)

keys_loop-skip_ws :
    (fuel : ℕ) (keys : List Bytes) (s : Bytes)
    → keys_loop fuel keys (skip_ws s) ≡ keys_loop fuel keys s
unfolding keys_loop
keys_loop-skip_ws zero keys s = refl
keys_loop-skip_ws (suc fuel) keys s = rw (skip_ws_twice s)

brace_kept : (s : Bytes) → skip_ws (b'{' ∷ s) ≡ b'{' ∷ s
unfolding skip_ws
brace_kept s = refl

-- What a scanned object has: its members, and nothing but white space behind it.
ended_done :
    (p : Scan TopLevel) (top : TopLevel)
    → ended p ≡ some (ok top)
    → (r : Bytes) × (p ≡ done top r) × (skip_ws r ≡ [])
ended_done (done a r) top h = at_the_end (skip_ws r) refl h
  where
    at_the_end :
        (t : Bytes)
        → skip_ws r ≡ t
        → at_end a t ≡ some (ok top)
        → (r' : Bytes) × (done a r ≡ done top r') × (skip_ws r' ≡ [])
    at_the_end [] e h = (r, (let same : a ≡ top = cc in ap (λ x. done x r) same), e)
    at_the_end (c ∷ t) e h = cc
ended_done invalid top h = cc
ended_done out_of_fuel top h = cc

-- An object from past its brace on: empty, or some members.
pub data Members (at : ℕ) (s r : Bytes) (top : TopLevel) : Type 0 where
  none_there :
      skip_ws s ≡ b'}' ∷ r
      → top ≡ record { insert_at = at; empty = true; keys = [] }
      → Members at s r top
  some_there :
      (fuel : ℕ) (keys : List Bytes)
      → fuel ≤ suc (length s)
      → keys_loop fuel [] s ≡ done keys r
      → top ≡ record { insert_at = at; empty = false; keys = keys }
      → Members at s r top

if_no_brace :
    (b : Bool) (p q : Scan TopLevel) (top : TopLevel) (r : Bytes)
    → (if b then p else q) ≡ done top r
    → ((b ≡ true) × (p ≡ done top r)) ⊎ (q ≡ done top r)
if_no_brace true p q top r h = inl (refl, h)
if_no_brace false p q top r h = inr h

reads_on :
    (at : ℕ) (s t r : Bytes) (top : TopLevel)
    → skip_ws s ≡ t
    → (keys_loop (suc (length t)) [] t >>= with_keys at) ≡ done top r
    → Members at s r top
reads_on at s t r top e h =
    let (keys, r', loop, same) =
      bind_done (keys_loop (suc (length t)) [] t) (with_keys at) top r h in
    let tops : record { insert_at = at; empty = false; keys = keys } ≡ top = cc in
    let rests : r' ≡ r = cc in
    some_there (suc (length t)) keys (omega (arith, length-skip_ws s, ap length e))
      ((sym (keys_loop-skip_ws (suc (length t)) [] s) ∙ ap (keys_loop (suc (length t)) []) e)
        ∙ (loop ∙ ap (done keys) rests))
      (sym tops)

found_within :
    (at : ℕ) (s t r : Bytes) (top : TopLevel)
    → skip_ws s ≡ t
    → members_or_empty at t ≡ done top r
    → Members at s r top
found_within at s [] r top e h = reads_on at s [] r top e h
found_within at s (c ∷ t) r top e h = elim (if_no_brace (c == b'}') _ _ top r h) [
  | inl (brace, same) ↦
      let tops : record { insert_at = at; empty = true; keys = [] } ≡ top = cc in
      let rests : t ≡ r = cc in
      none_there (e ∙ (ap (λ x. x ∷ t) (eq_sound c b'}' brace) ∙ ap (λ x. b'}' ∷ x) rests))
        (sym tops)
  | inr same ↦ reads_on at s (c ∷ t) r top e same
]

pub object-Members :
    (at : ℕ) (s r : Bytes) (top : TopLevel) → object_members at s ≡ done top r → Members at s r top
unfolding object_members
object-Members at s r top h = found_within at s (skip_ws s) r top refl h

-- Bytes that begin, after white space, with a closing brace, delimit a value.
pub brace-IsDelimited : (s r : Bytes) → skip_ws s ≡ b'}' ∷ r → IsDelimited s
unfolding skip_ws
brace-IsDelimited [] r h = cc
brace-IsDelimited (c ∷ s) r h = elim (Bool-cases (is_ws c)) [
  | inl space ↦ rw space refl
  | inr other ↦
      let cut : c ∷ s ≡ b'}' ∷ r = rw other at h in let first : c ≡ b'}' = cc in rw first refl
]

-- An object's scan, taken apart: white space, the brace, the members, and nothing behind.
pub record IsObject (body : Bytes) (top : TopLevel) : Type 0 where
  pub spaces : Bytes
  pub inner : Bytes
  pub behind : Bytes
  pub blank : All (λ c. is_ws c ≡ true) spaces
  pub whole : body ≡ spaces ++ (b'{' ∷ inner)
  pub members : object_members (suc (length spaces)) inner ≡ done top behind
  pub closed : skip_ws behind ≡ []

not_an_object_top : (o : Scanned Unit₀) (top : TopLevel) → no_object o ≡ some (ok top) → ⊥
not_an_object_top none top h = cc
not_an_object_top (some (ok _)) top h = cc
not_an_object_top (some (err e)) top h = cc

if_brace :
    (b : Bool) (p q : Scanned TopLevel) (top : TopLevel)
    → (if b then p else q) ≡ some (ok top)
    → ((b ≡ true) × (p ≡ some (ok top))) ⊎ (q ≡ some (ok top))
if_brace true p q top h = inl (refl, h)
if_brace false p q top h = inr h

from_brace :
    (body w t : Bytes) (top : TopLevel)
    → All (λ c. is_ws c ≡ true) w
    → body ≡ w ++ t
    → top_level_at body t ≡ some (ok top)
    → IsObject body top
from_brace body w [] top blank whole h = absurd (not_an_object_top (validate body) top h)
from_brace body w (c ∷ s) top blank whole h = elim (if_brace (c == b'{') _ _ top h) [
  | inr other ↦ absurd (not_an_object_top (validate body) top other)
  | inl (brace, scan) ↦
      let (r, members, closed) = ended_done (object_members (length body - length s) s) top scan in
      let at : length body - length s ≡ suc (length w) =
        omega (arith, ap length whole, length-append w (c ∷ s)) in
      record {
        spaces = w;
        inner = s;
        behind = r;
        blank = blank;
        whole = whole ∙ ap (λ x. w ++ (x ∷ s)) (eq_sound c b'{' brace);
        members = sym (ap (λ n. object_members n s) at) ∙ members;
        closed = closed;
      }
]

pub object_top_level-IsObject :
    (body : Bytes) (top : TopLevel) → object_top_level body ≡ some (ok top) → IsObject body top
unfolding object_top_level
object_top_level-IsObject body top h =
    let (w, blank, whole) = ws_before body in from_brace body w (skip_ws body) top blank whole h

-- An object put together is scanned as its parts.
pub object_top_level-parts :
    (w s r : Bytes) (top : TopLevel)
    → All (λ c. is_ws c ≡ true) w
    → object_members (suc (length w)) s ≡ done top r
    → skip_ws r ≡ []
    → object_top_level (w ++ (b'{' ∷ s)) ≡ some (ok top)
unfolding object_top_level
object_top_level-parts w s r top blank members closed =
    let at : length (w ++ (b'{' ∷ s)) - length s ≡ suc (length w) =
      omega (arith, length-append w (b'{' ∷ s)) in
    let brace : skip_ws (w ++ (b'{' ∷ s)) ≡ b'{' ∷ s =
      skip_ws-append w (b'{' ∷ s) blank ∙ brace_kept s in
    (ap (top_level_at (w ++ (b'{' ∷ s))) brace ∙ ap (λ n. ended (object_members n s)) at)
    ∙ (ap ended members ∙ ap (at_end top) closed)
