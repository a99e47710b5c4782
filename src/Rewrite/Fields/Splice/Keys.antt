-- ===== src/Rewrite/Fields/Splice/Keys.antt =====
-- crates/osproxy-rewrite/src/fields.rs with the scanner of crates/osproxy-core/src/json.rs: reading the
-- members that a splice writes, and then those that were there.
use opensearch_proxy.Prelude.{
  ℕ, zero, suc, ◌+◌, ◌≡◌, refl, ap, ◌∙◌, Bool, true, false, ◌||◌, List, [], ◌∷◌, ◌++◌, append_assoc,
  ◌==◌, nat_eq, if◌then◌else◌, length, arith, All,
}
use opensearch_proxy.Prelude.Bytes.{Bytes}
use opensearch_proxy.Core.Ids.{FieldName}
use opensearch_proxy.Core.Json.{Value}
use opensearch_proxy.Core.Scan.Cursor.{
  Scan, done, invalid, out_of_fuel, ◌>>=◌, skip_ws, is_ws, expect,
}
use opensearch_proxy.Core.Scan.Strings.{string_decode}
use opensearch_proxy.Core.Scan.Skip.{skip_value}
use opensearch_proxy.Core.Scan.Document.{next_member, key_round, keys_loop}
use opensearch_proxy.Rewrite.Fields.{Injected, member_text, members_text}
use opensearch_proxy.Rewrite.Fields.Inverse.{names}

-- A value ends before these bytes: white space, a comma or a closing brace.
abbrev pub IsDelimited : Bytes → Type 0
IsDelimited [] = ⊥
IsDelimited (c ∷ s) = (is_ws c || ((c == b',') || (c == b'}'))) ≡ true

module _ (quoted : Bytes → Bytes) (printed : Value → Bytes) where
  -- What a serializer is relied on for: a name is written as a string that reads back, a value as a text
  -- that is one value.
  pub record Reads (f : FieldName × Value) : Type 0 where
    pub inside : Bytes
    pub quote_first : quoted f.0 ≡ b'"' ∷ inside
    pub name_read : (t : Bytes) → string_decode (quoted f.0 ++ t) ≡ done f.0 t
    pub value_read : (t : Bytes) → IsDelimited t → skip_value (printed f.1 ++ t) ≡ done tt t

  quoted_ws :
      (f : FieldName × Value) (t : Bytes) → Reads f → skip_ws (quoted f.0 ++ t) ≡ quoted f.0 ++ t
  unfolding skip_ws
  quoted_ws f t r = rw r.quote_first

  read_member :
      (loop : List Bytes → Bytes → Scan (List Bytes)) (keys : List Bytes) (f : FieldName × Value)
      (t : Bytes)
      → Reads f
      → IsDelimited t
      → key_round loop keys (member_text quoted printed f ++ t)
        ≡ next_member loop (keys ++ (f.0 ∷ [])) (skip_ws t)
  unfolding skip_ws expect
  read_member loop keys f t r ends =
      let rest : Bytes = b':' ∷ (printed f.1 ++ t) in
      let whole : member_text quoted printed f ++ t ≡ quoted f.0 ++ rest =
        append_assoc (quoted f.0) _ t in
      rw (whole, quoted_ws f rest r, r.name_read rest, r.value_read t ends)

  -- The loop over the members that are written ends before the bytes that follow them.
  pub read_members :
      (f : FieldName × Value) (later : Injected) (fuel : ℕ) (keys : List Bytes) (t : Bytes)
      → All Reads (f ∷ later)
      → IsDelimited t
      → keys_loop (suc (length later + fuel)) keys (members_text quoted printed (f ∷ later) ++ t)
        ≡ next_member (keys_loop fuel) (keys ++ names (f ∷ later)) (skip_ws t)
  unfolding keys_loop members_text skip_ws
  read_members f [] fuel keys t (r, _) ends =
      let same : length {A = FieldName × Value} [] + fuel ≡ fuel = omega arith in
      ap (λ n. key_round (keys_loop n) keys (member_text quoted printed f ++ t)) same
      ∙ read_member (keys_loop fuel) keys f t r ends
  read_members f (g ∷ later) fuel keys t (r, rs) ends =
      let more = members_text quoted printed (g ∷ later) in
      let less : length (g ∷ later) + fuel ≡ suc (length later + fuel) = omega arith in
      let first =
        read_member (keys_loop (suc (length later + fuel))) keys f (b',' ∷ (more ++ t)) r refl in
      let rest = read_members g later fuel (keys ++ (f.0 ∷ [])) t rs ends in
      let joined : (keys ++ (f.0 ∷ [])) ++ names (g ∷ later) ≡ keys ++ names (f ∷ g ∷ later) =
        append_assoc keys (f.0 ∷ []) (names (g ∷ later)) in
      (ap (λ n. key_round (keys_loop n) keys ((member_text quoted printed f ++ (b',' ∷ more)) ++ t))
          less
        ∙ ap (key_round (keys_loop (suc (length later + fuel))) keys)
            (append_assoc (member_text quoted printed f) (b',' ∷ more) t))
      ∙ (first ∙ (rest ∙ ap (λ ks. next_member (keys_loop fuel) ks (skip_ws t)) joined))

-- The loop over the members that were there, with more keys before and more fuel.
pub bind_done :
    {A : Type 0} {B : Type 0} (p : Scan A) (f : A → Bytes → Scan B) (b : B) (r : Bytes)
    → (p >>= f) ≡ done b r
    → (a : A) × (s : Bytes) × (p ≡ done a s) × (f a s ≡ done b r)
bind_done (done a s) f b r h = (a, s, refl, h)
bind_done invalid f b r h = cc
bind_done out_of_fuel f b r h = cc

next_after :
    (loop loop' : List Bytes → Bytes → Scan (List Bytes)) (before keys out : List Bytes)
    (s r : Bytes)
    → ((s : Bytes) → loop keys s ≡ done out r → loop' (before ++ keys) s ≡ done (before ++ out) r)
    → next_member loop keys s ≡ done out r
    → next_member loop' (before ++ keys) s ≡ done (before ++ out) r
next_after loop loop' before keys out [] r follow h = cc
next_after loop loop' before keys out (c ∷ s) r follow h = chosen (c == b',') (c == b'}') h
  where
    chosen :
        (comma close : Bool)
        → (if comma then loop keys s else if close then done keys s else invalid) ≡ done out r
        → (if comma
            then loop' (before ++ keys) s
            else if close
            then done (before ++ keys) s
            else invalid)
          ≡ done (before ++ out) r
    chosen true close h = follow s h
    chosen false true h =
        let keys_same : keys ≡ out = cc in
        let rest_same : s ≡ r = cc in
        ap (λ ks. done (before ++ ks) s) keys_same ∙ ap (done (before ++ out)) rest_same
    chosen false false h = cc

pub keys_after :
    (fuel more : ℕ) (before keys out : List Bytes) (s r : Bytes)
    → keys_loop fuel keys s ≡ done out r
    → keys_loop (fuel + more) (before ++ keys) s ≡ done (before ++ out) r
unfolding keys_loop
keys_after zero more before keys out s r h = cc
keys_after (suc fuel) more before keys out s r h =
    let (key, s1, decoded, h1) = bind_done (string_decode (skip_ws s)) _ out r h in
    let (_, s2, colon, h2) = bind_done (expect b':' (skip_ws s1)) _ out r h1 in
    let (_, s3, skipped, h3) = bind_done (skip_value s2) _ out r h2 in
    let fuels : suc fuel + more ≡ suc (fuel + more) = omega arith in
    let moved : next_member (keys_loop (fuel + more)) (before ++ (keys ++ (key ∷ []))) (skip_ws s3)
        ≡ done (before ++ out) r =
      next_after (keys_loop fuel) (keys_loop (fuel + more)) before (keys ++ (key ∷ [])) out
        (skip_ws s3) r (λ t. keys_after fuel more before (keys ++ (key ∷ [])) out t r) h3 in
    rw (fuels, decoded, colon, skipped, append_assoc before keys (key ∷ [])) moved
