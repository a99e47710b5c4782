-- ===== src/Rewrite/Fields/Splice/Body.antt =====
-- crates/osproxy-rewrite/src/fields.rs: the body that a splice answers, scanned as a document.
use opensearch_proxy.Prelude.{
  ℕ, suc, ◌+◌, ◌-◌, ◌≤◌, ◌≡◌, refl, sym, ap, ◌∙◌, Bool, true, false, Option, none, some, List, [],
  ◌∷◌, ◌++◌, append_assoc, append-nil, ◌==◌, nat_eq, if◌then◌else◌, length, length-append, arith,
  All, ok, any, list_eq,
}
use opensearch_proxy.Prelude.Bytes.{Bytes}
use opensearch_proxy.Core.Ids.{FieldName}
use opensearch_proxy.Core.Json.{Value}
use opensearch_proxy.Core.Scan.Cursor.{done, ◌>>=◌, skip_ws}
use opensearch_proxy.Core.Scan.Document.{
  TopLevel, next_member, keys_loop, with_keys, object_members, object_top_level,
}
use opensearch_proxy.Rewrite.Fields.{
  Injected, member_text, members_text, first_bytes, bytes_from, spliced, taken, splice_or_refuse,
  inject_top, injected_bytes, inject_fields_bytes,
}
use opensearch_proxy.Rewrite.Fields.Inverse.{names}
use opensearch_proxy.Rewrite.Fields.Splice.Keys.{IsDelimited, Reads, read_members, keys_after}
use opensearch_proxy.Rewrite.Fields.Splice.Object.{
  Members, none_there, some_there, object-Members, brace-IsDelimited, object_top_level-IsObject,
  object_top_level-parts,
}

quoted_members :
    (at : ℕ) (y : Bytes) (all : List Bytes) (r : Bytes)
    → keys_loop (suc (length (b'"' ∷ y))) [] (b'"' ∷ y) ≡ done all r
    → object_members at (b'"' ∷ y) ≡ done (record { insert_at = at; empty = false; keys = all }) r
unfolding object_members skip_ws
quoted_members at y all r h = ap (λ p. p >>= with_keys at) h

module _ (quoted : Bytes → Bytes) (printed : Value → Bytes) where
  member_first :
      (f : FieldName × Value) (t : Bytes)
      → Reads quoted printed f
      → (y : Bytes) × (member_text quoted printed f ++ t ≡ b'"' ∷ y)
  member_first f t r = ((r.inside ++ (b':' ∷ printed f.1)) ++ t, rw r.quote_first refl)

  text_first :
      (f : FieldName × Value) (later : Injected) (t : Bytes)
      → Reads quoted printed f
      → (y : Bytes) × (members_text quoted printed (f ∷ later) ++ t ≡ b'"' ∷ y)
  unfolding members_text
  text_first f [] t r = member_first f t r
  text_first f (g ∷ later) t r =
      let (y, same) = member_first f (b',' ∷ (members_text quoted printed (g ∷ later) ++ t)) r in
      (y, append_assoc (member_text quoted printed f) _ t ∙ same)

  length-members_text :
      (f : FieldName × Value) (later : Injected)
      → suc (length later) ≤ length (members_text quoted printed (f ∷ later))
  unfolding members_text
  length-members_text f [] = omega (arith, length-append (quoted f.0) (b':' ∷ printed f.1))
  length-members_text f (g ∷ later) = omega (
    arith,
    length-members_text g later,
    length-append (member_text quoted printed f) (b',' ∷ members_text quoted printed (g ∷ later)),
  )

  -- The members of a splice and what follows them, from past the brace on.
  read_spliced :
      (at : ℕ) (f : FieldName × Value) (later : Injected) (t r : Bytes) (all : List Bytes)
      → All (Reads quoted printed) (f ∷ later)
      → IsDelimited t
      → ((fuel : ℕ)
          → length t ≤ fuel
          → next_member (keys_loop fuel) (names (f ∷ later)) (skip_ws t) ≡ done all r)
      → object_members at (members_text quoted printed (f ∷ later) ++ t)
        ≡ done (record { insert_at = at; empty = false; keys = all }) r
  read_spliced at f later t r all reads ends rest =
      let x = members_text quoted printed (f ∷ later) ++ t in
      let (y, quote) = text_first f later t reads.0 in
      let n : ℕ = length x - length later in
      let size : length x ≡ length (members_text quoted printed (f ∷ later)) + length t =
        length-append (members_text quoted printed (f ∷ later)) t in
      let enough = length-members_text f later in
      let fuels : suc (length x) ≡ suc (length later + n) = omega (arith, size, enough) in
      let loop : keys_loop (suc (length x)) [] x ≡ done all r =
        ap (λ k. keys_loop k [] x) fuels
        ∙ (read_members quoted printed f later n [] t reads ends
            ∙ rest n (omega (arith, size, enough))) in
      ap (object_members at) quote
      ∙ quoted_members at y all r (sym (ap (λ x. keys_loop (suc (length x)) [] x) quote) ∙ loop)

  -- What follows the members of a splice: a comma if there were members, and the bytes from past the
  -- brace on.
  abbrev followed : Bool → Bytes → Bytes
  followed empty s = (if empty then [] else b',' ∷ []) ++ s

  read_again :
      (at : ℕ) (f : FieldName × Value) (later : Injected) (s r : Bytes) (top : TopLevel)
      → All (Reads quoted printed) (f ∷ later)
      → Members at s r top
      → object_members at (members_text quoted printed (f ∷ later) ++ followed top.empty s)
        ≡ done (record { insert_at = at; empty = false; keys = names (f ∷ later) ++ top.keys }) r
  unfolding skip_ws
  read_again at f later s r top reads (none_there brace same) = rw same (
      read_spliced at f later s r (names (f ∷ later) ++ []) reads (brace-IsDelimited s r brace)
        (λ fuel le.
          ap (next_member (keys_loop fuel) (names (f ∷ later))) brace
          ∙ ap (λ ks. done ks r) (sym (append-nil (names (f ∷ later))))))
  read_again at f later s r top reads (some_there fuel keys short loop same) = rw same (
      read_spliced at f later (b',' ∷ s) r (names (f ∷ later) ++ keys) reads refl (λ n le.
        let more : fuel + (n - fuel) ≡ n = omega (arith, short, le) in
        (ap (λ ks. keys_loop n ks s) (sym (append-nil (names (f ∷ later))))
          ∙ ap (λ k. keys_loop k (names (f ∷ later) ++ []) s) (sym more))
        ∙ keys_after fuel (n - fuel) (names (f ∷ later)) [] keys s r loop))

-- The members start where the object says.
insert_at-Members :
    (at : ℕ) (s r : Bytes) (top : TopLevel) → Members at s r top → top.insert_at ≡ at
insert_at-Members at s r top (none_there _ same) = ap (λ (t : TopLevel). t.insert_at) same
insert_at-Members at s r top (some_there _ _ _ _ same) = ap (λ (t : TopLevel). t.insert_at) same

cut_at :
    (w s : Bytes)
    → (first_bytes (suc (length w)) (w ++ (b'{' ∷ s)) ≡ w ++ (b'{' ∷ []))
      × (bytes_from (suc (length w)) (w ++ (b'{' ∷ s)) ≡ s)
cut_at [] s = (refl, refl)
cut_at (c ∷ w) s = let (first, rest) = cut_at w s in (ap (λ t. c ∷ t) first, rest)

-- No key that was there has the name of a field.
abbrev pub AreFree : Injected → List Bytes → Type 0
AreFree fields keys = All (λ name. any (λ k. k == name) keys ≡ false) (names fields)

free_or_taken :
    (name : Bytes) (b : Bool) (later : Option FieldName)
    → (if b then some name else later) ≡ none
    → (b ≡ false) × (later ≡ none)
free_or_taken name true later h = cc
free_or_taken name false later h = (refl, h)

taken-AreFree :
    (fields : Injected) (keys : List Bytes) → taken fields keys ≡ none → AreFree fields keys
taken-AreFree [] keys h = tt
taken-AreFree ((name, v) ∷ fields) keys h =
    let (free, later) = free_or_taken name (any (λ k. k == name) keys) (taken fields keys) h in
    (free, taken-AreFree fields keys later)

module _ (quoted : Bytes → Bytes) (printed : Value → Bytes) where
  not_refused :
      (body out : Bytes) (fields : Injected) (top : TopLevel) (o : Option FieldName)
      → splice_or_refuse quoted printed body fields top o ≡ ok out
      → (o ≡ none) × (out ≡ spliced quoted printed body fields top)
  not_refused body out fields top none h =
      (refl, (let same : spliced quoted printed body fields top ≡ out = cc in sym same))
  not_refused body out fields top (some name) h = cc

  spliced_whole :
      (body : Bytes) (fields : Injected) (top : TopLevel) (w s : Bytes)
      → body ≡ w ++ (b'{' ∷ s)
      → top.insert_at ≡ suc (length w)
      → spliced quoted printed body fields top
        ≡ w ++ (b'{' ∷ (members_text quoted printed fields ++ followed quoted printed top.empty s))
  spliced_whole body fields top w s whole at =
      let (first, rest) = cut_at w s in rw (whole, at, first, rest) (append_assoc w (b'{' ∷ []) _)

  -- A splice writes what it means to: if fields are spliced into a body that scans as an object, no key
  -- of the body has the name of a field, and the new body scans as an object, whose keys are the names
  -- of the fields and then the keys of the body. The serializer writes names and values that read back.
  pub inject_fields_bytes-top :
      (body out : Bytes) (f : FieldName × Value) (later : Injected) (top : TopLevel)
      → All (Reads quoted printed) (f ∷ later)
      → object_top_level body ≡ some (ok top)
      → inject_fields_bytes quoted printed body (f ∷ later) ≡ some (ok out)
      → AreFree (f ∷ later) top.keys
        × (object_top_level out
            ≡ some (
                ok (record {
                  insert_at = top.insert_at;
                  empty = false;
                  keys = names (f ∷ later) ++ top.keys;
                })))
  unfolding inject_fields_bytes
  inject_fields_bytes-top body out f later top reads scanned h =
      let o = object_top_level-IsObject body top scanned in
      let step : some (inject_top quoted printed body (f ∷ later) top) ≡ some (ok out) =
        sym (ap (injected_bytes quoted printed body (f ∷ later)) scanned) ∙ h in
      let refused : inject_top quoted printed body (f ∷ later) top ≡ ok out = cc in
      let (free, written) =
        not_refused body out (f ∷ later) top (taken (f ∷ later) top.keys) refused in
      let ms = object-Members (suc (length o.spaces)) o.inner o.behind top o.members in
      let at = insert_at-Members (suc (length o.spaces)) o.inner o.behind top ms in
      (
        taken-AreFree (f ∷ later) top.keys free,
        ap object_top_level
              (written ∙ spliced_whole body (f ∷ later) top o.spaces o.inner o.whole at)
            ∙ (object_top_level-parts o.spaces
                  (members_text quoted printed (f ∷ later)
                    ++ followed quoted printed top.empty o.inner)
                  o.behind
                  (record {
                    insert_at = suc (length o.spaces);
                    empty = false;
                    keys = names (f ∷ later) ++ top.keys;
                  })
                  o.blank
                  (read_again quoted printed (suc (length o.spaces)) f later o.inner o.behind top
                    reads ms)
                  o.closed
                ∙ ap
                    (λ n. some (
                      ok (record {
                        insert_at = n;
                        empty = false;
                        keys = names (f ∷ later) ++ top.keys;
                      })))
                    (sym at)),
      )
