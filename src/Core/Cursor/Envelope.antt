-- ===== src/Core/Cursor/Envelope.antt =====
-- crates/osproxy-core/src/cursor.rs: wrapping a cursor, unwrapping a token, and what a token proves.
use opensearch_proxy.Prelude.{
  ℕ, ◌%◌, ◌*◌, ◌≡◌, refl, sym, ap, ◌∙◌, ◌≢◌, ◌⊎◌, inl, inr, Bool, true, false, Option, none, some,
  [], ◌∷◌, ◌++◌, ◌==◌, nat_eq, list_eq, eq_sound, eq_refl, length, arith, append_assoc, Bool-cases,
  any, ne_of_eq_false, ◌||◌,
}
use opensearch_proxy.Prelude.Bytes
use opensearch_proxy.Prelude.Bytes.{Bytes, prepend}
use opensearch_proxy.Prelude.Utf8.{from_utf8}
use opensearch_proxy.Core.Ids.{ClusterId}
use opensearch_proxy.Core.Cursor.{
  push_hex, decode_pairs, decode_hex_to_string, hex_eq_ct, binding, wrap, verified, unwrap_rest,
  unwrap_parts, unwrap,
}
use opensearch_proxy.Core.Cursor.Hex.{
  AreBytes, hex_text, push_hex-text, length-hex_text, decode_pairs-hex_text, split-hex_text,
  hex_eq_ct-hex_text, hex_eq_ct-decode_pairs,
}

even_text : (n : ℕ) → n * 2 % 2 ≡ 0
even_text n = omega arith

decoded-hex_text :
    (bytes : Bytes)
    → AreBytes bytes
    → from_utf8 bytes ≡ true
    → decode_hex_to_string (hex_text bytes) ≡ some bytes
unfolding decode_hex_to_string
decoded-hex_text bytes h utf8 =
    rw (length-hex_text bytes, even_text (length bytes), decode_pairs-hex_text bytes h, utf8) refl

-- A text without the byte, and what an equation of two bindings says.
abbrev pub Lacks : ℕ → Bytes → Type 0
Lacks c s = any (λ x. x == c) s ≡ false

or_false : (a b : Bool) → (a || b) ≡ false → (a ≡ false) × (b ≡ false)
or_false a b h = ground arith

found_behind : (c : ℕ) (a b : Bytes) → any (λ x. x == c) (a ++ (c ∷ b)) ≡ true
found_behind c [] b = rw (eq_refl c) refl
found_behind c (x ∷ a) b = ground (arith, found_behind c a b)

no_separator : (c : ℕ) (b a' b' : Bytes) → Lacks c b → b ≡ a' ++ (c ∷ b') → ⊥
no_separator c b a' b' free h =
    let wrong : true ≡ false =
      sym (found_behind c a' b') ∙ (sym (ap (any (λ x. x == c)) h) ∙ free) in
    cc

separated :
    (c : ℕ) (a b a' b' : Bytes)
    → Lacks c a
    → Lacks c b
    → a ++ (c ∷ b) ≡ a' ++ (c ∷ b')
    → (a ≡ a') × (b ≡ b')
separated c [] b [] b' free_a free_b h = let same : b ≡ b' = cc in (refl, same)
separated c [] b (y ∷ a') b' free_a free_b h =
    let tail : b ≡ a' ++ (c ∷ b') = cc in absurd (no_separator c b a' b' free_b tail)
separated c (x ∷ a) b [] b' free_a free_b h =
    let first : x ≡ c = cc in
    absurd (ne_of_eq_false x c (or_false (x == c) (any (λ x. x == c) a) free_a).0 first)
separated c (x ∷ a) b (y ∷ a') b' free_a free_b h =
    let first : x ≡ y = cc in
    let tail : a ++ (c ∷ b) ≡ a' ++ (c ∷ b') = cc in
    let (same, behind) =
      separated c a b a' b' (or_false (x == c) (any (λ x. x == c) a) free_a).1 free_b tail in
    (ap (λ h. h ∷ a) first ∙ ap (λ t. y ∷ t) same, behind)

module _ (tag : Bytes → Bytes) where
  wrap-text :
      (cluster : ClusterId) (cursor : Bytes)
      → wrap tag cluster cursor
        ≡ hex_text cluster ++ (b'.' ∷ (hex_text (tag (binding cluster cursor)) ++ (b'.' ∷ cursor)))
  unfolding wrap
  wrap-text cluster cursor =
      rw
        (
          push_hex-text (push_hex [] cluster ++ (b'.' ∷ [])) (tag (binding cluster cursor)),
          push_hex-text [] cluster,
          append_assoc (hex_text cluster ++ (b'.' ∷ [])) (hex_text (tag (binding cluster cursor)))
              (b'.' ∷ cursor),
        )
        (append_assoc (hex_text cluster) (b'.' ∷ []) _)

  -- A token that was wrapped is unwrapped to its cluster and its cursor, whatever the cursor holds, on
  -- every instance with the same signer. The cluster is a string, and the signer answers bytes.
  pub unwrap-wrap :
      (cluster : ClusterId) (cursor : Bytes)
      → AreBytes cluster
      → from_utf8 cluster ≡ true
      → AreBytes (tag (binding cluster cursor))
      → unwrap tag (wrap tag cluster cursor) ≡ some (cluster, cursor)
  unfolding unwrap
  unwrap-wrap cluster cursor bytes utf8 tag_bytes =
      rw
        (
          wrap-text cluster cursor,
          split-hex_text cluster (hex_text (tag (binding cluster cursor)) ++ (b'.' ∷ cursor)) bytes,
          split-hex_text (tag (binding cluster cursor)) cursor tag_bytes,
          decoded-hex_text cluster bytes utf8,
          hex_eq_ct-hex_text (tag (binding cluster cursor)) tag_bytes,
        )
        refl

-- The tag that a token presents: the bytes of its second part.
abbrev presented_by : Option (Bytes × Bytes) → Option Bytes
presented_by none = none
presented_by (some (tag_hex, cursor)) = decode_pairs tag_hex

abbrev second_part : Option (Bytes × Bytes) → Option (Bytes × Bytes)
second_part none = none
second_part (some (first, rest)) = Bytes.split_at b'.' rest

abbrev pub presented_tag : Bytes → Option Bytes
presented_tag token = presented_by (second_part (Bytes.split_at b'.' token))

-- The signer gives two different messages the same tag.
abbrev pub AreForged : (Bytes → Bytes) → Bytes → Bytes → Type 0
AreForged tag m m' = (m ≢ m') × (tag m ≡ tag m')

module _ (tag : Bytes → Bytes) where
  verified-decode_pairs :
      (tag_hex cursor : Bytes) (o : Option Bytes) (cluster : ClusterId) (found : Bytes)
      → verified tag tag_hex cursor o ≡ some (cluster, found)
      → decode_pairs tag_hex ≡ some (tag (binding cluster found))
  verified-decode_pairs tag_hex cursor none cluster found h = cc
  verified-decode_pairs tag_hex cursor (some c) cluster found h =
      elim (Bool-cases (hex_eq_ct tag_hex (tag (binding c cursor)))) [
        | inl same ↦
            let taken : ◌≡◌ {A = Option (ClusterId × Bytes)} (some (c, cursor))
                (some (cluster, found)) =
              rw same at h in
            let pair : ◌≡◌ {A = ClusterId × Bytes} (c, cursor) (cluster, found) = cc in
            hex_eq_ct-decode_pairs tag_hex (tag (binding c cursor)) same
            ∙ ap (λ (p : ClusterId × Bytes). some (tag (binding p.0 p.1))) pair
        | inr other ↦
            let wrong : ◌≡◌ {A = Option (ClusterId × Bytes)} none (some (cluster, found)) =
              rw other at h in
            cc
      ]

  rest-presented_by :
      (cluster_hex : Bytes) (o : Option (Bytes × Bytes)) (cluster : ClusterId) (cursor : Bytes)
      → unwrap_rest tag cluster_hex o ≡ some (cluster, cursor)
      → presented_by o ≡ some (tag (binding cluster cursor))
  rest-presented_by cluster_hex none cluster cursor h = cc
  rest-presented_by cluster_hex (some (tag_hex, found)) cluster cursor h =
      verified-decode_pairs tag_hex found (decode_hex_to_string cluster_hex) cluster cursor h

  parts-presented_by :
      (o : Option (Bytes × Bytes)) (cluster : ClusterId) (cursor : Bytes)
      → unwrap_parts tag o ≡ some (cluster, cursor)
      → presented_by (second_part o) ≡ some (tag (binding cluster cursor))
  parts-presented_by none cluster cursor h = cc
  parts-presented_by (some (cluster_hex, rest)) cluster cursor h =
      rest-presented_by cluster_hex (Bytes.split_at b'.' rest) cluster cursor h

  unwrap-presented_tag :
      (token : Bytes) (cluster : ClusterId) (cursor : Bytes)
      → unwrap tag token ≡ some (cluster, cursor)
      → presented_tag token ≡ some (tag (binding cluster cursor))
  unfolding unwrap
  unwrap-presented_tag token cluster cursor h =
      parts-presented_by (Bytes.split_at b'.' token) cluster cursor h

  -- A token that presents the tag of a cluster and a cursor, neither of which holds the unit separator,
  -- is only ever unwrapped to this cluster and this cursor, unless the signer gives the two different
  -- bindings one tag: whatever else a client changes in a token, it reaches no other cluster with the tag.
  pub redirect_needs_collision :
      (token : Bytes) (cluster : ClusterId) (cursor : Bytes) (cluster' : ClusterId)
      (cursor' : Bytes)
      → Lacks 0x1f cluster
      → Lacks 0x1f cursor
      → presented_tag token ≡ some (tag (binding cluster cursor))
      → unwrap tag token ≡ some (cluster', cursor')
      → ((cluster ≡ cluster') × (cursor ≡ cursor'))
        ⊎ AreForged tag (binding cluster cursor) (binding cluster' cursor')
  unfolding binding
  redirect_needs_collision token cluster cursor cluster' cursor' free free_cursor issued accepted =
      let again = unwrap-presented_tag token cluster' cursor' accepted in
      let same_tag : tag (binding cluster cursor) ≡ tag (binding cluster' cursor') = cc in
      elim (Bool-cases (binding cluster cursor == binding cluster' cursor')) [
        | inl same ↦
            inl
              (separated 0x1f cluster cursor cluster' cursor' free free_cursor (eq_sound _ _ same))
        | inr other ↦ inr (ne_of_eq_false _ _ other, same_tag)
      ]
