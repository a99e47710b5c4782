-- ===== src/Rewrite/Id/Totality.antt =====
-- crates/osproxy-rewrite/src/id.rs: the loops end within their fuel.
use opensearch_proxy.Prelude.{
  ℕ, zero, suc, ◌+◌, ◌≤◌, ◌<◌, ◌≡◌, refl, Bool, true, false, Option, none, some, [], ◌++◌, Result,
  ok, err, arith, length, if◌then◌else◌,
}
use opensearch_proxy.Prelude.Bytes.{Bytes, split_at, length-split_at}
use opensearch_proxy.Rewrite.Failure.{RewriteError, irreversible_id_template}
use opensearch_proxy.Rewrite.Id.{
  Next, literal_only, unterminated, found, closed_by, opened_by, next, Placeholder, partition, body,
  unsupported, placeholder, Looped, resolved, expand, construct_round, construct_loop,
  construct_id_with, Frame, push, frame_placeholder, frame_round, frame_loop, no_frame, id_frame,
  looped_map, map_logical_to_physical, map_physical_to_logical,
}

-- The loop answered: a value or an error of the source.
abbrev pub Ends : {A : Type 0} → Looped A → Type 0
Ends {A} o = (r : Result A RewriteError) × (o ≡ some r)

-- The rest after a placeholder is shorter than what was searched.
abbrev IsShorter : Next → ℕ → Type 0
IsShorter literal_only n = Unit
IsShorter (unterminated _) n = Unit
IsShorter (found _ _ after) n = length after < n

closed-IsShorter :
    (literal after : Bytes) (o : Option (Bytes × Bytes)) (n : ℕ)
    → ((name rest : Bytes) → o ≡ some (name, rest) → length name + suc (length rest) ≡ length after)
    → length literal + suc (length after) ≡ n
    → IsShorter (closed_by literal after o) n
closed-IsShorter literal after none n inner whole = tt
closed-IsShorter literal after (some (name, rest)) n inner whole =
    omega (arith, inner name rest refl)

opened-IsShorter :
    (o : Option (Bytes × Bytes)) (n : ℕ)
    → ((literal after : Bytes)
        → o ≡ some (literal, after)
        → length literal + suc (length after) ≡ n)
    → IsShorter (opened_by o) n
opened-IsShorter none n outer = tt
opened-IsShorter (some (literal, after)) n outer =
    closed-IsShorter literal after (split_at b'}' after) n (length-split_at b'}' after)
      (outer literal after refl)

next-IsShorter : (rest : Bytes) → IsShorter (next rest) (length rest)
unfolding next
next-IsShorter rest =
    opened-IsShorter (split_at b'{' rest) (length rest) (length-split_at b'{' rest)

module _ (resolve_body : Bytes → Result Bytes RewriteError) (partition_text : Bytes) where
  resolved-Ends :
      (continue : Bytes → Looped Bytes) (r : Result Bytes RewriteError)
      → ((text : Bytes) → Ends (continue text))
      → Ends (resolved resolve_body partition_text continue r)
  resolved-Ends continue (ok text) each = each text
  resolved-Ends continue (err e) each = (err e, refl)

  expand-Ends :
      (loop : Bytes → Bytes → Looped Bytes) (name rest out : Bytes) (p : Placeholder)
      → ((out : Bytes) → Ends (loop rest out))
      → Ends (expand resolve_body partition_text loop name rest out p)
  expand-Ends loop name rest out partition each = each (out ++ partition_text)
  expand-Ends loop name rest out (body path) each =
      resolved-Ends (λ text. loop rest (out ++ text)) (resolve_body path)
        (λ text. each (out ++ text))
  expand-Ends loop name rest out unsupported each = (_, refl)

  round-Ends :
      (loop : Bytes → Bytes → Looped Bytes) (rest out : Bytes) (fuel : ℕ) (n : Next)
      → length rest ≤ fuel
      → IsShorter n (length rest)
      → ((after out : Bytes) → length after < fuel → Ends (loop after out))
      → Ends (construct_round resolve_body partition_text loop rest out n)
  round-Ends loop rest out fuel literal_only le shorter each = (_, refl)
  round-Ends loop rest out fuel (unterminated after) le shorter each = (_, refl)
  round-Ends loop rest out fuel (found literal name after) le shorter each =
      expand-Ends loop name after (out ++ literal) (placeholder name)
        (λ o. each after o (omega arith))

  construct_loop-Ends :
      (fuel : ℕ) (rest out : Bytes)
      → length rest < fuel
      → Ends (construct_loop resolve_body partition_text fuel rest out)
  unfolding construct_loop
  construct_loop-Ends zero rest out lt = elim lt [ ]
  construct_loop-Ends (suc fuel) rest out lt =
      round-Ends (construct_loop resolve_body partition_text fuel) rest out fuel (next rest)
        (omega arith) (next-IsShorter rest) (λ after o less. construct_loop-Ends fuel after o less)

module _ (partition_text : Bytes) where
  body-Ends :
      (loop : Bytes → Frame → Looped (Bytes × Bytes)) (rest : Bytes) (f : Frame) (b : Bool)
      → ((g : Frame) → Ends (loop rest g))
      → Ends (
          if b
          then some (err irreversible_id_template)
          else loop rest (record f { seen_body = true }))
  body-Ends loop rest f true each = (_, refl)
  body-Ends loop rest f false each = each (record f { seen_body = true })

  frame_placeholder-Ends :
      (loop : Bytes → Frame → Looped (Bytes × Bytes)) (name rest : Bytes) (f : Frame)
      (p : Placeholder)
      → ((g : Frame) → Ends (loop rest g))
      → Ends (frame_placeholder partition_text loop name rest f p)
  frame_placeholder-Ends loop name rest f partition each = each (push partition_text f)
  frame_placeholder-Ends loop name rest f (body path) each = body-Ends loop rest f f.seen_body each
  frame_placeholder-Ends loop name rest f unsupported each = (_, refl)

  end-Ends :
      (b : Bool) (x : Bytes × Bytes)
      → Ends (if b then some (ok x) else some (err irreversible_id_template))
  end-Ends true x = (_, refl)
  end-Ends false x = (_, refl)

  frame_round-Ends :
      (loop : Bytes → Frame → Looped (Bytes × Bytes)) (rest : Bytes) (f : Frame) (fuel : ℕ)
      (n : Next)
      → length rest ≤ fuel
      → IsShorter n (length rest)
      → ((after : Bytes) (g : Frame) → length after < fuel → Ends (loop after g))
      → Ends (frame_round partition_text loop rest f n)
  frame_round-Ends loop rest f fuel literal_only le shorter each = end-Ends f.seen_body _
  frame_round-Ends loop rest f fuel (unterminated after) le shorter each = (_, refl)
  frame_round-Ends loop rest f fuel (found literal name after) le shorter each =
      frame_placeholder-Ends loop name after (push literal f) (placeholder name)
        (λ g. each after g (omega arith))

  frame_loop-Ends :
      (fuel : ℕ) (rest : Bytes) (f : Frame)
      → length rest < fuel
      → Ends (frame_loop partition_text fuel rest f)
  unfolding frame_loop
  frame_loop-Ends zero rest f lt = elim lt [ ]
  frame_loop-Ends (suc fuel) rest f lt =
      frame_round-Ends (frame_loop partition_text fuel) rest f fuel (next rest) (omega arith)
        (next-IsShorter rest) (λ after g less. frame_loop-Ends fuel after g less)

looped_map-Ends : {A B : Type 0} (g : A → B) (o : Looped A) → Ends o → Ends (looped_map g o)
looped_map-Ends g none (r, h) = cc
looped_map-Ends g (some (ok a)) e = (_, refl)
looped_map-Ends g (some (err why)) e = (_, refl)

-- Every operation on a template ends within its fuel, with a result or an error of the source, for
-- every template, partition, document and id.
pub id_operations_end :
    (resolve_body : Bytes → Result Bytes RewriteError) (template partition_text id : Bytes)
    → Ends (construct_id_with resolve_body partition_text template)
      × Ends (map_logical_to_physical template partition_text id)
      × Ends (map_physical_to_logical template partition_text id)
unfolding construct_id_with id_frame map_logical_to_physical map_physical_to_logical
id_operations_end resolve_body template partition_text id = (
  construct_loop-Ends resolve_body partition_text (suc (length template)) template [] (omega arith),
  looped_map-Ends _ _
      (frame_loop-Ends partition_text (suc (length template)) template no_frame (omega arith)),
  looped_map-Ends _ _
      (frame_loop-Ends partition_text (suc (length template)) template no_frame (omega arith)),
)
