-- ===== src/Rewrite/Id.antt =====
-- crates/osproxy-rewrite/src/id.rs: constructing a document id from a template, and mapping ids both
-- ways on the read path. The `while let` loops take fuel; one more than the template's length is
-- enough, since each round passes over at least the two braces.
pub mod Totality
pub mod Roundtrip
pub mod Collision
use opensearch_proxy.Prelude.{
  ℕ, zero, suc, Bool, true, false, Option, none, some, List, [], ◌∷◌, ◌++◌, Result, ok, err, ◌==◌,
  nat_eq, list_eq, length, if◌then◌else◌,
}
use opensearch_proxy.Prelude.Bytes.{Bytes, ascii, split_at, strip_prefix, strip_suffix}
use opensearch_proxy.Rewrite.Failure.{
  RewriteError, irreversible_id_template, unsupported_placeholder,
}

-- What `find('{')` and then `find('}')` tell of the rest of a template.
pub data Next : Type 0 where
  literal_only : Next
  unterminated : Bytes → Next
  found : Bytes → Bytes → Bytes → Next

abbrev pub closed_by : Bytes → Bytes → Option (Bytes × Bytes) → Next
closed_by literal after none = unterminated after
closed_by literal after (some (name, rest)) = found literal name rest

abbrev pub opened_by : Option (Bytes × Bytes) → Next
opened_by none = literal_only
opened_by (some (literal, after)) = closed_by literal after (split_at b'}' after)

unfoldable pub next : Bytes → Next
next rest = opened_by (split_at b'{' rest)

pub data Placeholder : Type 0 where
  partition : Placeholder
  body : Bytes → Placeholder
  unsupported : Placeholder

abbrev body_or_unsupported : Option Bytes → Placeholder
body_or_unsupported none = unsupported
body_or_unsupported (some path) = body path

unfoldable pub placeholder : Bytes → Placeholder
placeholder name =
    if name == ascii "partition"
    then partition
    else body_or_unsupported (strip_prefix (ascii "body.") name)

-- The two loops answer `none` when the fuel has run out.
abbrev pub Looped : Type 0 → Type 0
Looped A = Option (Result A RewriteError)

module _ (resolve_body : Bytes → Result Bytes RewriteError) (partition_text : Bytes) where
  -- a resolved `{body.<path>}`: `?`, then the rest of the loop
  abbrev pub resolved : (Bytes → Looped Bytes) → Result Bytes RewriteError → Looped Bytes
  resolved continue (ok text) = continue text
  resolved continue (err e) = some (err e)

  abbrev pub expand :
      (Bytes → Bytes → Looped Bytes) → Bytes → Bytes → Bytes → Placeholder → Looped Bytes
  expand loop name rest out partition = loop rest (out ++ partition_text)
  expand loop name rest out (body path) =
      resolved (λ text. loop rest (out ++ text)) (resolve_body path)
  expand loop name rest out unsupported = some (err (unsupported_placeholder name))

  abbrev pub construct_round : (Bytes → Bytes → Looped Bytes) → Bytes → Bytes → Next → Looped Bytes
  construct_round loop rest out literal_only = some (ok (out ++ rest))
  construct_round loop rest out (unterminated after) = some (err (unsupported_placeholder after))
  construct_round loop rest out (found literal name after) =
      expand loop name after (out ++ literal) (placeholder name)

  unfoldable pub construct_loop : ℕ → Bytes → Bytes → Looped Bytes
  construct_loop zero rest out = none
  construct_loop (suc fuel) rest out = construct_round (construct_loop fuel) rest out (next rest)

  unfoldable pub construct_id_with : Bytes → Looped Bytes
  unfolding construct_loop
  construct_id_with template = construct_loop (suc (length template)) template []

-- The frame read so far: what stands before the body placeholder, and after it once it was seen.
pub record Frame : Type 0 where
  pub prefix : Bytes
  pub suffix : Bytes
  pub seen_body : Bool

abbrev pub push : Bytes → Frame → Frame
push text f =
    if f.seen_body
    then record f { suffix = f.suffix ++ text }
    else record f { prefix = f.prefix ++ text }

abbrev pub frame_end : Bytes → Frame → Looped (Bytes × Bytes)
frame_end rest f =
    if f.seen_body
    then some (ok (f.prefix, f.suffix ++ rest))
    else some (err irreversible_id_template)

module _ (partition_text : Bytes) where
  abbrev pub frame_placeholder :
      (Bytes → Frame → Looped (Bytes × Bytes))
      → Bytes
      → Bytes
      → Frame
      → Placeholder
      → Looped (Bytes × Bytes)
  frame_placeholder loop name rest f partition = loop rest (push partition_text f)
  frame_placeholder loop name rest f (body path) =
      if f.seen_body
      then some (err irreversible_id_template)
      else loop rest (record f { seen_body = true })
  frame_placeholder loop name rest f unsupported = some (err (unsupported_placeholder name))

  abbrev pub frame_round :
      (Bytes → Frame → Looped (Bytes × Bytes)) → Bytes → Frame → Next → Looped (Bytes × Bytes)
  frame_round loop rest f literal_only = frame_end rest f
  frame_round loop rest f (unterminated after) = some (err (unsupported_placeholder after))
  frame_round loop rest f (found literal name after) =
      frame_placeholder loop name after (push literal f) (placeholder name)

  unfoldable pub frame_loop : ℕ → Bytes → Frame → Looped (Bytes × Bytes)
  frame_loop zero rest f = none
  frame_loop (suc fuel) rest f = frame_round (frame_loop fuel) rest f (next rest)

abbrev pub no_frame : Frame
no_frame = record { prefix = []; suffix = []; seen_body = false }

unfoldable pub id_frame : Bytes → Bytes → Looped (Bytes × Bytes)
unfolding frame_loop
id_frame template partition_text =
    frame_loop partition_text (suc (length template)) template no_frame

abbrev pub looped_map : {A B : Type 0} → (A → B) → Looped A → Looped B
looped_map g none = none
looped_map g (some (ok a)) = some (ok (g a))
looped_map g (some (err e)) = some (err e)

unfoldable pub map_logical_to_physical : Bytes → Bytes → Bytes → Looped Bytes
map_logical_to_physical template partition_text logical =
    looped_map (λ (frame : Bytes × Bytes). frame.0 ++ (logical ++ frame.1))
      (id_frame template partition_text)

abbrev pub strip_rest : Bytes → Option Bytes → Option Bytes
strip_rest suffix none = none
strip_rest suffix (some rest) = strip_suffix suffix rest

abbrev pub strip_frame : Bytes → Bytes × Bytes → Option Bytes
strip_frame physical (prefix, suffix) = strip_rest suffix (strip_prefix prefix physical)

unfoldable pub map_physical_to_logical : Bytes → Bytes → Bytes → Looped (Option Bytes)
map_physical_to_logical template partition_text physical =
    looped_map (strip_frame physical) (id_frame template partition_text)
