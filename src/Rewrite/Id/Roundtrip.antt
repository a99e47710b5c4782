-- ===== src/Rewrite/Id/Roundtrip.antt =====
-- crates/osproxy-rewrite/src/id.rs: the write path and the read path build the same id, and the
-- mapping of ids is undone.
use opensearch_proxy.Prelude.{
  ℕ, zero, suc, ◌≡◌, refl, ap, sym, ◌∙◌, Bool, true, false, none, some, List, [], ◌∷◌, ◌++◌,
  append-nil, append_assoc, Result, ok, err, length, if◌then◌else◌, All,
}
use opensearch_proxy.Prelude.Bytes.{Bytes, strip_prefix-append, strip_suffix-append}
use opensearch_proxy.Rewrite.Failure.{RewriteError}
use opensearch_proxy.Rewrite.Id.{
  Next, literal_only, unterminated, found, next, Placeholder, partition, body, unsupported,
  placeholder, Looped, resolved, expand, construct_round, construct_loop, construct_id_with, Frame,
  push, frame_end, frame_placeholder, frame_round, frame_loop, no_frame, id_frame, looped_map,
  strip_rest, strip_frame, map_logical_to_physical, map_physical_to_logical,
}

strip_frame-append :
    (prefix id suffix : Bytes) → strip_frame (prefix ++ (id ++ suffix)) (prefix, suffix) ≡ some id
strip_frame-append prefix id suffix =
    ap (strip_rest suffix) (strip_prefix-append prefix (id ++ suffix))
    ∙ strip_suffix-append id suffix

mapped_back :
    (template partition_text id physical : Bytes) (o : Looped (Bytes × Bytes))
    → looped_map (λ (frame : Bytes × Bytes). frame.0 ++ (id ++ frame.1)) o ≡ some (ok physical)
    → looped_map (strip_frame physical) o ≡ some (ok (some id))
mapped_back template partition_text id physical none h = cc
mapped_back template partition_text id physical (some (err e)) h = cc
mapped_back template partition_text id physical (some (ok (prefix, suffix))) h =
    let same : prefix ++ (id ++ suffix) ≡ physical = cc in
    ap (λ o. some (ok o))
      (ap (λ x. strip_frame x (prefix, suffix)) (sym same) ∙ strip_frame-append prefix id suffix)

-- The mapping of ids is undone: if a logical id maps to a physical id, the physical id maps back to
-- it, for every template, partition and id, also where the id holds text of the frame.
pub physical-of-logical :
    (template partition_text id physical : Bytes)
    → map_logical_to_physical template partition_text id ≡ some (ok physical)
    → map_physical_to_logical template partition_text physical ≡ some (ok (some id))
unfolding map_logical_to_physical map_physical_to_logical
physical-of-logical template partition_text id physical h =
    mapped_back template partition_text id physical (id_frame template partition_text) h

-- What the write loop has written when the read loop has this frame, with the key put in.
abbrev written : Bytes → Frame → Bytes
written key f = if f.seen_body then f.prefix ++ (key ++ f.suffix) else f.prefix

abbrev Matches : Bytes → Bytes → Frame → Type 0
Matches key out f = (out ≡ written key f) × (f.seen_body ≡ false → f.suffix ≡ [])

push-Matches :
    (key text out : Bytes) (b : Bool) (p s : Bytes)
    → Matches key out (record { prefix = p; suffix = s; seen_body = b })
    → Matches key (out ++ text) (push text (record { prefix = p; suffix = s; seen_body = b }))
push-Matches key text out true p s (same, clear) =
    (ap (λ t. t ++ text) same ∙ simp append_assoc, λ h. cc)
push-Matches key text out false p s (same, clear) = (ap (λ t. t ++ text) same, clear)

-- The paths of the body placeholders that a loop meets.
abbrev paths_at : List Bytes → Placeholder → List Bytes
paths_at later partition = later
paths_at later (body path) = path ∷ later
paths_at later unsupported = []

abbrev paths_round : (Bytes → List Bytes) → Next → List Bytes
paths_round loop literal_only = []
paths_round loop (unterminated _) = []
paths_round loop (found _ name after) = paths_at (loop after) (placeholder name)

unfoldable pub body_paths : ℕ → Bytes → List Bytes
body_paths zero rest = []
body_paths (suc fuel) rest = paths_round (body_paths fuel) (next rest)

module _ (resolve_body : Bytes → Result Bytes RewriteError) (partition_text key : Bytes) where
  abbrev pub AllResolve : List Bytes → Type 0
  AllResolve paths = All (λ path. resolve_body path ≡ ok key) paths

  -- The write loop follows the read loop from matching states.
  abbrev Follows :
      (Bytes → Bytes → Looped Bytes)
      → (Bytes → Frame → Looped (Bytes × Bytes))
      → (Bytes → List Bytes)
      → Type 0
  Follows write read paths =
      (rest out : Bytes) (f : Frame) (prefix suffix : Bytes)
      → AllResolve (paths rest)
      → Matches key out f
      → read rest f ≡ some (ok (prefix, suffix))
      → write rest out ≡ some (ok (prefix ++ (key ++ suffix)))

  follow_end :
      (rest out : Bytes) (b : Bool) (p s prefix suffix : Bytes)
      → Matches key out (record { prefix = p; suffix = s; seen_body = b })
      → frame_end rest (record { prefix = p; suffix = s; seen_body = b })
        ≡ some (ok (prefix, suffix))
      → ◌≡◌ {A = Looped Bytes} (some (ok (out ++ rest))) (some (ok (prefix ++ (key ++ suffix))))
  follow_end rest out true p s prefix suffix (same, _) h =
      let first : p ≡ prefix = cc in
      let last : s ++ rest ≡ suffix = cc in
      let moved : (p ++ (key ++ s)) ++ rest ≡ p ++ (key ++ (s ++ rest)) = simp append_assoc in
      ap (λ t. some (ok t))
        (((ap (λ t. t ++ rest) same ∙ moved) ∙ ap (λ t. t ++ (key ++ (s ++ rest))) first)
          ∙ ap (λ t. prefix ++ (key ++ t)) last)
  follow_end rest out false p s prefix suffix same h = cc

  follow_body :
      (write : Bytes → Bytes → Looped Bytes) (read : Bytes → Frame → Looped (Bytes × Bytes))
      (paths : Bytes → List Bytes) (name after out path : Bytes) (b : Bool)
      (p s prefix suffix : Bytes)
      → Follows write read paths
      → AllResolve (paths after)
      → resolve_body path ≡ ok key
      → Matches key out (record { prefix = p; suffix = s; seen_body = b })
      → frame_placeholder partition_text read name after
          (record { prefix = p; suffix = s; seen_body = b })
          (body path)
        ≡ some (ok (prefix, suffix))
      → resolved resolve_body partition_text (λ text. write after (out ++ text)) (resolve_body path)
        ≡ some (ok (prefix ++ (key ++ suffix)))
  follow_body write read paths name after out path true p s prefix suffix loops resolve here m h =
      cc
  follow_body write read paths name after out path false p s prefix suffix loops resolve here
        (same, clear) h =
      let empty : s ≡ [] = clear refl in
      ap (resolved resolve_body partition_text (λ text. write after (out ++ text))) here
      ∙ loops after (out ++ key) (record { prefix = p; suffix = s; seen_body = true }) prefix suffix
          resolve
          (
            ap (λ t. t ++ key) same
                ∙ ap (λ t. p ++ t) (sym (append-nil key) ∙ ap (λ t. key ++ t) (sym empty)),
            λ e. cc,
          )
          h

  follow_placeholder :
      (write : Bytes → Bytes → Looped Bytes) (read : Bytes → Frame → Looped (Bytes × Bytes))
      (paths : Bytes → List Bytes) (name after out : Bytes) (f : Frame) (prefix suffix : Bytes)
      (p : Placeholder)
      → Follows write read paths
      → AllResolve (paths_at (paths after) p)
      → Matches key out f
      → frame_placeholder partition_text read name after f p ≡ some (ok (prefix, suffix))
      → expand resolve_body partition_text write name after out p
        ≡ some (ok (prefix ++ (key ++ suffix)))
  follow_placeholder write read paths name after out f prefix suffix partition loops resolve same
        h =
      loops after (out ++ partition_text) (push partition_text f) prefix suffix resolve
        (push-Matches key partition_text out f.seen_body f.prefix f.suffix same) h
  follow_placeholder write read paths name after out f prefix suffix (body path) loops
        (here, resolve) same h =
      follow_body write read paths name after out path f.seen_body f.prefix f.suffix prefix suffix
        loops resolve here same h
  follow_placeholder write read paths name after out f prefix suffix unsupported loops resolve same
        h =
      cc

  follow_round :
      (write : Bytes → Bytes → Looped Bytes) (read : Bytes → Frame → Looped (Bytes × Bytes))
      (paths : Bytes → List Bytes) (rest out : Bytes) (f : Frame) (prefix suffix : Bytes) (n : Next)
      → Follows write read paths
      → AllResolve (paths_round paths n)
      → Matches key out f
      → frame_round partition_text read rest f n ≡ some (ok (prefix, suffix))
      → construct_round resolve_body partition_text write rest out n
        ≡ some (ok (prefix ++ (key ++ suffix)))
  follow_round write read paths rest out f prefix suffix literal_only loops resolve m h =
      follow_end rest out f.seen_body f.prefix f.suffix prefix suffix m h
  follow_round write read paths rest out f prefix suffix (unterminated after) loops resolve m h = cc
  follow_round write read paths rest out f prefix suffix (found literal name after) loops resolve m
        h =
      follow_placeholder write read paths name after (out ++ literal) (push literal f) prefix suffix
        (placeholder name) loops resolve
        (push-Matches key literal out f.seen_body f.prefix f.suffix m) h

  loop-Follows :
      (fuel : ℕ)
      → Follows
          (construct_loop resolve_body partition_text fuel)
          (frame_loop partition_text fuel)
          (body_paths fuel)
  unfolding construct_loop frame_loop body_paths
  loop-Follows zero rest out f prefix suffix resolve m h = cc
  loop-Follows (suc fuel) rest out f prefix suffix resolve m h =
      follow_round (construct_loop resolve_body partition_text fuel)
        (frame_loop partition_text fuel) (body_paths fuel) rest out f prefix suffix (next rest)
        (loop-Follows fuel) resolve m h

  framed :
      (template physical : Bytes) (o : Looped (Bytes × Bytes))
      → ((prefix suffix : Bytes)
          → o ≡ some (ok (prefix, suffix))
          → construct_id_with resolve_body partition_text template
            ≡ some (ok (prefix ++ (key ++ suffix))))
      → looped_map (λ (frame : Bytes × Bytes). frame.0 ++ (key ++ frame.1)) o ≡ some (ok physical)
      → construct_id_with resolve_body partition_text template ≡ some (ok physical)
  framed template physical none each h = cc
  framed template physical (some (err e)) each h = cc
  framed template physical (some (ok (prefix, suffix))) each h = each prefix suffix refl ∙ h

  -- The write path and the read path build the same id: if the read path maps the logical id `key`
  -- to a physical id, and every body placeholder that the template names resolves to `key`, the write
  -- path constructs that physical id.
  pub construct_id-map_logical :
      (template physical : Bytes)
      → AllResolve (body_paths (suc (length template)) template)
      → map_logical_to_physical template partition_text key ≡ some (ok physical)
      → construct_id_with resolve_body partition_text template ≡ some (ok physical)
  unfolding map_logical_to_physical id_frame construct_id_with
  construct_id-map_logical template physical resolve h =
      framed template physical (id_frame template partition_text)
        (λ prefix suffix read.
          loop-Follows (suc (length template)) template [] no_frame prefix suffix resolve
            (refl, λ e. refl) read)
        h
