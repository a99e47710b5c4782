-- ===== src/Rewrite/Id/Collision.antt =====
-- crates/osproxy-rewrite/src/id.rs with the check of crates/osproxy-spi/src/rules.rs on id templates:
-- what a template that names the partition leaves open.
use opensearch_proxy.Prelude.{
  ◌≡◌, refl, sym, ◌∙◌, ap, true, some, [], ◌++◌, append_assoc, append-nil, ok,
}
use opensearch_proxy.Prelude.Bytes
use opensearch_proxy.Prelude.Bytes.{Bytes, ascii}
use opensearch_proxy.Spi.Rules.{references_partition}
use opensearch_proxy.Rewrite.Id.{frame_loop, next, placeholder, id_frame, map_logical_to_physical}

abbrev pub colon_template : Bytes
colon_template = ascii "{partition}:{body.id}"

colon_physical :
    (partition_text id : Bytes)
    → map_logical_to_physical colon_template partition_text id
      ≡ some (ok ((partition_text ++ ascii ":") ++ (id ++ [])))
unfolding map_logical_to_physical id_frame frame_loop next placeholder Bytes.split_at
    Bytes.strip_prefix
colon_physical partition_text id = refl

-- A template that the partition check admits does not keep partitions apart: with
-- `{partition}:{body.id}`, the id `k` of the partition `p:q` and the id `q:k` of the partition `p`
-- have the same physical id, for all texts p, q and k.
pub admitted_template_collides :
    (p q k : Bytes)
    → (references_partition colon_template ≡ true)
      × (map_logical_to_physical colon_template (p ++ (ascii ":" ++ q)) k
          ≡ map_logical_to_physical colon_template p (q ++ (ascii ":" ++ k)))
unfolding references_partition
admitted_template_collides p q k =
    let same : ((p ++ (ascii ":" ++ q)) ++ ascii ":") ++ (k ++ [])
        ≡ (p ++ ascii ":") ++ ((q ++ (ascii ":" ++ k)) ++ []) =
      simp (append_assoc, append-nil) in
    (
      refl,
      (colon_physical (p ++ (ascii ":" ++ q)) k ∙ ap (λ t. some (ok t)) same)
          ∙ sym (colon_physical p (q ++ (ascii ":" ++ k))),
    )
