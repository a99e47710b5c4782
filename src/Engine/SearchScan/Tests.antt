-- ===== src/Engine/SearchScan/Tests.antt =====
-- Runs of the scanner of crates/osproxy-engine/src/search_scan.rs.
use mathlib.Core.Option
use opensearch_proxy.Prelude.{◌≡◌, refl, Bool, some, List, [], ◌∷◌, ◌==◌, nat_eq, list_eq}
use opensearch_proxy.Prelude.Bytes.{Bytes, ascii}
use opensearch_proxy.Engine.SearchScan.State.{Scanner, new_scanner}
use opensearch_proxy.Engine.SearchScan.Machine.{step_loop, step, feed_loop, feed}
use opensearch_proxy.Engine.SearchScan.Streaming.{stream, concat, IsForwarded, stream-IsForwarded}

-- Hits become a letter, and a key is compared as it stands.
abbrev letter : Bytes → Bytes
letter raw = ascii "H"

abbrev plain_hits : Bytes → Bool
plain_hits raw = raw == ascii "hits"

abbrev chunks : List Bytes
chunks =
    ascii "{\"took\":3,\"hi" ∷ ascii "ts\":{\"hits\":[{\"a\":\"]\"}, 7" ∷ ascii "],\"n\":0}}" ∷ []

chunks_sent :
    Option.map (λ (r : Scanner × Bytes). r.1) (stream letter plain_hits chunks [] new_scanner)
    ≡ some (ascii "{\"took\":3,\"hits\":{\"hits\":[H, H],\"n\":0}}")
unfolding stream feed feed_loop step step_loop
chunks_sent = refl

-- A response that is cut off inside a hit: the hit is kept back.
torn_hit_kept :
    Option.map
      (λ (r : Scanner × Bytes). r.1)
      (stream letter plain_hits
        (ascii "{\"hits\":{\"hits\":[{\"a\":1}, {\"b\"" ∷ [])
        []
        new_scanner)
    ≡ some (ascii "{\"hits\":{\"hits\":[H, ")
unfolding stream feed feed_loop step step_loop
torn_hit_kept = refl

stream-IsForwarded_example :
    IsForwarded letter plain_hits
      (concat letter plain_hits chunks)
      (stream letter plain_hits chunks [] new_scanner)
stream-IsForwarded_example = stream-IsForwarded letter plain_hits chunks
