-- ===== src/Transport/Tests.antt =====
-- Runs of the admission budget and of the classifier of crates/osproxy-transport.
use opensearch_proxy.Prelude.{◌≡◌, refl, [], ◌∷◌, arith, false}
use opensearch_proxy.Prelude.Bytes.{ascii}
use opensearch_proxy.Transport.Admission.{round}
use opensearch_proxy.Transport.Admission.Interleaving.{
  idle, trying, holding, State, Reach, here, next, load, exchange, IsBounded, Reach-IsBounded,
}
use opensearch_proxy.Spi.Request.{HttpMethod}
use opensearch_proxy.Transport.Classify.{classify, classify_segments, split, non_empty}
use opensearch_proxy.Transport.Classify.Buffer.{classify-split}

-- Two threads that each want 6 of a budget of 10: the first gets it.
abbrev at_rest : State
at_rest = record { inflight = 0; threads = idle ∷ idle ∷ [] }

abbrev loaded : State
loaded = record { inflight = 0; threads = trying 0 6 ∷ idle ∷ [] }

abbrev taken : State
taken = record { inflight = 6; threads = holding 6 ∷ idle ∷ [] }

abbrev waiting : State
waiting = record { inflight = 6; threads = holding 6 ∷ trying 6 6 ∷ [] }

abbrev refused : State
refused = record { inflight = 6; threads = holding 6 ∷ idle ∷ [] }

one_of_two : Reach 10 at_rest refused
unfolding round
one_of_two =
    next {t = waiting}
      (next {t = taken}
        (next {t = loaded} (next {t = at_rest} here (load [] (idle ∷ []) 6 refl refl))
          (exchange [] (idle ∷ []) 0 6 false refl refl))
        (load (holding 6 ∷ []) [] 6 refl refl))
      (exchange (holding 6 ∷ []) [] 6 6 false refl refl)

Reach-IsBounded_example : IsBounded 10 refused
Reach-IsBounded_example =
    Reach-IsBounded at_rest refused (omega arith) (record { exact = refl; below = omega arith })
      one_of_two

classify-split_example :
    classify HttpMethod.get (ascii "/_cat/a/b/c/d")
    ≡ classify_segments HttpMethod.get (non_empty (split (ascii "/_cat/a/b/c/d")))
classify-split_example = classify-split HttpMethod.get (ascii "/_cat/a/b/c/d")
