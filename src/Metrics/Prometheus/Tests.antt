-- ===== src/Metrics/Prometheus/Tests.antt =====
-- Runs of the metrics.
use onlyapi.Base.{List, [], get, refl, set, ℕ, ◌≡◌, ◌∷◌}
use onlyapi.Metrics.Prometheus.{
  bucket_get, bucket_set, counter_get, counter_inc, get_or_create, new_data, observe,
  observe_bucket, observe_buckets,
}
use onlyapi.Metrics.Prometheus.Histograms.{observe_all}

abbrev two_bounds : List ℕ
two_bounds = 5 ∷ 10 ∷ []

abbrev latencies : List ℕ
latencies = 3 ∷ 7 ∷ 5 ∷ 40 ∷ []

four_observed :
    observe_all two_bounds "GET" latencies []
    ≡ (("GET", record { count = 4; sum = 55; buckets = (5, 2) ∷ (10, 3) ∷ [] }) ∷ [])
unfolding observe_all observe observe_buckets observe_bucket bucket_get bucket_set get_or_create
    new_data get set
four_observed = refl

counted_twice : counter_get "a" (counter_inc "a" 2 (counter_inc "a" 1 [])) ≡ 3
unfolding counter_get counter_inc get set
counted_twice = refl
