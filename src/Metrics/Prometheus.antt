-- ===== src/Metrics/Prometheus.antt =====
-- The counters and histograms of src/infrastructure/metrics/prometheus.ts, but for the text that
-- `serialize` makes of them. A key is what `labelKey` makes of the labels. Values are whole numbers of
-- a unit that is fine enough.
pub mod Histograms
mod Tests
use onlyapi.Base.{
  Bool, List, Map, Option, String, [], false, get, if◌then◌else◌, leb, none, set, some, suc, true,
  zero, ℕ, ◌+◌, ◌==◌, ◌∷◌, map,
}

-- A counter: `inc` and `get`.
pub counter_get : String → Map ℕ → ℕ
counter_get key values = elim (get key values) [ none ↦ 0 | some n ↦ n ]

pub counter_inc : String → ℕ → Map ℕ → Map ℕ
unfolding counter_get
counter_inc key value values = set key (counter_get key values + value) values

-- A `Map` from numbers to numbers: `get(k) ?? 0`, and `set` of a key.
pub bucket_get : ℕ → List (ℕ × ℕ) → ℕ
bucket_get bound [] = 0
bucket_get bound ((k, n) ∷ buckets) = if k == bound then n else bucket_get bound buckets

pub bucket_set : ℕ → ℕ → List (ℕ × ℕ) → List (ℕ × ℕ)
bucket_set bound count [] = (bound, count) ∷ []
bucket_set bound count ((k, n) ∷ buckets) =
    if k == bound then (k, count) ∷ buckets else (k, n) ∷ bucket_set bound count buckets

pub record HistogramData : Type 0 where
  pub count : ℕ
  pub sum : ℕ
  pub buckets : List (ℕ × ℕ)

-- `new Map(buckets.map((b) => [b, 0]))`, of bounds that differ.
pub new_data : List ℕ → HistogramData
new_data bounds = record { count = 0; sum = 0; buckets = map (λ b. (b, 0)) bounds }

pub get_or_create : List ℕ → String → Map HistogramData → HistogramData
unfolding new_data
get_or_create bounds key data' = elim (get key data') [
  | none ↦ new_data bounds
  | some entry ↦ entry
]

-- The body of `for (const bound of buckets)`, and the loop.
pub observe_bucket : ℕ → ℕ → List (ℕ × ℕ) → List (ℕ × ℕ)
unfolding bucket_get bucket_set
observe_bucket value bound buckets =
    if leb value bound then bucket_set bound (bucket_get bound buckets + 1) buckets else buckets

pub observe_buckets : ℕ → List ℕ → List (ℕ × ℕ) → List (ℕ × ℕ)
unfolding observe_bucket
observe_buckets value [] buckets = buckets
observe_buckets value (bound ∷ bounds) buckets =
    observe_buckets value bounds (observe_bucket value bound buckets)

-- The entry is changed in place, after it has been put under its key if it was not there.
pub observe : List ℕ → ℕ → String → Map HistogramData → Map HistogramData
unfolding get_or_create observe_buckets
observe bounds value key data' =
    let entry = get_or_create bounds key data' in
    set key
      (record {
        count = entry.count + 1;
        sum = entry.sum + value;
        buckets = observe_buckets value bounds entry.buckets;
      })
      data'

-- DEFAULT_BUCKETS
abbrev pub default_buckets : List ℕ
default_buckets = 1 ∷ 5 ∷ 10 ∷ 25 ∷ 50 ∷ 100 ∷ 250 ∷ 500 ∷ 1000 ∷ 2500 ∷ 5000 ∷ 10000 ∷ []
