-- ===== src/Metrics/Prometheus/Histograms.antt =====
-- What a histogram says of the values observed.
use onlyapi.Base.{
  ◌⊎◌, All, List, [], arith, if◌then◌else◌, refl, ℕ, ◌+◌, ◌==◌, ◌≡◌, ◌≢◌, ◌∷◌, Map, String, ap, inl,
  inr, leb, length, subst, sym, ◌∙◌, get, get-set_self, map, none, some, ◌≤◌,
}
use onlyapi.Metrics.Prometheus.{
  bucket_get, bucket_set, observe_buckets, observe_bucket, HistogramData, get_or_create, observe,
  new_data,
}

bucket_get-set :
    (b c n : ℕ) (buckets : List (ℕ × ℕ))
    → bucket_get b (bucket_set c n buckets) ≡ (if c == b then n else bucket_get b buckets)
unfolding bucket_get bucket_set
bucket_get-set b c n [] = refl
bucket_get-set b c n ((k, m) ∷ buckets) = ground (arith, bucket_get-set b c n buckets)

-- The bounds differ from each other.
unfoldable pub AreBounds : List ℕ → Type 0
AreBounds [] = Unit
AreBounds (b ∷ bs) = All (λ c. c ≢ b) bs × AreBounds bs

-- One more where the value is at most the bound.
abbrev hit : ℕ → ℕ → ℕ
hit value bound = if leb value bound then 1 else 0

observe_bucket_self :
    (value b : ℕ) (buckets : List (ℕ × ℕ))
    → bucket_get b (observe_bucket value b buckets) ≡ bucket_get b buckets + hit value b
unfolding observe_bucket
observe_bucket_self value b buckets =
    ground (arith, bucket_get-set b b (bucket_get b buckets + 1) buckets)

observe_bucket_ne :
    (value b c : ℕ) (buckets : List (ℕ × ℕ))
    → c ≢ b
    → bucket_get b (observe_bucket value c buckets) ≡ bucket_get b buckets
unfolding observe_bucket
observe_bucket_ne value b c buckets ne =
    ground (arith, bucket_get-set b c (bucket_get c buckets + 1) buckets)

-- A bound that does not stand in the list is not touched.
observe_others :
    (value b : ℕ) (bounds : List ℕ) (buckets : List (ℕ × ℕ))
    → All (λ c. c ≢ b) bounds
    → bucket_get b (observe_buckets value bounds buckets) ≡ bucket_get b buckets
unfolding observe_buckets
observe_others value b [] buckets h = refl
observe_others value b (c ∷ bounds) buckets (h, hs) =
    observe_others value b bounds (observe_bucket value c buckets) hs
    ∙ observe_bucket_ne value b c buckets h

-- The bound stands in the list.
pub Among : ℕ → List ℕ → Type 0
Among b [] = ⊥
Among b (c ∷ cs) = (c ≡ b) ⊎ Among b cs

-- A bound of the list that differs from another is another.
differs : (b c : ℕ) (bounds : List ℕ) → All (λ d. d ≢ c) bounds → Among b bounds → c ≢ b
unfolding Among
differs b c [] h among p = among
differs b c (d ∷ bounds) (h, hs) (inl e) p = h (e ∙ sym p)
differs b c (d ∷ bounds) (h, hs) (inr among) p = differs b c bounds hs among p

observe_buckets_lem :
    (value b : ℕ) (bounds : List ℕ) (buckets : List (ℕ × ℕ))
    → AreBounds bounds
    → Among b bounds
    → bucket_get b (observe_buckets value bounds buckets) ≡ bucket_get b buckets + hit value b
unfolding observe_buckets AreBounds Among
observe_buckets_lem value b [] buckets h among = absurd among
observe_buckets_lem value b (c ∷ bounds) buckets (h, hs) (inl e) =
    subst
      (λ d.
        bucket_get d (observe_buckets value bounds (observe_bucket value c buckets))
        ≡ bucket_get d buckets + hit value d)
      e
      (observe_others value c bounds (observe_bucket value c buckets) h
        ∙ observe_bucket_self value c buckets)
observe_buckets_lem value b (c ∷ bounds) buckets (h, hs) (inr among) =
    observe_buckets_lem value b bounds (observe_bucket value c buckets) hs among
    ∙ ap (λ n. n + hit value b) (observe_bucket_ne value b c buckets (differs b c bounds h among))

-- The sum of the values, and how many are at most a bound.
pub total : List ℕ → ℕ
total [] = 0
total (v ∷ vs) = v + total vs

pub at_most : ℕ → List ℕ → ℕ
at_most b [] = 0
at_most b (v ∷ vs) = hit v b + at_most b vs

module _ (bounds : List ℕ) (key : String) where
  -- The values in the order in which they are observed under the key.
  unfoldable pub observe_all : List ℕ → Map HistogramData → Map HistogramData
  observe_all [] data' = data'
  observe_all (v ∷ vs) data' = observe_all vs (observe bounds v key data')

  observe_entry :
      (value : ℕ) (data' : Map HistogramData)
      → let entry = get_or_create bounds key data' in
        get_or_create bounds key (observe bounds value key data') ≡ record {
          count = entry.count + 1;
          sum = entry.sum + value;
          buckets = observe_buckets value bounds entry.buckets;
        }
  unfolding observe get_or_create
  observe_entry value data' =
      let entry = get_or_create bounds key data' in
      let after : HistogramData = record {
        count = entry.count + 1;
        sum = entry.sum + value;
        buckets = observe_buckets value bounds entry.buckets;
      } in
      ap (λ o. elim o as (λ x. HistogramData) [ none ↦ new_data bounds | some e ↦ e ])
        (get-set_self key after data')

  observe_all_lem :
      (vs : List ℕ) (data' : Map HistogramData)
      → AreBounds bounds
      → let before = get_or_create bounds key data' in
        let entry = get_or_create bounds key (observe_all vs data') in
        (entry.count ≡ before.count + length vs)
        × (entry.sum ≡ before.sum + total vs)
        × ((b : ℕ)
            → Among b bounds
            → bucket_get b entry.buckets ≡ bucket_get b before.buckets + at_most b vs)
  unfolding observe_all total at_most
  observe_all_lem [] data' apart = (omega arith, omega arith, λ b among. omega arith)
  observe_all_lem (v ∷ vs) data' apart =
      let (counted, summed, filled) = observe_all_lem vs (observe bounds v key data') apart in
      let eq = observe_entry v data' in
      let entry = get_or_create bounds key data' in
      (
        counted ∙ ap (λ e. e.count + length vs) eq ∙ omega arith,
        summed ∙ ap (λ e. e.sum + total vs) eq ∙ omega arith,
        λ b among.
            filled b among
            ∙ ap (λ e. bucket_get b e.buckets + at_most b vs) eq
            ∙ ap (λ n. n + at_most b vs) (observe_buckets_lem v b bounds entry.buckets apart among)
            ∙ omega arith,
      )

  bucket_get-new : (b : ℕ) (bs : List ℕ) → bucket_get b (map (λ c. (c, 0)) bs) ≡ 0
  unfolding bucket_get
  bucket_get-new b [] = refl
  bucket_get-new b (c ∷ bs) = ground (arith, bucket_get-new b bs)

  -- Of values observed under a key that is new, in any order, the histogram holds how many they are
  -- and their sum, and under each bound how many of them are at most that bound.
  observe-counts :
      (vs : List ℕ) (data' : Map HistogramData)
      → AreBounds bounds
      → get key data' ≡ none
      → let entry = get_or_create bounds key (observe_all vs data') in
        (entry.count ≡ length vs)
        × (entry.sum ≡ total vs)
        × ((b : ℕ) → Among b bounds → bucket_get b entry.buckets ≡ at_most b vs)
  unfolding get_or_create new_data
  observe-counts vs data' apart n =
      let (counted, summed, filled) = observe_all_lem vs data' apart in
      let fresh : get_or_create bounds key data' ≡ new_data bounds = rw (get_or_create, n) refl in
      (
        counted ∙ ap (λ e. e.count + length vs) fresh ∙ omega arith,
        summed ∙ ap (λ e. e.sum + total vs) fresh ∙ omega arith,
        λ b among.
            filled b among
            ∙ ap (λ e. bucket_get b e.buckets + at_most b vs) fresh
            ∙ ap (λ n. n + at_most b vs) (bucket_get-new b bounds)
            ∙ omega arith,
      )

-- The counts under the bounds grow with the bound, up to the count of all values.
pub at_most_grows :
    (b c : ℕ) (vs : List ℕ) → b ≤ c → (at_most b vs ≤ at_most c vs) × (at_most c vs ≤ length vs)
unfolding at_most
at_most_grows b c [] le = (omega arith, omega arith)
at_most_grows b c (v ∷ vs) le = ground (arith, at_most_grows b c vs le)
