-- ===== src/Cache/InMemory/Runs.antt =====
-- What the cache answers after any calls, by the calls alone.
use onlyapi.Base.{
  List, Option, String, [], arith, false, if◌then◌else◌, none, some, str_eq, ℕ, ◌∷◌, ◌≡◌, ◌≤◌,
  Distinct, get, delete-Distinct, eq_iff, get-delete, ◌⊎◌, Bool-cases, Option-cases, ap,
  get-keep_if, get-set, inl, inr, keep_if-Distinct, not, set-Distinct, str_eq-cases, subst, sym,
  refl, set, ◌∙◌,
}
use onlyapi.Cache.InMemory.{
  Cache, CacheEntry, del, del_pattern, exists, fetch, incr, is_expired, put,
}
use onlyapi.Cache.InMemory.Laws.{alive, is_some, exists-fetch}
use onlyapi.Cache.InMemory.Calls.{
  Call, Fits, asks, del_patterns, dels, expected, gets, incremented, incrs, run, sets, step,
  written,
}

module _ {ℓ} {V : Type ℓ} where
  -- A key has the entry expected, or has lost one that is over.
  abbrev Has : ℕ → Option (CacheEntry V) → Option (CacheEntry V) → Type ℓ
  Has now got want = (got ≡ want) ⊎ ((got ≡ none) × (alive now want ≡ none))

  later_Has :
      (now t : ℕ) (got want : Option (CacheEntry V)) → now ≤ t → Has now got want → Has t got want
  unfolding is_expired
  later_Has now t got none le h = ground arith
  later_Has now t got (some e) le h = ground arith

  -- A read drops at most what is over.
  fetch-Has :
      (key j : String) (now : ℕ) (m : Cache V) (want : Option (CacheEntry V))
      → Has now (get j m) want
      → Has now (get j (fetch key now m).1) want
  unfolding fetch
  fetch-Has key j now m want h = ground (arith, get-delete j key m, eq_iff key j)

  fetch-Distinct :
      (key : String) (now : ℕ) (m : Cache V) → Distinct m → Distinct (fetch key now m).1
  unfolding fetch
  fetch-Distinct key now m d = ground (arith, delete-Distinct key m d)

module _ {ℓ} {V : Type ℓ} (plus : V → V → V) where
  abbrev Holds : ℕ → Cache V → List (ℕ × Call V) → Type ℓ
  Holds now m calls = Distinct m × ((key : String) → Has now (get key m) (expected plus calls key))

  put-Has :
      (key j : String) (v : V) (ttl_ms : Option ℕ) (now : ℕ) (m : Cache V)
      (want : Option (CacheEntry V))
      → Has now (get j m) want
      → Has now
          (get j (put key v ttl_ms now m))
          (if str_eq key j then some (written v ttl_ms now) else want)
  unfolding put
  put-Has key j v ttl_ms now m want h = ground (arith, get-set j key (written v ttl_ms now) m)

  put-Distinct :
      (key : String) (v : V) (ttl_ms : Option ℕ) (now : ℕ) (m : Cache V)
      → Distinct m
      → Distinct (put key v ttl_ms now m)
  unfolding put
  put-Distinct key v ttl_ms now m d = set-Distinct key (written v ttl_ms now) m d

  incr-Distinct :
      (key : String) (delta : V) (now : ℕ) (m : Cache V)
      → Distinct m
      → Distinct (incr plus key delta now m).1
  unfolding incr
  incr-Distinct key delta now m d = elim (Option-cases (get key m)) [
    | inl gone ↦
        rw (incr, gone) (set-Distinct key (record { value = delta; expires_at = none }) m d)
    | inr (e, found) ↦ elim (Bool-cases (is_expired now e)) [
      | inl over ↦
          rw (incr, found, over)
            (set-Distinct key (record { value = delta; expires_at = e.expires_at }) m d)
      | inr on ↦
          rw (incr, found, on) (set-Distinct key (record e { value = plus e.value delta }) m d)
    ]
  ]

  incr-set :
      (key : String) (delta : V) (now : ℕ) (m : Cache V) (want : Option (CacheEntry V))
      → ((e : CacheEntry V) → want ≡ some e → is_expired now e ≡ false)
      → Has now (get key m) want
      → ((incr plus key delta now m).0 ≡ (incremented plus delta want).value)
        × ((incr plus key delta now m).1 ≡ set key (incremented plus delta want) m)
  unfolding incr incremented
  incr-set key delta now m none live h =
      let gone : get key m ≡ none = ground arith in rw (incr, gone) (refl, refl)
  incr-set key delta now m (some e) live h =
      let on = live e refl in
      let found : get key m ≡ some e = ground arith in rw (incr, found, on) (refl, refl)

  incr-Has :
      (key j : String) (delta : V) (now : ℕ) (m : Cache V) (calls : List (ℕ × Call V))
      → ((e : CacheEntry V) → expected plus calls key ≡ some e → is_expired now e ≡ false)
      → Has now (get key m) (expected plus calls key)
      → Has now (get j m) (expected plus calls j)
      → Has now
          (get j (incr plus key delta now m).1)
          (expected plus ((now, incrs key delta) ∷ calls) j)
  unfolding expected incremented
  incr-Has key j delta now m calls live h h' =
      let set_to = (incr-set key delta now m (expected plus calls key) live h).1 in
      let there = get-set j key (incremented plus delta (expected plus calls key)) m in
      elim (str_eq-cases key j) [
        | inl (y, same) ↦
            (let asked : incremented plus delta (expected plus calls j)
                  ≡ incremented plus delta (expected plus calls key) =
                ap (λ k. incremented plus delta (expected plus calls k)) (sym same) in
              inl (ap (get j) set_to ∙ there ∙ rw (y, asked) refl))
        | inr (f, other) ↦
            (let stays : get j (incr plus key delta now m).1 ≡ get j m =
                ap (get j) set_to ∙ there ∙ rw f refl in
              rw (stays, f) h')
      ]

  step-Holds :
      (now : ℕ) (c : Call V) (m : Cache V) (calls : List (ℕ × Call V))
      → Fits plus now ((now, c) ∷ calls)
      → Holds now m calls
      → Holds now (step plus now c m) ((now, c) ∷ calls)
  unfolding step expected Fits del del_pattern
  step-Holds now (gets key) m calls f (d, h) =
      (fetch-Distinct key now m d, λ j. fetch-Has key j now m (expected plus calls j) (h j))
  step-Holds now (asks key) m calls f (d, h) =
      let agree = (exists-fetch key now m).1 in
      subst (λ m'. Holds now m' ((now, asks key) ∷ calls)) (sym agree)
        (fetch-Distinct key now m d, λ j. fetch-Has key j now m (expected plus calls j) (h j))
  step-Holds now (sets key v ttl_ms) m calls f (d, h) = (
    put-Distinct key v ttl_ms now m d,
    λ j. put-Has key j v ttl_ms now m (expected plus calls j) (h j),
  )
  step-Holds now (dels key) m calls f (d, h) =
      (delete-Distinct key m d, λ j. ground (arith, get-delete j key m, h j))
  step-Holds now (incrs key delta) m calls f (d, h) =
      (incr-Distinct key delta now m d, λ j. incr-Has key j delta now m calls f.1 (h key) (h j))
  step-Holds now (del_patterns test) m calls f (d, h) = (
    keep_if-Distinct (λ k e. not (test k)) m d,
    λ j. ground (arith, get-keep_if j (λ k e. not (test k)) m d, h j),
  )

  Fits-earlier :
      (now t : ℕ) (c : Call V) (calls : List (ℕ × Call V))
      → Fits plus now ((t, c) ∷ calls)
      → (t ≤ now) × Fits plus t ((t, c) ∷ calls) × Fits plus t calls
  unfolding Fits
  Fits-earlier now t (gets key) calls (le, f) = (le, (omega arith, f), f)
  Fits-earlier now t (asks key) calls (le, f) = (le, (omega arith, f), f)
  Fits-earlier now t (sets key v ttl_ms) calls (le, f) = (le, (omega arith, f), f)
  Fits-earlier now t (dels key) calls (le, f) = (le, (omega arith, f), f)
  Fits-earlier now t (incrs key delta) calls (le, live, f) = (le, (omega arith, live, f), f)
  Fits-earlier now t (del_patterns test) calls (le, f) = (le, (omega arith, f), f)

  run-Holds :
      (now : ℕ) (calls : List (ℕ × Call V)) → Fits plus now calls → Holds now (run plus calls) calls
  unfolding run expected get
  run-Holds now [] f = (tt, λ key. inl refl)
  run-Holds now ((t, c) ∷ calls) f =
      let (le, here, earlier) = Fits-earlier now t c calls f in
      let (d, h) = step-Holds t c (run plus calls) calls here (run-Holds t calls earlier) in
      (
        d,
        λ key.
            later_Has t now (get key (step plus t c (run plus calls)))
              (expected plus ((t, c) ∷ calls) key) le (h key),
      )

  -- After any calls at times that do not go back, in which no increment meets an entry that is over: a
  -- read and a test for a key answer by the entry that the last call on the key wrote, if it is not
  -- over, and an increment of such a key, or of one without an entry, answers what it adds up to.
  pub run-expected :
      (now : ℕ) (calls : List (ℕ × Call V)) (key : String)
      → Fits plus now calls
      → let want = expected plus calls key in
        ((fetch key now (run plus calls)).0 ≡ alive now want)
        × ((exists key now (run plus calls)).0 ≡ is_some (alive now want))
        × ((delta : V)
            → ((e : CacheEntry V) → want ≡ some e → is_expired now e ≡ false)
            → (incr plus key delta now (run plus calls)).0 ≡ (incremented plus delta want).value)
  unfolding fetch exists
  run-expected now calls key f =
      let (d, h) = run-Holds now calls f in
      let has = h key in
      let read : (fetch key now (run plus calls)).0 ≡ alive now (expected plus calls key) =
        ground arith in
      (
        read,
        (exists-fetch key now (run plus calls)).0 ∙ ap is_some read,
        λ delta live.
            (incr-set key delta now (run plus calls) (expected plus calls key) live has).0,
      )
