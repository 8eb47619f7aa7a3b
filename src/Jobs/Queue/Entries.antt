-- ===== src/Jobs/Queue/Entries.antt =====
-- Writes of single entries and the calls that wait for them: what keeps a queue sound.
use onlyapi.Base.{
  All, All-append, All-split, List, Map, Option, String, [], arith, count, count-append, eq_iff,
  get, get-set, get-set_ne, get-set_self, if◌then◌else◌, inl, inr, none, refl, set, set-Distinct,
  some, str_eq-cases, str_eq_self, subst, suc, sym, ℕ, ◌++◌, ◌+◌, ◌<◌, ◌∙◌, ◌∷◌, ◌≡◌,
}
use onlyapi.Jobs.Queue.{Job, JobQueue, pending, running, update_job}
use onlyapi.Jobs.Queue.{update_job}
use onlyapi.Jobs.Queue.Invariant.{
  HeldBy, IsLawful, IsSound, LawfulIn, allowance, calls_due, is_for, runs,
}

nonzero : {n : ℕ} → suc n ≡ 0 → ⊥
nonzero h = omega arith

some_inj {ℓ} : {A : Type ℓ} {a b : A} → some a ≡ some b → a ≡ b
some_inj h = cc

module _ {P : Type 0} where
  -- A write to a key that no call waits for.
  held_elsewhere :
      (k : String) (e : Job P) (m : Map (Job P)) (js : List (Job P))
      → count (is_for k) js ≡ 0
      → All (λ j. HeldBy (get j.id m) j) js
      → All (λ j. HeldBy (get j.id (set k e m)) j) js
  held_elsewhere k e m [] z h = tt
  held_elsewhere k e m (j ∷ js) z h = elim (str_eq-cases j.id k) [
    | inl (t, p) ↦ absurd (
        nonzero
          (subst (λ b. (if b then suc (count (is_for k) js) else count (is_for k) js) ≡ 0) t z))
    | inr (f, ne) ↦ (
      subst (λ o. HeldBy o j) (sym (get-set_ne k j.id e m ne)) h.0,
      held_elsewhere k e m js
          (subst (λ b. (if b then suc (count (is_for k) js) else count (is_for k) js) ≡ 0) f z) h.1,
    )
  ]

  -- A write of a lawful entry under its own id.
  keyed-set :
      (k : String) (e : Job P) (m : Map (Job P))
      → e.id ≡ k
      → IsLawful e
      → ((i : String) (j : Job P) → get i m ≡ some j → (j.id ≡ i) × IsLawful j)
      → (i : String) (j : Job P) → get i (set k e m) ≡ some j
      → (j.id ≡ i) × IsLawful j
  keyed-set k e m id l h i j g = elim (str_eq-cases k i) [
    | inl (t, p) ↦
        let at_k = subst (λ x. get x (set k e m) ≡ some j) (sym p) g in
        let same : e ≡ j = some_inj (sym (get-set_self k e m) ∙ at_k) in
        subst (λ x. (x.id ≡ i) × IsLawful x) same (id ∙ p, l)
    | inr (f, ne) ↦ h i j (sym (get-set_ne k i e m (λ q. ne (sym q))) ∙ g)
  ]

  pub HeldBy-entry :
      (o : Option (Job P)) (j : Job P)
      → HeldBy o j
      → (e : Job P) × (o ≡ some e)
        × (e.status ≡ running)
        × (e.attempts ≡ j.attempts + 1)
        × (e.max_retries ≡ j.max_retries)
  HeldBy-entry none j h = absurd h
  HeldBy-entry (some e) j h = (e, refl, h.0, h.1, h.2)

module _ {P H : Type 0} where
  -- The entry of a job is rewritten, and the waiting calls with it.
  IsSound-set :
      (q : JobQueue P H) (k : String) (e : Job P) (active : List (Job P))
      → IsSound q
      → e.id ≡ k
      → IsLawful e
      → ((i : String) → count (is_for i) active ≡ calls_due (get i (set k e q.jobs)))
      → All (λ j. HeldBy (get j.id (set k e q.jobs)) j) active
      → IsSound (record q { jobs = set k e q.jobs; active = active })
  IsSound-set q k e active s id l c h = record {
    distinct = set-Distinct k e q.jobs s.distinct;
    keyed = keyed-set k e q.jobs id l s.keyed;
    called = c;
    held = h;
  }

  -- A start of a waiting job whose type has a handler.
  pub start_handled :
      (now : ℕ) (q : JobQueue P H) (k : String) (j : Job P)
      → IsSound q
      → get k q.jobs ≡ some j
      → j.status ≡ pending
      → let e = record j { status = running; attempts = j.attempts + 1; updated_at = now } in
        IsSound (record q { jobs = set k e q.jobs; active = q.active ++ j ∷ [] })
  start_handled now q k j s g p =
      let e = record j { status = running; attempts = j.attempts + 1; updated_at = now } in
      let (id, law) = s.keyed k j g in
      let l : j.attempts < allowance j = subst (λ st. LawfulIn st j) p law in
      let due : calls_due (get k q.jobs) ≡ 0 = ground arith in
      IsSound-set q k e (q.active ++ j ∷ []) s id (omega arith)
        (λ i. ground (
          arith,
          count-append (is_for i) q.active (j ∷ []),
          s.called i,
          get-set i k e q.jobs,
          eq_iff k i,
          eq_iff j.id i,
        ))
        (All-append _ q.active (j ∷ [])
          (held_elsewhere k e q.jobs q.active (s.called k ∙ due) s.held)
          (ground (arith, get-set_self k e q.jobs), tt))

  -- A write of a state without a waiting call, over an entry without one.
  pub rest_entry :
      (q : JobQueue P H) (k : String) (e : Job P)
      → IsSound q
      → e.id ≡ k
      → IsLawful e
      → runs e.status ≡ 0
      → calls_due (get k q.jobs) ≡ 0
      → IsSound (record q { jobs = set k e q.jobs })
  rest_entry q k e s id l r z =
      IsSound-set q k e q.active s id l
        (λ i. ground (arith, s.called i, get-set i k e q.jobs, eq_iff k i))
        (held_elsewhere k e q.jobs q.active (s.called k ∙ z) s.held)

  pub update_job_lem :
      (id : String) (now : ℕ) (f : Job P → Job P) (q : JobQueue P H) (j : Job P)
      → get id q.jobs ≡ some j
      → update_job id now f q
        ≡ record q { jobs = set id (record (f j) { updated_at = now }) q.jobs }
  unfolding update_job
  update_job_lem id now f q j g = rw (g, update_job)

  -- The call that settles goes, and its job gets an entry without a call.
  pub settle_entry :
      (q : JobQueue P H) (j e e' : Job P) (before after : List (Job P))
      → IsSound q
      → q.active ≡ before ++ j ∷ after
      → get j.id q.jobs ≡ some e
      → e.status ≡ running
      → e'.id ≡ j.id
      → IsLawful e'
      → runs e'.status ≡ 0
      → IsSound (record q { jobs = set j.id e' q.jobs; active = before ++ after })
  settle_entry q j e e' before after s a g r id l z =
      let calls : (i : String) → count (is_for i) (before ++ j ∷ after) ≡ calls_due (get i q.jobs) =
        λ i. subst (λ js. count (is_for i) js ≡ calls_due (get i q.jobs)) a (s.called i) in
      let held' = subst (All (λ x. HeldBy (get x.id q.jobs) x)) a s.held in
      let (hb, ha) = All-split (λ x. HeldBy (get x.id q.jobs) x) before (j ∷ after) held' in
      let gone : count (is_for j.id) (before ++ after) ≡ 0 = ground (
        arith,
        count-append (is_for j.id) before (j ∷ after),
        count-append (is_for j.id) before after,
        calls j.id,
        str_eq_self j.id,
      ) in
      IsSound-set q j.id e' (before ++ after) s id l
        (λ i. ground (
          arith,
          count-append (is_for i) before (j ∷ after),
          count-append (is_for i) before after,
          calls i,
          get-set i j.id e' q.jobs,
          eq_iff j.id i,
        ))
        (held_elsewhere j.id e' q.jobs (before ++ after) gone (All-append _ before after hb ha.1))
