-- ===== src/Jobs/Queue/Preservation.antt =====
-- Every event keeps a job queue sound.
use onlyapi.Base.{
  All, All-split, Bool-cases, Distinct, Distinct-EntriesOf, EntriesOf, EntriesOf-others, List, Map,
  Option-cases, String, [], ap, arith, get, get-set_ne, inl, inr, leb, none, refl, some, subst, sym,
  true, ℕ, ◌++◌, ◌+◌, ◌<◌, ◌∙◌, ◌∷◌, ◌≡◌, ◌≢◌, ◌≤◌,
}
use onlyapi.Jobs.Queue.{
  Job, JobQueue, Settled, SubmitJobOptions, backoff_ms, complete, create, no_handler, pending, poll,
  register_handler, rejected, resolved, start, start_job, stop, submit, thrown, tick, update_job,
}
use onlyapi.Jobs.Queue.{dying, finishing, retrying, starting, update_job, poll_loop, is_due}
use onlyapi.Jobs.Queue.Invariant.{
  HeldBy, IsLawful, IsSound, LawfulIn, Reach, Step, allowance, calls_due, here, next, registers,
  runs, settles, starts, stops, submits, ticks,
}
use onlyapi.Jobs.Queue.Entries.{
  HeldBy-entry, rest_entry, settle_entry, start_handled, update_job_lem,
}

module _ {P : Type 0} where
  pub due_pending : (now : ℕ) (j : Job P) → is_due now j ≡ true → j.status ≡ pending
  unfolding is_due
  due_pending now j h = ground arith

module _ {P H : Type 0} where
  pub start_job-IsSound :
      (now : ℕ) (q : JobQueue P H) (k : String) (j : Job P)
      → IsSound q
      → get k q.jobs ≡ some j
      → j.status ≡ pending
      → IsSound (start_job now j q)
  unfolding start_job
  start_job-IsSound now q k j s g p =
      let (id, law) = s.keyed k j g in
      let l : j.attempts < allowance j = subst (λ st. LawfulIn st j) p law in
      let g' : get j.id q.jobs ≡ some j = subst (λ x. get x q.jobs ≡ some j) (sym id) g in
      elim (Option-cases (get j.job_type q.handlers)) [
        | inl e ↦
            rw (e, start_job, update_job_lem j.id now (dying (no_handler j.job_type)) q j g')
              (rest_entry q j.id _ s refl (omega arith) refl (ground arith))
        | inr (h, e) ↦
            rw (e, start_job, update_job_lem j.id now (starting j) q j g')
              (start_handled now q j.id j s g' p)
      ]

  pub start_job-others :
      (now : ℕ) (q : JobQueue P H) (k : String) (j : Job P)
      → j.id ≡ k
      → (i : String) → i ≢ k
      → get i (start_job now j q).jobs ≡ get i q.jobs
  unfolding start_job update_job
  start_job-others now q k j id i ne =
      let ne' : i ≢ j.id = λ p. ne (p ∙ id) in grind (arith, get-set_ne)

  poll_loop-IsSound :
      (now : ℕ) (es : Map (Job P)) (q : JobQueue P H)
      → IsSound q
      → Distinct es
      → EntriesOf q.jobs es
      → IsSound (poll_loop now es q)
  unfolding poll_loop
  poll_loop-IsSound now [] q s d e = s
  poll_loop-IsSound now ((k, j) ∷ es) q s d e = elim (Bool-cases (is_due now j)) [
    | inl y ↦ rw y (
        poll_loop-IsSound now es (start_job now j q)
          (start_job-IsSound now q k j s e.0 (due_pending now j y)) d.1
          (EntriesOf-others k q.jobs _ es (start_job-others now q k j (s.keyed k j e.0).0) d.0 e.1))
    | inr n ↦ rw n (poll_loop-IsSound now es q s d.1 e.1)
  ]

  tick-IsSound : (now : ℕ) (q : JobQueue P H) → IsSound q → IsSound (tick now q)
  unfolding tick poll
  tick-IsSound now q s =
      ground
        (arith, poll_loop-IsSound now q.jobs q s s.distinct (Distinct-EntriesOf q.jobs s.distinct))

  settled :
      (now : ℕ) (q : JobQueue P H) (j e : Job P) (r : Settled)
      → e.attempts ≡ j.attempts + 1
      → e.max_retries ≡ j.max_retries
      → (1 ≤ e.attempts) × (e.attempts ≤ allowance e)
      → e.id ≡ j.id
      → ((f : Job P → Job P)
          → (f e).id ≡ j.id
          → IsLawful (record (f e) { updated_at = now })
          → runs (f e).status ≡ 0
          → IsSound (update_job j.id now f q))
      → IsSound (complete now j r q)
  unfolding complete
  settled now q j e resolved at mr l id update = update finishing id l refl
  settled now q j e (rejected m) at mr l id update =
      elim (Bool-cases (leb j.max_retries (j.attempts + 1))) [
        | inl y ↦ rw y (update (dying (thrown m)) id l.1 refl)
        | inr n ↦
            rw n (update (retrying m (now + backoff_ms (j.attempts + 1))) id (ground arith) refl)
      ]

  pub complete-IsSound :
      (now : ℕ) (q : JobQueue P H) (j : Job P) (r : Settled) (before after : List (Job P))
      → IsSound q
      → q.active ≡ before ++ j ∷ after
      → IsSound (complete now j r (record q { active = before ++ after }))
  complete-IsSound now q j r before after s a =
      let held' = subst (All (λ x. HeldBy (get x.id q.jobs) x)) a s.held in
      let (hb, ha) = All-split (λ x. HeldBy (get x.id q.jobs) x) before (j ∷ after) held' in
      let (e, g, st, at, mr) = HeldBy-entry (get j.id q.jobs) j ha.0 in
      let (id, law) = s.keyed j.id e g in
      let l : (1 ≤ e.attempts) × (e.attempts ≤ allowance e) = subst (λ x. LawfulIn x e) st law in
      let q' : JobQueue P H = record q { active = before ++ after } in
      let settle : (f : Job P → Job P)
          → (f e).id ≡ j.id
          → IsLawful (record (f e) { updated_at = now })
          → runs (f e).status ≡ 0
          → IsSound (update_job j.id now f q') =
        λ f i w z.
          rw (update_job_lem j.id now f q' e g)
            (settle_entry q j e (record (f e) { updated_at = now }) before after s a g st i w z) in
      settled now q' j e r at mr l id settle

  submit-IsSound :
      (id : String) (o : SubmitJobOptions P) (now : ℕ) (q : JobQueue P H)
      → IsSound q
      → get id q.jobs ≡ none
      → IsSound (submit id o now q).1
  unfolding submit
  submit-IsSound id o now q s new = rest_entry q id _ s refl (omega arith) refl (ap calls_due new)

  -- Every event keeps the queue sound.
  pub Step-IsSound : {q r : JobQueue P H} → Step q r → IsSound q → IsSound r
  unfolding register_handler start stop
  Step-IsSound (submits id o now new) s = submit-IsSound id o now _ s new
  Step-IsSound (registers t h) s = record {
    distinct = s.distinct;
    keyed = s.keyed;
    called = s.called;
    held = s.held;
  }
  Step-IsSound starts s = record {
    distinct = s.distinct;
    keyed = s.keyed;
    called = s.called;
    held = s.held;
  }
  Step-IsSound stops s = record {
    distinct = s.distinct;
    keyed = s.keyed;
    called = s.called;
    held = s.held;
  }
  Step-IsSound (ticks now) s = tick-IsSound now _ s
  Step-IsSound (settles now j r before after a) s = complete-IsSound now _ j r before after s a

  -- A new queue is sound.
  pub create-IsSound : IsSound (create {P = P} {H = H})
  unfolding create get
  create-IsSound = record { distinct = tt; keyed = λ k j g. cc; called = λ k. refl; held = tt }

  -- So is every queue that events lead to from a new one, whatever they are and in any order.
  pub Reach-IsSound : {q : JobQueue P H} → Reach create q → IsSound q
  Reach-IsSound here = create-IsSound
  Reach-IsSound (next r st) = Step-IsSound st (Reach-IsSound r)
