-- ===== src/Jobs/Queue/Polling.antt =====
-- What a poll does to each job: `poll` and the start of `processJob`.
use onlyapi.Jobs.Queue.Entries.{update_job_lem}
use onlyapi.Jobs.Queue.Preservation.{due_pending, start_job-IsSound, start_job-others}
use onlyapi.Jobs.Queue.Preservation.{due_pending, start_job-IsSound, start_job-others}
use onlyapi.Base.{
  Map, Option, String, get, if◌then◌else◌, none, some, str_eq, ℕ, ◌+◌, ◌≡◌, Distinct, EntriesOf,
  Option-cases, [], arith, get-set, inl, inr, refl, ◌∷◌, Bool-cases, Distinct-EntriesOf,
  EntriesOf-others, eq_iff, str_eq-cases, subst, sym, ltb, ◌≢◌,
}
use onlyapi.Jobs.Queue.{
  Job, JobQueue, dead, get_job, no_handler, running, start_job, update_job, poll, pending,
}
use onlyapi.Jobs.Queue.{is_due, poll_loop, starting, dying}
use onlyapi.Jobs.Queue.Invariant.{IsSound}

module _ {P : Type 0} where
  -- What is written to the entry of a due job: it starts, or dies where its type has no handler.
  pub started : {H : Type 0} → ℕ → Map H → Job P → Job P
  started now handlers j = elim (get j.job_type handlers) [
    | none ↦ record j { status = dead; last_error = some (no_handler j.job_type); updated_at = now }
    | some h ↦ record j { status = running; attempts = j.attempts + 1; updated_at = now }
  ]

  -- What a poll does to an entry.
  pub polled : {H : Type 0} → ℕ → Map H → Job P → Job P
  unfolding is_due started
  polled now handlers j = if is_due now j then started now handlers j else j

  abbrev pub map_entry : (Job P → Job P) → Option (Job P) → Option (Job P)
  map_entry f none = none
  map_entry f (some j) = some (f j)

  pub polled_settled :
      {H : Type 0} (now : ℕ) (handlers : Map H) (j : Job P)
      → j.status ≢ pending
      → polled now handlers j ≡ j
  unfolding polled is_due
  polled_settled now handlers j ne = ground arith

  -- A job that waits is left alone before its time, and starts from then on where its type has a
  -- handler.
  pub polled_waiting :
      {H : Type 0} (now : ℕ) (handlers : Map H) (j : Job P) (h : H)
      → j.status ≡ pending
      → get j.job_type handlers ≡ some h
      → polled now handlers j ≡ (
          if ltb now j.run_at
          then j
          else record j { status = running; attempts = j.attempts + 1; updated_at = now })
  unfolding polled is_due started
  polled_waiting now handlers j h p g = ground arith

module _ {P H : Type 0} where
  start_job-get :
      (now : ℕ) (q : JobQueue P H) (j : Job P) (i : String)
      → get j.id q.jobs ≡ some j
      → get i (start_job now j q).jobs
        ≡ (if str_eq j.id i then some (started now q.handlers j) else get i q.jobs)
  unfolding start_job update_job started
  start_job-get now q j i g = elim (Option-cases (get j.job_type q.handlers)) [
    | inl e ↦
        rw (e, start_job, started, update_job_lem j.id now (dying (no_handler j.job_type)) q j g)
          (get-set i j.id _ q.jobs)
    | inr (h, e) ↦
        rw (e, start_job, started, update_job_lem j.id now (starting j) q j g)
          (get-set i j.id _ q.jobs)
  ]

  start_job-handlers :
      (now : ℕ) (q : JobQueue P H) (j : Job P) → (start_job now j q).handlers ≡ q.handlers
  unfolding start_job update_job
  start_job-handlers now q j = ground arith

  -- One turn of the loop of `poll`.
  abbrev turn : ℕ → Job P → JobQueue P H → JobQueue P H
  turn now j q = if is_due now j then start_job now j q else q

  turn_lem :
      (now : ℕ) (q : JobQueue P H) (k : String) (j : Job P) (es : Map (Job P))
      → IsSound q
      → get k es ≡ none
      → get k q.jobs ≡ some j
      → EntriesOf q.jobs es
      → IsSound (turn now j q)
        × EntriesOf (turn now j q).jobs es
        × ((turn now j q).handlers ≡ q.handlers)
        × ((i : String)
            → get i (turn now j q).jobs
              ≡ (if str_eq k i then some (polled now q.handlers j) else get i q.jobs))
  unfolding polled
  turn_lem now q k j es s fresh g e = elim (Bool-cases (is_due now j)) [
    | inl y ↦
        let (id, law) = s.keyed k j g in
        let g' : get j.id q.jobs ≡ some j = subst (λ x. get x q.jobs ≡ some j) (sym id) g in
        rw (y, polled)
          (
            start_job-IsSound now q k j s g (due_pending now j y),
            EntriesOf-others k q.jobs _ es (start_job-others now q k j id) fresh e,
            start_job-handlers now q j,
            λ i.
                subst
                  (λ x.
                    get i (start_job now j q).jobs
                    ≡ (if str_eq x i then some (started now q.handlers j) else get i q.jobs))
                  id (start_job-get now q j i g'),
          )
    | inr n ↦ rw (n, polled) (s, e, refl, λ i. ground (arith, eq_iff k i))
  ]

  poll_loop-get :
      (now : ℕ) (es : Map (Job P)) (q : JobQueue P H)
      → IsSound q
      → Distinct es
      → EntriesOf q.jobs es
      → (i : String)
      → get i (poll_loop now es q).jobs
        ≡ elim (get i es) [ none ↦ get i q.jobs | some j ↦ some (polled now q.handlers j) ]
  unfolding poll_loop get
  poll_loop-get now [] q s d e i = refl
  poll_loop-get now ((k, j) ∷ es) q s d e i =
      let (s', e', same, at) = turn_lem now q k j es s d.0 e.0 e.1 in
      let rest = poll_loop-get now es (turn now j q) s' d.1 e' i in
      elim (str_eq-cases k i) [
        | inl (t, p) ↦
            let fresh : get i es ≡ none = rw (← p) d.0 in rw t (ground (arith, rest, fresh, at i))
        | inr (f, ne) ↦ rw f (ground (arith, rest, at i, same, f))
      ]

  -- A poll changes each entry as one job sees it: a due job starts, or dies where no handler is
  -- registered for its type, and every other job is left alone.
  pub poll-polled :
      (now : ℕ) (q : JobQueue P H) (id : String)
      → IsSound q
      → get_job id (poll now q) ≡ map_entry (polled now q.handlers) (get_job id q)
  unfolding get_job poll
  poll-polled now q id s =
      ground
        (arith, poll_loop-get now q.jobs q s s.distinct (Distinct-EntriesOf q.jobs s.distinct) id)
