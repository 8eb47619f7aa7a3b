-- ===== src/Jobs/Queue/Lifecycle.antt =====
-- The life of one job: how often it runs, when it is tried again, and that its end is final.
use native.Mathlib.Numerals.{towards_suc}
use onlyapi.Jobs.Queue.Entries.{update_job_lem}
use onlyapi.Jobs.Queue.Preservation.{Reach-IsSound}
use onlyapi.Jobs.Queue.Preservation.{Reach-IsSound}
use mathlib.Core.Option
use onlyapi.Base.{
  String, get, if◌then◌else◌, none, some, ℕ, ◌*◌, ◌+◌, ◌≡◌, ◌≢◌, ◌≤◌, arith, inl, inr, suc, zero,
  ◌^◌, ◌∷◌, Bool-cases, leb, subst, sym, ◌⊎◌, All, All-split, List, get-set_ne, get-set_self, ◌++◌,
  ◌∙◌, absent_some,
}
use onlyapi.Jobs.Queue.{
  retrying, Job, JobQueue, backoff_ms, dead, get_job, running, update_job, complete, completed,
  pending, register_handler, rejected, start, stop, submit, thrown, tick, Settled, resolved,
}
use onlyapi.Jobs.Queue.{dying}
use onlyapi.Jobs.Queue.Invariant.{
  IsSound, Step, registers, settles, starts, stops, submits, ticks, HeldBy,
}
use onlyapi.Jobs.Queue.Polling.{poll-polled, polled_settled}

pow-double : (n : ℕ) → 2 ^ (n + 1) ≡ 2 * 2 ^ n
pow-double n = simp towards_suc (omega arith)

pow-positive : (n : ℕ) → 1 ≤ 2 ^ n
pow-positive zero = omega arith
pow-positive (suc n) =
    let next : suc n ≡ n + 1 = omega arith in
    rw (next, pow-double n) (omega (arith, pow-positive n))

-- The delays between attempts double, from two seconds for the first, up to a minute.
pub backoff_bounds :
    (n : ℕ)
    → (2000 ≤ backoff_ms (n + 1))
      × (backoff_ms (n + 1) ≤ 60000)
      × (backoff_ms (n + 1) ≤ backoff_ms (n + 2))
      × (backoff_ms (n + 2) ≤ 2 * backoff_ms (n + 1))
unfolding backoff_ms
backoff_bounds n =
    let two : n + 2 ≡ n + 1 + 1 = omega arith in
    let next : 2 ^ (n + 2) ≡ 2 * 2 ^ (n + 1) = rw two (pow-double (n + 1)) in
    (
      omega (arith, pow-double n, pow-positive n),
      omega arith,
      omega (arith, next),
      omega (arith, next),
    )

module _ {P : Type 0} where
  abbrev pub Ended : Job P → Type 0
  Ended j = (j.status ≡ completed) ⊎ (j.status ≡ dead)

  Ended-not_pending : (j : Job P) → Ended j → j.status ≢ pending
  Ended-not_pending j h = ground arith

  not_running : (j : Job P) → Ended j → j.status ≡ running → ⊥
  not_running j h r = ground arith

module _ {P H : Type 0} where
  -- The entry of a job whose handler call waits is `running`.
  waits_running :
      (id : String) (j job : Job P) (before after : List (Job P)) (q : JobQueue P H)
      → IsSound q
      → q.active ≡ before ++ job ∷ after
      → id ≡ job.id
      → get id q.jobs ≡ some j
      → j.status ≡ running
  waits_running id j job before after q s a p g =
      let held' = subst (All (λ x. HeldBy (get x.id q.jobs) x)) a s.held in
      let (hb, ha) = All-split (λ x. HeldBy (get x.id q.jobs) x) before (job ∷ after) held' in
      let g' : get job.id q.jobs ≡ some j = subst (λ x. get x q.jobs ≡ some j) p g in
      (subst (λ o. HeldBy o job) g' ha.0).0

  complete-others :
      (now : ℕ) (q : JobQueue P H) (job : Job P) (r : Settled) (i : String)
      → i ≢ job.id
      → get i (complete now job r q).jobs ≡ get i q.jobs
  unfolding complete update_job
  complete-others now q job resolved i ne = grind (arith, get-set_ne)
  complete-others now q job (rejected m) i ne = grind (arith, get-set_ne)

  -- A job that has completed or died keeps its entry for good, whatever happens to the queue.
  Ended-absorbs :
      {q r : JobQueue P H} (id : String) (j : Job P)
      → IsSound q
      → Step q r
      → get_job id q ≡ some j
      → Ended j
      → get_job id r ≡ some j
  unfolding get_job submit register_handler start stop tick
  Ended-absorbs {q} id j s (submits new_id o now new) g h =
      let ne : id ≢ new_id =
        λ p. absent_some (sym g ∙ subst (λ x. get x q.jobs ≡ none) (sym p) new) in
      get-set_ne new_id id _ q.jobs ne ∙ g
  Ended-absorbs id j s (registers t x) g h = g
  Ended-absorbs id j s starts g h = g
  Ended-absorbs id j s stops g h = g
  Ended-absorbs {q} id j s (ticks now) g h =
      let same = polled_settled now q.handlers j (Ended-not_pending j h) in
      ground (arith, poll-polled now q id s, same)
  Ended-absorbs {q} id j s (settles now job r before after a) g h =
      let ne : id ≢ job.id = λ p. not_running j h (waits_running id j job before after q s a p g) in
      complete-others now _ job r id ne ∙ g

  -- A failed attempt ends the job when it was the last one allowed; else the job waits again, from
  -- the backoff time on.
  pub complete_rejected :
      (now : ℕ) (q : JobQueue P H) (job e : Job P) (message : String)
      → get_job job.id q ≡ some e
      → get_job job.id (complete now job (rejected message) q)
        ≡ some (
            if leb job.max_retries (job.attempts + 1)
            then record e { status = dead; last_error = some (thrown message); updated_at = now }
            else record e {
              status = pending;
              last_error = some (thrown message);
              run_at = now + backoff_ms (job.attempts + 1);
              updated_at = now;
            })
  unfolding get_job complete
  complete_rejected now q job e message g =
      elim (Bool-cases (leb job.max_retries (job.attempts + 1))) [
        | inl y ↦
            rw (y, update_job_lem job.id now (dying (thrown message)) q e g)
              (get-set_self job.id _ q.jobs)
        | inr n ↦
            rw
              (
                n,
                update_job_lem job.id now (retrying message (now + backoff_ms (job.attempts + 1))) q
                    e g,
              )
              (get-set_self job.id _ q.jobs)
      ]
