-- ===== src/Jobs/Queue/Invariant.antt =====
-- What holds of a job queue between two events, and the events.
use onlyapi.Base.{
  All, Bool, Distinct, List, Option, String, count, get, max, none, some, str_eq, ℕ, ◌++◌, ◌+◌, ◌<◌,
  ◌∷◌, ◌≡◌, ◌≤◌,
}
use onlyapi.Jobs.Queue.{
  Job, JobQueue, JobStatus, Settled, SubmitJobOptions, complete, completed, dead, failed, pending,
  register_handler, running, start, stop, submit, tick,
}

abbrev pub runs : JobStatus → ℕ
runs running = 1
runs _ = 0

module _ {P : Type 0} where
  -- How often a job may be attempted.
  abbrev pub allowance : Job P → ℕ
  allowance j = max 1 j.max_retries

  abbrev pub LawfulIn : JobStatus → Job P → Type 0
  LawfulIn pending j = j.attempts < allowance j
  LawfulIn running j = (1 ≤ j.attempts) × (j.attempts ≤ allowance j)
  LawfulIn completed j = (1 ≤ j.attempts) × (j.attempts ≤ allowance j)
  LawfulIn failed j = ⊥
  LawfulIn dead j = j.attempts ≤ allowance j

  -- A job that waits may still be attempted; one that runs or has run was attempted, and no more
  -- often than allowed; no job is `failed`.
  abbrev pub IsLawful : Job P → Type 0
  IsLawful j = LawfulIn j.status j

  -- How many handler calls should wait for an entry.
  abbrev pub calls_due : Option (Job P) → ℕ
  calls_due none = 0
  calls_due (some j) = runs j.status

  abbrev pub is_for : String → Job P → Bool
  is_for k j = str_eq j.id k

  -- A waiting call was started with the job as it was before its entry became `running`.
  abbrev pub HeldBy : Option (Job P) → Job P → Type 0
  HeldBy none j = ⊥
  HeldBy (some e) j =
      (e.status ≡ running) × (e.attempts ≡ j.attempts + 1) × (e.max_retries ≡ j.max_retries)

module _ {P H : Type 0} where
  pub record IsSound (q : JobQueue P H) : Type 0 where
    pub distinct : Distinct q.jobs
    pub keyed : (k : String) (j : Job P) → get k q.jobs ≡ some j → (j.id ≡ k) × IsLawful j
    pub called : (k : String) → count (is_for k) q.active ≡ calls_due (get k q.jobs)
    pub held : All (λ j. HeldBy (get j.id q.jobs) j) q.active

  -- What happens to a queue. A new id is one that the queue does not hold; any waiting call may
  -- settle.
  pub data Step (q : JobQueue P H) : JobQueue P H → Type 0 where
    submits :
        (id : String) (o : SubmitJobOptions P) (now : ℕ)
        → get id q.jobs ≡ none
        → Step q (submit id o now q).1
    registers : (t : String) (h : H) → Step q (register_handler t h q)
    starts : Step q (start q)
    stops : Step q (stop q)
    ticks : (now : ℕ) → Step q (tick now q)
    settles :
        (now : ℕ) (job : Job P) (s : Settled) (before after : List (Job P))
        → q.active ≡ before ++ job ∷ after
        → Step q (complete now job s (record q { active = before ++ after }))

  pub data Reach (q : JobQueue P H) : JobQueue P H → Type 0 where
    here : Reach q q
    next : {r s : JobQueue P H} → Reach q r → Step r s → Reach q s
