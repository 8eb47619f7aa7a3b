-- ===== src/Jobs/Queue.antt =====
-- src/infrastructure/jobs/job-queue.ts. Times are milliseconds (the source compares ISO texts, which
-- sort as the times do). `processJob` waits for its handler, so it is two steps: `start_job` up to
-- the call, and `complete` when the handler settles; the calls that wait are the list `active`.
pub mod Invariant
mod Entries
pub mod Preservation
pub mod Polling
pub mod Lifecycle
pub mod Stats
mod Tests
use mathlib.Core.Option
use onlyapi.Base.{
  Bool, List, Map, Option, String, [], false, get, if◌then◌else◌, leb, min, none, set, some, true,
  ℕ, ◌*◌, ◌++◌, ◌+◌, ◌^◌, ◌∷◌,
}

pub data JobStatus : Type 0 where
  pending running completed failed dead : JobStatus

-- The texts of `lastError`: no handler for a type, or the message that a handler threw.
pub data JobError : Type 0 where
  no_handler : String → JobError
  thrown : String → JobError

-- `P` is the type of payloads, which the queue only hands on.
pub record Job (P : Type 0) : Type 0 where
  pub id : String
  pub job_type : String
  pub payload : P
  pub status : JobStatus
  pub attempts : ℕ
  pub max_retries : ℕ
  pub run_at : ℕ
  pub created_at : ℕ
  pub updated_at : ℕ
  pub last_error : Option JobError

pub record SubmitJobOptions (P : Type 0) : Type 0 where
  pub job_type : String
  pub payload : P
  pub max_retries : Option ℕ
  pub delay_ms : Option ℕ

-- `H` is the type of handlers.
pub record JobQueue (P H : Type 0) : Type 0 where
  pub jobs : Map (Job P)
  pub handlers : Map H
  pub is_running : Bool
  pub active : List (Job P)

pub record JobQueueStats : Type 0 where
  pub pending : ℕ
  pub running : ℕ
  pub completed : ℕ
  pub failed : ℕ
  pub dead : ℕ

-- How a handler settles.
pub data Settled : Type 0 where
  resolved : Settled
  rejected : String → Settled

-- `Math.min(1_000 * 2 ** newAttempts, 60_000)`
pub backoff_ms : ℕ → ℕ
backoff_ms new_attempts = min (1000 * 2 ^ new_attempts) 60000

-- `options.delayMs ? now + options.delayMs : now`
run_time : ℕ → Option ℕ → ℕ
run_time now none = now
run_time now (some d) = now + d

tally : JobStatus → JobQueueStats → JobQueueStats
tally pending s = record s { pending = s.pending + 1 }
tally running s = record s { running = s.running + 1 }
tally completed s = record s { completed = s.completed + 1 }
tally failed s = record s { failed = s.failed + 1 }
tally dead s = record s { dead = s.dead + 1 }

module _ {P : Type 0} where
  abbrev dying : JobError → Job P → Job P
  dying e j = record j { status = dead; last_error = some e }

  abbrev starting : Job P → Job P → Job P
  starting snapshot j = record j { status = running; attempts = snapshot.attempts + 1 }

  abbrev finishing : Job P → Job P
  finishing j = record j { status = completed }

  abbrev retrying : String → ℕ → Job P → Job P
  retrying message run_at j = record j {
    status = pending;
    last_error = some (thrown message);
    run_at = run_at;
  }

  pub is_due : ℕ → Job P → Bool
  is_due now j = elim j.status [ pending ↦ leb j.run_at now | _ ↦ false ]

  stats_loop : List (String × Job P) → JobQueueStats → JobQueueStats
  unfolding tally
  stats_loop [] s = s
  stats_loop ((k, j) ∷ es) s = stats_loop es (tally j.status s)

module _ {P H : Type 0} where
  pub create : JobQueue P H
  create = record { jobs = []; handlers = []; is_running = false; active = [] }

  -- `updateJob`: the updates, and the time of the update.
  pub update_job : String → ℕ → (Job P → Job P) → JobQueue P H → JobQueue P H
  update_job id now f q = elim (get id q.jobs) [
    | none ↦ q
    | some j ↦ record q { jobs = set id (record (f j) { updated_at = now }) q.jobs }
  ]

  -- `processJob` up to the call of the handler.
  pub start_job : ℕ → Job P → JobQueue P H → JobQueue P H
  unfolding update_job
  start_job now job q = elim (get job.job_type q.handlers) [
    | none ↦ update_job job.id now (dying (no_handler job.job_type)) q
    | some h ↦
        let q' = update_job job.id now (starting job) q in
        record q' { active = q'.active ++ job ∷ [] }
  ]

  -- `processJob` after its handler has settled. `job` is what it was started with.
  pub complete : ℕ → Job P → Settled → JobQueue P H → JobQueue P H
  unfolding update_job backoff_ms
  complete now job resolved q = update_job job.id now finishing q
  complete now job (rejected message) q =
      let new_attempts = job.attempts + 1 in
      if leb job.max_retries new_attempts
      then update_job job.id now (dying (thrown message)) q
      else update_job job.id now (retrying message (now + backoff_ms new_attempts)) q

  -- The loop of `poll` over the entries of the map. A start changes the entry of its own job only,
  -- so the entries are read once, before the loop.
  poll_loop : ℕ → List (String × Job P) → JobQueue P H → JobQueue P H
  unfolding is_due
  poll_loop now [] q = q
  poll_loop now ((k, j) ∷ es) q = poll_loop now es (if is_due now j then start_job now j q else q)

  pub poll : ℕ → JobQueue P H → JobQueue P H
  unfolding poll_loop
  poll now q = poll_loop now q.jobs q

  -- A turn of the timer, which is set while the queue runs.
  pub tick : ℕ → JobQueue P H → JobQueue P H
  tick now q = if q.is_running then poll now q else q

  -- `id` is what `generateId` returns.
  pub submit : String → SubmitJobOptions P → ℕ → JobQueue P H → Job P × JobQueue P H
  unfolding run_time
  submit id options now q =
      let job : Job P = record {
        id = id;
        job_type = options.job_type;
        payload = options.payload;
        status = pending;
        attempts = 0;
        max_retries = Option.get_or options.max_retries 3;
        run_at = run_time now options.delay_ms;
        created_at = now;
        updated_at = now;
        last_error = none;
      } in
      (job, record q { jobs = set id job q.jobs })

  pub register_handler : String → H → JobQueue P H → JobQueue P H
  register_handler job_type h q = record q { handlers = set job_type h q.handlers }

  pub start : JobQueue P H → JobQueue P H
  start q = record q { is_running = true }

  pub stop : JobQueue P H → JobQueue P H
  stop q = record q { is_running = false }

  pub get_job : String → JobQueue P H → Option (Job P)
  get_job id q = get id q.jobs

  pub stats : JobQueue P H → JobQueueStats
  unfolding stats_loop
  stats q =
      stats_loop q.jobs (record { pending = 0; running = 0; completed = 0; failed = 0; dead = 0 })
