-- ===== src/Jobs/Queue/Tests.antt =====
-- Runs of the job queue, and its theorems at a concrete one.
use mathlib.Core.Option
use onlyapi.Base.{[], ap, get, none, refl, set, some, true, ℕ, ◌++◌, ◌∷◌, ◌≡◌}
use onlyapi.Jobs.Queue.{
  Job, JobQueue, SubmitJobOptions, complete, completed, create, get_job, pending, poll,
  register_handler, rejected, resolved, running, start, start_job, submit, tick,
}
use onlyapi.Jobs.Queue.Invariant.{Reach, here, next, registers, settles, starts, submits, ticks}

-- Payloads and handlers are numbers.
abbrev Queue : Type 0
Queue = JobQueue ℕ ℕ

abbrev mail : SubmitJobOptions ℕ
mail = record { job_type = "mail"; payload = 7; max_retries = some 2; delay_ms = none }

abbrev with_handler : Queue
with_handler = register_handler "mail" 1 create

abbrev with_job : Queue
with_job = (submit "a" mail 100 with_handler).1

abbrev ticking : Queue
ticking = start with_job

abbrev busy : Queue
busy = tick 100 ticking

-- The job as it was submitted, and as it runs.
abbrev waiting_job : Job ℕ
waiting_job = record {
  id = "a";
  job_type = "mail";
  payload = 7;
  status = pending;
  attempts = 0;
  max_retries = 2;
  run_at = 100;
  created_at = 100;
  updated_at = 100;
  last_error = none;
}

abbrev running_job : Job ℕ
running_job = record waiting_job { status = running; attempts = 1 }

abbrev failed_once : Queue
failed_once = complete 150 waiting_job (rejected "down") (record busy { active = [] })

abbrev done : Queue
done = complete 150 waiting_job resolved (record busy { active = [] })

busy_runs : busy ≡ record {
  jobs = ("a", running_job) ∷ [];
  handlers = ("mail", 1) ∷ [];
  is_running = true;
  active = waiting_job ∷ [];
}
unfolding tick start submit register_handler create poll start_job get set
busy_runs = refl

-- The first retry waits two seconds: `newAttempts` is 1 already.
first_backoff : Option.map (λ j. j.run_at) (get_job "a" failed_once) ≡ some 2150
unfolding get_job complete tick start submit register_handler create poll start_job get set
first_backoff = refl

Reach-ticking : Reach create ticking
unfolding get create register_handler
Reach-ticking = next (next (next here (registers "mail" 1)) (submits "a" mail 100 refl)) starts

Reach-busy : Reach create busy
unfolding get create register_handler
Reach-busy = next Reach-ticking (ticks 100)

busy_waits : busy.active ≡ [] ++ waiting_job ∷ []
busy_waits = ap (λ q. q.active) busy_runs

Reach-done : Reach create done
Reach-done = next Reach-busy (settles 150 waiting_job resolved [] [] busy_waits)

abbrev completed_job : Job ℕ
completed_job = record running_job { status = completed; updated_at = 150 }

done_entry : get_job "a" done ≡ some completed_job
unfolding get_job complete tick start submit register_handler create poll start_job get set
done_entry = refl
