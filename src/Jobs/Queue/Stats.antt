-- ===== src/Jobs/Queue/Stats.antt =====
-- `stats`: its five counts.
use onlyapi.Jobs.Queue.Preservation.{Reach-IsSound}
use onlyapi.Base.{
  Bool, Map, String, [], arith, count, false, length, true, ◌+◌, ◌∷◌, ◌≡◌, All, Distinct,
  Distinct-EntriesOf, EntriesOf, List, Option, eq_iff, get, none, refl, some, sym, ℕ, ◌∙◌,
}
use onlyapi.Jobs.Queue.{
  Job, JobQueue, JobQueueStats, JobStatus, completed, create, dead, failed, pending, running, stats,
}
use onlyapi.Jobs.Queue.{stats_loop, tally}
use onlyapi.Jobs.Queue.Invariant.{Reach, HeldBy, IsLawful, calls_due, is_for}

abbrev pub same_status : JobStatus → JobStatus → Bool
same_status pending pending = true
same_status running running = true
same_status completed completed = true
same_status failed failed = true
same_status dead dead = true
same_status _ _ = false

module _ {P : Type 0} where
  abbrev pub with_status : JobStatus → String × Job P → Bool
  with_status t e = same_status e.1.status t

  stats_loop_lem :
      (es : Map (Job P)) (s : JobQueueStats)
      → stats_loop es s ≡ record {
        pending = s.pending + count (with_status pending) es;
        running = s.running + count (with_status running) es;
        completed = s.completed + count (with_status completed) es;
        failed = s.failed + count (with_status failed) es;
        dead = s.dead + count (with_status dead) es;
      }
  unfolding stats_loop tally
  stats_loop_lem [] s = ground arith
  stats_loop_lem ((k, j) ∷ es) s = ground (arith, stats_loop_lem es (tally j.status s))

  total :
      (es : Map (Job P))
      → count (with_status pending) es
          + count (with_status running) es
          + count (with_status completed) es
          + count (with_status failed) es
          + count (with_status dead) es
        ≡ length es
  total [] = omega arith
  total ((k, j) ∷ es) = ground (arith, total es)

  -- How many calls wait, taken key by key.
  calls_by_key : Map (Job P) → List (Job P) → ℕ
  calls_by_key [] js = 0
  calls_by_key ((k, w) ∷ m) js = count (is_for k) js + calls_by_key m js

  abbrev present : Option (Job P) → ℕ
  present none = 0
  present (some j) = 1

  calls_by_key-cons :
      (m : Map (Job P)) (j : Job P) (js : List (Job P))
      → Distinct m
      → calls_by_key m (j ∷ js) ≡ present (get j.id m) + calls_by_key m js
  unfolding calls_by_key get
  calls_by_key-cons [] j js d = omega arith
  calls_by_key-cons ((k, w) ∷ m) j js d =
      ground (arith, calls_by_key-cons m j js d.1, eq_iff k j.id, eq_iff j.id k)

  calls_by_key-nil : (m : Map (Job P)) → calls_by_key m [] ≡ 0
  unfolding calls_by_key
  calls_by_key-nil [] = refl
  calls_by_key-nil ((k, w) ∷ m) = omega (arith, calls_by_key-nil m)

  present_held : (o : Option (Job P)) (j : Job P) → HeldBy o j → present o ≡ 1
  present_held none j h = absurd h
  present_held (some e) j h = refl

  length-calls_by_key :
      (m : Map (Job P)) (js : List (Job P))
      → Distinct m
      → All (λ j. HeldBy (get j.id m) j) js
      → length js ≡ calls_by_key m js
  length-calls_by_key m [] d h = sym (calls_by_key-nil m)
  length-calls_by_key m (j ∷ js) d h = omega (
    arith,
    calls_by_key-cons m j js d,
    present_held (get j.id m) j h.0,
    length-calls_by_key m js d h.1,
  )

  abbrev IsOrderly : Map (Job P) → List (Job P) → Type 0
  IsOrderly m js = (k : String) → count (is_for k) js ≡ calls_due (get k m)

  running_by_key :
      (m es : Map (Job P)) (js : List (Job P))
      → EntriesOf m es
      → IsOrderly m js
      → calls_by_key es js ≡ count (with_status running) es
  unfolding calls_by_key
  running_by_key m [] js e c = refl
  running_by_key m ((k, j) ∷ es) js e c = ground (arith, c k, running_by_key m es js e.1 c)

  none_failed :
      (m es : Map (Job P))
      → EntriesOf m es
      → ((k : String) (j : Job P) → get k m ≡ some j → (j.id ≡ k) × IsLawful j)
      → count (with_status failed) es ≡ 0
  none_failed m [] e l = refl
  none_failed m ((k, j) ∷ es) e l = ground (arith, l k j, none_failed m es e.1 l)

module _ {P H : Type 0} where
  -- The statistics count the jobs of each status, and leave none out.
  pub stats-count :
      (q : JobQueue P H)
      → let s = stats q in
        (s.pending ≡ count (with_status pending) q.jobs)
        × (s.running ≡ count (with_status running) q.jobs)
        × (s.completed ≡ count (with_status completed) q.jobs)
        × (s.failed ≡ count (with_status failed) q.jobs)
        × (s.dead ≡ count (with_status dead) q.jobs)
        × (s.pending + s.running + s.completed + s.failed + s.dead ≡ length q.jobs)
  unfolding stats
  stats-count q =
      let zeros : JobQueueStats = record {
        pending = 0;
        running = 0;
        completed = 0;
        failed = 0;
        dead = 0;
      } in
      ground (arith, stats_loop_lem q.jobs zeros, total q.jobs)

  -- After any events, as many jobs are `running` as handler calls wait, and none is `failed`.
  pub stats_reached :
      {q : JobQueue P H}
      → Reach create q
      → ((stats q).running ≡ length q.active) × ((stats q).failed ≡ 0)
  stats_reached {q} r =
      let s = Reach-IsSound r in
      let entries = Distinct-EntriesOf q.jobs s.distinct in
      let (_, a, _, b, _, _) = stats-count q in
      (
        a
            ∙ sym (running_by_key q.jobs q.jobs q.active entries s.called)
            ∙ sym (length-calls_by_key q.jobs q.active s.distinct s.held),
        b ∙ none_failed q.jobs q.jobs entries s.keyed,
      )
