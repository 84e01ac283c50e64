-- ===== src/Queue/Life.antt =====
-- The life of a job: a worker of the repository (src/queue/ingestWorker.ts and its siblings) under
-- BullMQ, from the first attempt to its result or to its last failure. What BullMQ decides by itself,
-- whether a failed job is tried again, is a parameter with its documented rule as a law.
pub mod Ends
pub mod Healing
pub mod Outage
pub mod Polling
use shiplog_prototype.Prelude.{
  if◌then◌else◌, ℕ, zero, suc, ◌<◌, String, Bool, true, false, Option, none, some, List, [], ◌∷◌,
  ◌≡◌, ◌≢◌, ◌↔◌,
}
use shiplog_prototype.Errors.{Thrown}
use shiplog_prototype.Models.{JobView}
use shiplog_prototype.World.{World, M, Run, done, fail, final}
use shiplog_prototype.Queue.DeadLetters.{or_number}
use shiplog_prototype.Queue.Workers.{Worker}

-- BullMQ tries a failed job again unless it threw an `UnrecoverableError` or its attempts are used up.
pub record Bull : Type 0 where
  -- Of the attempts made, the job's limit, and the error.
  pub retries : ℕ → ℕ → Thrown → Bool
  pub retries_iff :
      (made limit : ℕ) (e : Thrown)
      → (retries made limit e ≡ true) ↔ ((e.name ≢ "UnrecoverableError") × (made < limit))

-- How it goes on from one attempt: the job completes, it fails for good, it is tried again after a
-- delay, or the fuel is used up while it runs or waits. Each has the world after the attempt and the handler of its failure.
pub data Life (R : Type 0) : Type 0 where
  completed : R → World → Life R
  gave_up : Thrown → World → Life R
  retried : Thrown → ℕ → World → Life R → Life R
  unfinished : World → Life R

module _ {A R : Type 0} (bull : Bull) (worker : Worker A R) (meanwhile : ℕ → ℕ → World → World)
    (job : ℕ → JobView A) where
  -- One attempt, and what becomes of the job then. The `failed` event comes with the attempt counted.
  unfoldable pub after_attempt : ℕ → (ℕ → World → Life R) → Run R → Life R
  after_attempt made next (done r w) = if worker.returns r then completed r w else unfinished w
  after_attempt made next (fail e w) =
      let w' = final (worker.failed (job (suc made)) e w) in
      let delay = worker.backoff_strategy (suc made) (some e) in
      elim (bull.retries (suc made) (or_number (job made).attempts 1) e) [
        | true ↦ retried e delay w' (next delay w')
        | false ↦ gave_up e w'
      ]

  -- The life of a job after a number of attempts. `job` is the job as the queue holds it after so many
  -- attempts, and `meanwhile` is what happens to the world, the passage of time included, while the
  -- job waits for its next attempt.
  unfoldable pub run_job : ℕ → ℕ → World → Life R
  unfolding after_attempt
  run_job zero made w = unfinished w
  run_job (suc fuel) made w =
      after_attempt made (λ delay v. run_job fuel (suc made) (meanwhile (suc made) delay v))
        (worker.processor (job made) w)

-- How often the job was tried.
abbrev pub attempts : {R : Type 0} → Life R → ℕ
attempts (completed r w) = 1
attempts (gave_up e w) = 1
attempts (retried e delay w rest) = suc (attempts rest)
attempts (unfinished w) = 0

-- The world that the last attempt left.
abbrev pub last_world : {R : Type 0} → Life R → World
last_world (completed r w) = w
last_world (gave_up e w) = w
last_world (retried e delay w rest) = last_world rest
last_world (unfinished w) = w

-- The lives of the jobs that wait, one after the other, and the world after them. `life` is how a
-- worker runs a job.
unfoldable pub drain :
    {A R : Type 0} → (A → World → Life R) → List A → World → List (Life R) × World
drain life [] w = ([], w)
drain life (d ∷ ds) w =
    let l = life d w in let (ls, v) = drain life ds (last_world l) in (l ∷ ls, v)
