-- ===== src/Queue/Life/Polling.antt =====
-- The life of a reconcile job of src/queue/reconcileWorker.ts: what its retries do to the cursor.
use shiplog_prototype.Prelude.{
  String, ℕ, zero, suc, ◌+◌, ◌≤◌, ◌<◌, Option, some, ◌≡◌, ◌⊎◌, inl, inr, refl, arith, Bool-cases,
}
use shiplog_prototype.Host.{Host}
use shiplog_prototype.Errors.{Thrown}
use shiplog_prototype.Models.{ReconcileJobData, JobView}
use shiplog_prototype.Backoff.{Fraction}
use shiplog_prototype.Backoff.Bounds.{IsRandom}
use shiplog_prototype.World.{World, Database, Run, done, fail, final, ◌>>=◌}
use shiplog_prototype.Nango.Pages.{NangoClient}
use shiplog_prototype.Nango.Reconcile.{ReconcileResult, reconcile_processor}
use shiplog_prototype.Nango.Finite.{Finishes, IsFinite, reconcile_processor-Finishes}
use shiplog_prototype.Nango.Checkpoint.{Polls, reconcile_processor-Polls}
use shiplog_prototype.Queue.Options.{reconcile_job_options}
use shiplog_prototype.Queue.Workers.{
  Worker, ReconcileOutcome, reconciled, outcome, create_reconcile_worker,
  reconcile_worker_processor,
}
use shiplog_prototype.Queue.Life.{
  Bull, Life, completed, gave_up, retried, unfinished, after_attempt, run_job, attempts,
}
use shiplog_prototype.Queue.Life.Ends.{Waits, backoff_strategy-Waits, given_up_why}

-- A new reconcile job after a number of attempts.
abbrev pub reconcile_job : ReconcileJobData → ℕ → JobView ReconcileJobData
reconcile_job d attempts_made = record {
  job_data = d;
  name = "reconcile";
  attempts_made = some attempts_made;
  attempts = reconcile_job_options.attempts;
}

module _ (host : Host) (db : Database) (nango : NangoClient) (fuel : ℕ) (d : ReconcileJobData) where
  -- One run of the processor.
  abbrev pub poll : World → Run (Option ReconcileResult)
  poll = reconcile_processor host db nango d fuel

  abbrev attempt_at : ℕ → World → Run ReconcileOutcome
  attempt_at n = reconcile_worker_processor host db nango fuel (reconcile_job d n)

  attempt_done :
      (n : ℕ) (w v : World) (o : Option ReconcileResult)
      → poll w ≡ done o v
      → attempt_at n w ≡ done (outcome o) v
  unfolding reconcile_worker_processor
  attempt_done n w v o e = rw (◌>>=◌, e) refl

  attempt_failed :
      (n : ℕ) (w v : World) (t : Thrown) → poll w ≡ fail t v → attempt_at n w ≡ fail t v
  unfolding reconcile_worker_processor
  attempt_failed n w v t e = rw (◌>>=◌, e) refl

  -- What a run does to the cursor.
  polled :
      (w : World) {r : Run (Option ReconcileResult)}
      → poll w ≡ r
      → Polls host db nango d w (final r)
  polled w e = let polls = reconcile_processor-Polls host db nango d fuel w in (rw (e) at polls)

module _ (host : Host) (db : Database) (base_ms : ℕ) (nango : NangoClient) (fuel : ℕ)
    (meanwhile : ℕ → ℕ → World → World) (d : ReconcileJobData) where
  abbrev pub run : World → Run (Option ReconcileResult)
  run = poll host db nango fuel d

  abbrev pub HasPolled : World → World → Type 0
  HasPolled = Polls host db nango d

  -- The life of the job from the attempt after `n` others on, which begins in the world `w`.
  abbrev pub LivesPolling : ℕ → World → Life ReconcileOutcome → Type 0
  LivesPolling n w (completed r w') =
      (x : ReconcileResult) × (run w ≡ done (some x) w') × (r ≡ reconciled x) × HasPolled w w'
  LivesPolling n w (gave_up e w') =
      (run w ≡ fail e w') × HasPolled w w' × ((e.name ≡ "UnrecoverableError") ⊎ (suc n ≡ 5))
  LivesPolling n w (retried e delay w' rest) =
      (run w ≡ fail e w')
      × HasPolled w w'
      × (suc n < 5)
      × Waits base_ms n e.retry_after_ms delay
      × LivesPolling (suc n) (meanwhile (suc n) delay w') rest
  LivesPolling n w (unfinished w') = ⊥

  attempts_bound :
      (n : ℕ) (w : World) (l : Life ReconcileOutcome)
      → n < 5
      → LivesPolling n w l
      → n + attempts l ≤ 5
  attempts_bound n w (completed r w') less h = omega arith
  attempts_bound n w (gave_up e w') less h = omega arith
  attempts_bound n w (retried e delay w' rest) less (_, _, more, _, h) =
      omega (arith, attempts_bound (suc n) (meanwhile (suc n) delay w') rest more h)
  attempts_bound n w (unfinished w') less h = elim h [ ]

module _ (host : Host) (db : Database) (bull : Bull) (base_ms : ℕ) (random : ℕ → Fraction)
    (nango : NangoClient) (pages : ℕ) (meanwhile : ℕ → ℕ → World → World) (d : ReconcileJobData)
    (drawn : (n : ℕ) → IsRandom (random n)) (rank : Option String → ℕ)
    (finite : IsFinite host db nango d rank)
    (enough_pages : (token : Option String) → rank token < pages) where
  abbrev Goes : ℕ → World → Life ReconcileOutcome → Type 0
  Goes = LivesPolling host db base_ms nango pages meanwhile d

  abbrev worker : Worker ReconcileJobData ReconcileOutcome
  worker = create_reconcile_worker host db base_ms random nango pages

  abbrev life_of : ℕ → ℕ → World → Life ReconcileOutcome
  life_of fuel n w = run_job bull worker meanwhile (reconcile_job d) fuel n w

  run_job-Goes : (fuel n : ℕ) (w : World) → n < 5 → 5 ≤ n + fuel → Goes n w (life_of fuel n w)
  unfolding run_job create_reconcile_worker Finishes
  run_job-Goes zero n w less enough = absurd (omega arith)
  run_job-Goes (suc fuel) n w less enough =
      elim (reconcile_processor-Finishes host db nango d rank pages finite enough_pages w) [
        | inl (x, v, e) ↦
            rw (attempt_done host db nango pages d n w v (some x) e, after_attempt)
              (x, e, refl, polled host db nango pages d w e)
        | inr (t, v, e) ↦ elim (Bool-cases (bull.retries (suc n) 5 t)) [
          | inl again ↦
              let (_, more) = (bull.retries_iff (suc n) 5 t).0 again in
              rw (attempt_failed host db nango pages d n w v t e, after_attempt, again)
                (
                  e,
                  polled host db nango pages d w e,
                  more,
                  backoff_strategy-Waits base_ms n (random (suc n)) t t.retry_after_ms refl
                      (drawn (suc n)),
                  run_job-Goes fuel (suc n) _ more (omega arith),
                )
          | inr over ↦
              rw (attempt_failed host db nango pages d n w v t e, after_attempt, over)
                (e, polled host db nango pages d w e, given_up_why bull n t less over)
        ]
      ]

  -- The life of a reconcile job where the API's page tokens lead to an end, with fuel for the pages
  -- above the rank of any token, whichever calls fail and whatever happens to the world between its
  -- attempts. It ends within five attempts: it completes with the result of the poll, or is given up,
  -- only on an unrecoverable error or after the fifth attempt. Each attempt, also one that fails,
  -- begins at the stored cursor and moves it only from page to page, past pages that the client
  -- answered and whose live records were all landed and queued before. The wait before a retry is the
  -- one that was asked for, or lies between the exponential delay and the cap.
  pub run_job-reconcile :
      (w : World)
      → let life = run_job bull worker meanwhile (reconcile_job d) 5 0 w in
        Goes 0 w life × (attempts life ≤ 5)
  run_job-reconcile w =
      let lives = run_job-Goes 5 0 w (omega arith) (omega arith) in
      (
        lives,
        omega (
          arith,
          attempts_bound host db base_ms nango pages meanwhile d 0 w (life_of 5 0 w) (omega arith)
              lives,
        ),
      )
