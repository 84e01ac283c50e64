-- ===== src/Queue/Life/Outage.antt =====
-- An outage: every attempt of a job fails with one error that BullMQ retries, and writes nothing.
use shiplog_prototype.Prelude.{
  ℕ, zero, suc, ◌+◌, ◌≤◌, ◌<◌, List, [], ◌≡◌, ◌≢◌, inl, inr, ap, ◌∙◌, arith, some, Bool, Bool-cases,
}
use shiplog_prototype.Value.{Value}
use shiplog_prototype.Host.{Host}
use shiplog_prototype.Errors.{Thrown}
use shiplog_prototype.Models.{IngestJobData, DeadLetter}
use shiplog_prototype.Backoff.{Fraction}
use shiplog_prototype.World.{Fault, World, Database, fail, final}
use shiplog_prototype.Ingest.{IngestResult}
use shiplog_prototype.Queue.DeadLetters.{build_dead_letter}
use shiplog_prototype.Queue.DeadLetters.Terminal.{on_failed-parks}
use shiplog_prototype.Queue.DeadLetters.Parked.{Parks, Parks-later, on_failed-Parks}
use shiplog_prototype.Queue.Processor.{ingest_processor}
use shiplog_prototype.Queue.Workers.{backoff_strategy, ingest_job, Worker, create_ingest_worker}
use shiplog_prototype.Queue.Life.{Bull, Life, after_attempt, run_job, attempts, last_world}
use shiplog_prototype.Queue.Life.Ends.{retried-not_terminal, given_up-terminal}

-- Nothing happens but that time passes.
abbrev pub idle : ℕ → ℕ → World → World
idle n delay w = record w { now = w.now + delay }

-- The dead letter of a job whose fifth attempt failed with this error.
abbrev pub letter : IngestJobData → Thrown → World → ℕ → DeadLetter
letter d e w t = build_dead_letter w.next_id t (ingest_job d 5) e

module _ (host : Host) (db : Database) (bull : Bull) (base_ms : ℕ) (random : ℕ → Fraction)
    (has_queue : Bool) (mode : ℕ → Value) (d : IngestJobData) where
  abbrev worker : Worker IngestJobData IngestResult
  worker = create_ingest_worker host db base_ms random has_queue mode

  abbrev pub life_of : ℕ → ℕ → World → Life IngestResult
  life_of fuel n w = run_job bull worker idle (ingest_job d) fuel n w

  abbrev next : ℕ → ℕ → ℕ → World → Life IngestResult
  next fuel n delay v = life_of fuel (suc n) (idle (suc n) delay v)

  module _ (e : Thrown) (e_name : e.name ≢ "UnrecoverableError") where
    -- The fifth attempt has just failed, or the job is tried again.
    abbrev pub Suffers : ℕ → World → Life IngestResult → Type 0
    Suffers n w l = (n + attempts l ≡ 5) × (t : ℕ) × Parks w (last_world l) (letter d e w t)

    failed-Suffers :
        (fuel n : ℕ) (v : World)
        → n < 5
        → v.faults ≡ []
        → ((delay : ℕ) → suc n < 5 → Suffers (suc n) (idle (suc n) delay v) (next fuel n delay v))
        → Suffers n v (after_attempt bull worker idle (ingest_job d) n (next fuel n) (fail e v))
    unfolding after_attempt create_ingest_worker
    failed-Suffers fuel n v less fine ih = elim (Bool-cases (bull.retries (suc n) 5 e)) [
      | inl again ↦
          let (named, more) = (bull.retries_iff (suc n) 5 e).0 again in
          let (w', handled, quiet, _) =
            on_failed-parks host db has_queue (ingest_job d (suc n)) e v in
          let same = quiet (retried-not_terminal bull d n e again) in
          let (count, t, parks) =
            ih (backoff_strategy base_ms (random (suc n)) (suc n) (some e)) more in
          rw (after_attempt, again, handled, final, same)
            (omega arith, t, Parks-later _ _ _ _ _ parks)
      | inr over ↦
          let (why, terminal) = given_up-terminal bull d n e less over in
          elim why [
            | inl named ↦ absurd (e_name named)
            | inr last ↦
                let parks =
                  on_failed-Parks host db has_queue (ingest_job d (suc n)) e v fine terminal in
                rw (after_attempt, over, last) (omega arith, v.now, rw last at parks)
          ]
    ]

    -- The attempts fail as long as the dead letters are of a kind, and use up faults at most.
    module _ (Down : List DeadLetter → Type 0) (used : List Fault → List Fault)
        (used_none : used [] ≡ [])
        (fails : (n : ℕ) (w : World)
          → w.faults ≡ []
          → Down w.dead_letters
          → ingest_processor host db (ingest_job d n) (mode w.now) w
            ≡ fail e (record w { faults = used w.faults })) where
      run_job-Suffers :
          (fuel n : ℕ) (w : World)
          → n < 5
          → 5 ≤ n + fuel
          → w.faults ≡ []
          → Down w.dead_letters
          → Suffers n w (life_of fuel n w)
      unfolding run_job create_ingest_worker
      run_job-Suffers zero n w less enough fine down = absurd (omega arith)
      run_job-Suffers (suc fuel) n w less enough fine down =
          let v = record w { faults = used w.faults } in
          let fine' = ap used fine ∙ used_none in
          let (count, t, parks) = failed-Suffers fuel n v less fine' (λ delay more.
            run_job-Suffers fuel (suc n) (idle (suc n) delay v) more (omega arith) fine' down) in
          rw (fails n w fine down) (count, t, Parks-later _ _ _ _ _ parks)

      -- All five attempts fail, and the job becomes a dead letter.
      pub life_of-Suffers :
          (w : World) → w.faults ≡ [] → Down w.dead_letters → Suffers 0 w (life_of 5 0 w)
      life_of-Suffers w fine down = run_job-Suffers 5 0 w (omega arith) (omega arith) fine down
