-- ===== src/Examples/Living.antt =====
-- The life of a job, and the rows of the spine, at concrete inputs.
use shiplog_prototype.Prelude.{
  ℕ, ◌<◌, ◌≤◌, Bool, true, not, ◌&&◌, some, [], ◌∷◌, ◌≡◌, ◌≢◌, ◌↔◌, refl, arith, All, ltb, ◌==◌,
  eq_iff,
}
use shiplog_prototype.Text.{decimal}
use shiplog_prototype.Value.{Value, undefined}
use shiplog_prototype.Errors.{Thrown}
use shiplog_prototype.Models.{IngestJobData}
use shiplog_prototype.Backoff.{Fraction}
use shiplog_prototype.World.{World, done, final, after_fault}
use shiplog_prototype.Ingest.{ingest_event}
use shiplog_prototype.Ingest.Rows.{IsRow, ingest_event-IsRow}
use shiplog_prototype.Queue.Requeue.{replay_dead_letter}
use shiplog_prototype.Queue.Processor.{ingest_processor}
use shiplog_prototype.Queue.Workers.{ingest_job, create_ingest_worker, create_reconcile_worker}
use shiplog_prototype.Queue.Life.{Bull, run_job, attempts, last_world}
use shiplog_prototype.Queue.Life.Ends.{Lives, run_job-ingest}
use shiplog_prototype.Queue.Life.Polling.{LivesPolling, reconcile_job, run_job-reconcile}
use shiplog_prototype.Queue.Life.Outage.{idle, life_of, letter}
use shiplog_prototype.Queue.Life.Healing.{outage, outage_heals}
use shiplog_prototype.Examples.Nangos.{
  two_pages, poll_job, pages_left, two_pages-IsFinite, pages_left-low,
}
use shiplog_prototype.Examples.{test_host, test_db, empty_world, bad_job, issue_input}

abbrev pub tries_again : ℕ → ℕ → Thrown → Bool
tries_again made limit e = not (e.name == "UnrecoverableError") && ltb made limit

pub tries_again_lem :
    (made limit : ℕ) (e : Thrown)
    → (tries_again made limit e ≡ true) ↔ ((e.name ≢ "UnrecoverableError") × (made < limit))
tries_again_lem made limit e = (
  λ h. (λ same. ground (arith, eq_iff e.name "UnrecoverableError"), ground arith),
  λ (named, less). ground (arith, eq_iff e.name "UnrecoverableError"),
)

abbrev pub bull : Bull
bull = record { retries = tries_again; retries_iff = tries_again_lem }

abbrev pub half : ℕ → Fraction
half n = record { over = 1; under = 2 }

run_job-ingest_example :
    let life =
      run_job bull
        (create_ingest_worker test_host test_db 1000 half true (λ n. undefined))
        idle
        (ingest_job bad_job)
        5
        0
        empty_world in
    Lives test_host test_db 1000 true (λ n. undefined) idle bad_job 0 empty_world life
    × (attempts life ≤ 5)
run_job-ingest_example =
    run_job-ingest test_host test_db bull 1000 half true (λ n. undefined) idle bad_job
      (λ n. record { below_one = omega arith }) empty_world

abbrev sick_job : IngestJobData
sick_job = record bad_job { demo_fault = some "f" }

outage_heals_example :
    let life =
      life_of test_host test_db bull 1000 half true (λ n. undefined) sick_job 5 0 empty_world in
    let v = last_world life in
    (attempts life ≡ 5)
    × (v.events ≡ [])
    × ((t : ℕ) × (v.dead_letters ≡ letter sick_job outage empty_world t ∷ []))
    × (w' : World) × (replay_dead_letter test_host test_db "0" "t" v
        ≡ done (some (record { replayed = true; dead_letter_id = "0"; payload = sick_job })) w')
    × (w'.ingest_queue ≡ sick_job ∷ [])
    × ((m : Value)
        → ingest_processor test_host test_db (ingest_job sick_job 0) m w'
          ≡ ingest_processor test_host test_db (ingest_job bad_job 0) m (after_fault w'))
unfolding decimal
outage_heals_example =
    outage_heals test_host test_db bull 1000 half true (λ n. undefined) sick_job "f" refl refl
      empty_world refl refl refl

ingest_event-IsRow_example :
    All
      (IsRow test_host)
      (final (ingest_event test_host test_db (some "t") issue_input empty_world)).events
ingest_event-IsRow_example =
    ingest_event-IsRow test_host test_db (some "t") issue_input empty_world tt

run_job-reconcile_example :
    let life =
      run_job bull
        (create_reconcile_worker test_host test_db 300 half two_pages 2)
        idle
        (reconcile_job poll_job)
        5
        0
        empty_world in
    LivesPolling test_host test_db 300 two_pages 2 idle poll_job 0 empty_world life
    × (attempts life ≤ 5)
run_job-reconcile_example =
    run_job-reconcile test_host test_db bull 300 half two_pages 2 idle poll_job
      (λ n. record { below_one = omega arith }) pages_left two_pages-IsFinite pages_left-low
      empty_world
