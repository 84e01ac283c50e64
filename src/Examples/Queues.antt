-- ===== src/Examples/Queues.antt =====
-- Failing jobs, dead letters, replays and sweeps at concrete inputs.
use shiplog_prototype.Prelude.{
  ◌*◌, ◌^◌, ◌≤◌, true, false, none, some, [], ◌∷◌, ◌++◌, ◌≡◌, ◌↔◌, ◌⊎◌, refl, any, min, arith,
  nat_eq,
}
use shiplog_prototype.Value.{undefined}
use shiplog_prototype.Text.{decimal}
use shiplog_prototype.Models.{DeadLetter, JobView, IngestJobData}
use shiplog_prototype.Mongo.{IsFound, IsUpdate}
use shiplog_prototype.Errors.{Thrown, transient, plain_error, classify_error}
use shiplog_prototype.Errors.Classifier.{IsRetryable, classify_error-transient_iff}
use shiplog_prototype.Backoff.{Fraction, default_options, compute_backoff}
use shiplog_prototype.Backoff.Bounds.{compute_backoff_bounds}
use shiplog_prototype.World.{World, done, fail, final, after_fault, fine}
use shiplog_prototype.Ingest.{IngestResult}
use shiplog_prototype.Queue.Requeue.{replay_dead_letter, is_item, stamp}
use shiplog_prototype.Queue.Requeue.Verbatim.{
  Replays, replay_dead_letter-Replays, replay_dead_letter_fine,
}
use shiplog_prototype.Queue.DeadLetters.{is_terminal_failure, on_failed}
use shiplog_prototype.Queue.DeadLetters.Terminal.{WithDocument, on_failed-parks}
use shiplog_prototype.Queue.Processor.{process, ingest_processor}
use shiplog_prototype.Queue.Processor.Policy.{Rejects, ingest_processor-Rejects}
use shiplog_prototype.Queue.Sweep.{reconcile_sweep}
use shiplog_prototype.Queue.Sweep.Single.{HasUniqueJobs, reconcile_sweep-HasUniqueJobs}
use shiplog_prototype.Examples.{test_host, test_db, empty_world, bad_job, last_attempt}

abbrev dead_letter : DeadLetter
dead_letter = record {
  id = 1;
  tenant_id = "t";
  connection_id = some "2";
  sync_run_id = none;
  payload = bad_job;
  error_message = "Unknown Nango model: undefined";
  error_stack = none;
  attempts_made = some 5;
  failed_at = 900;
  replayed_at = none;
}

-- A world with one dead letter.
abbrev parked_world : World
parked_world = record empty_world { dead_letters = dead_letter ∷ [] }

replay_dead_letter-Replays_example :
    Replays test_host test_db "1" "t" parked_world
      (final (replay_dead_letter test_host test_db "1" "t" parked_world))
replay_dead_letter-Replays_example =
    replay_dead_letter-Replays test_host test_db "1" "t" parked_world

replay_dead_letter_fine_example :
    ((any (is_item test_host "1" "t") parked_world.dead_letters ≡ false)
      × (replay_dead_letter test_host test_db "1" "t" parked_world
          ≡ done none (after_fault parked_world)))
    ⊎ ((d : DeadLetter) × (w' : World) × IsFound
          (is_item test_host "1" "t")
          d
          parked_world.dead_letters
        × (replay_dead_letter test_host test_db "1" "t" parked_world
            ≡ done
                (some
                  (record { replayed = true; dead_letter_id = decimal d.id; payload = d.payload }))
                w')
        × (w'.ingest_queue ≡ [] ++ d.payload ∷ [])
        × IsUpdate (λ x. nat_eq x.id d.id) (stamp 1000) parked_world.dead_letters w'.dead_letters)
replay_dead_letter_fine_example =
    replay_dead_letter_fine test_host test_db "1" "t" parked_world refl

abbrev unknown_model : Thrown
unknown_model = plain_error "UnrecoverableError" "Unknown Nango model: undefined"

on_failed-parks_example :
    (w' : World) × (on_failed test_host test_db true last_attempt unknown_model empty_world
      ≡ done tt w')
    × (is_terminal_failure last_attempt unknown_model ≡ false → w' ≡ empty_world)
    × (is_terminal_failure last_attempt unknown_model ≡ true
        → fine ≡ fine
        → WithDocument test_host test_db true last_attempt unknown_model empty_world w')
on_failed-parks_example =
    on_failed-parks test_host test_db true last_attempt unknown_model empty_world

ingest_processor-Rejects_example :
    ((a : IngestResult) × (w' : World) × (process test_host test_db bad_job undefined empty_world
        ≡ done a w')
      × (ingest_processor test_host test_db last_attempt undefined empty_world ≡ done a w'))
    ⊎ ((e e' : Thrown) × (w' : World) × (process test_host test_db bad_job undefined empty_world
          ≡ fail e w')
        × (ingest_processor test_host test_db last_attempt undefined empty_world ≡ fail e' w')
        × Rejects test_host w'.now e e')
ingest_processor-Rejects_example =
    ingest_processor-Rejects test_host test_db last_attempt undefined empty_world

abbrev faulty_job : JobView IngestJobData
faulty_job = record last_attempt { job_data = record bad_job { demo_fault = some "f" } }

abbrev unavailable : Thrown
unavailable = record (plain_error "Error" "unavailable") { status_code = some 503 }

classify_error-transient_iff_example :
    ((classify_error test_host 0 (some unavailable)).kind ≡ transient) ↔ IsRetryable unavailable
classify_error-transient_iff_example = classify_error-transient_iff test_host 0 unavailable

abbrev half : Fraction
half = record { over = 1; under = 2 }

compute_backoff_bounds_example :
    let delay = compute_backoff 3 default_options half in
    (min 30000 (1000 * 2 ^ 2) ≤ delay) × (4 * delay ≤ 5 * (1000 * 2 ^ 2)) × (delay ≤ 30000)
compute_backoff_bounds_example =
    compute_backoff_bounds 2 default_options half (record { below_one = omega arith })
      (record { proper = omega arith; small = omega arith }) refl

-- A world with one active connection.
abbrev swept_world : World
swept_world = record empty_world {
  connections =
      record {
        id = 2;
        tenant_id = "t";
        provider = some "github";
        nango_connection_id = some "n";
        nango_integration_id = some "github";
        status = "active";
        models = "Commit" ∷ "Issue" ∷ "Commit" ∷ [];
        created_at = 4;
      }
      ∷ [];
}

reconcile_sweep-HasUniqueJobs_example :
    HasUniqueJobs (final (reconcile_sweep test_host test_db swept_world)).reconcile_queue
reconcile_sweep-HasUniqueJobs_example =
    reconcile_sweep-HasUniqueJobs test_host test_db swept_world tt
