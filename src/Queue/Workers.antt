-- ===== src/Queue/Workers.antt =====
-- How the workers of src/queue/ingestWorker.ts, src/queue/nangoSyncWorker.ts and
-- src/queue/reconcileWorker.ts are set up: the processor of a job, the delay before a retry, the
-- attempts of a job, the handler of a failure, and the sweep's schedule. What is logged is left out.
pub mod Delays
use shiplog_prototype.Prelude.{
  ℕ, String, Bool, true, false, Option, none, some, ◌==◌, if◌then◌else◌,
}
use shiplog_prototype.Host.{Host}
use shiplog_prototype.Value.{Value}
use shiplog_prototype.Errors.{Thrown}
use shiplog_prototype.Models.{ReconcileJobData, IngestJobData, NangoSyncJobData, JobView}
use shiplog_prototype.Backoff.{Fraction, BackoffOptions, default_options, compute_backoff}
use shiplog_prototype.World.{World, Database, M, ◌>>=◌, return}
use shiplog_prototype.Nango.Pages.{NangoClient}
use shiplog_prototype.Nango.Reconcile.{ReconcileResult, reconcile_processor}
use shiplog_prototype.Nango.Sync.{sync_processor}
use shiplog_prototype.Ingest.{IngestResult}
use shiplog_prototype.Nango.Pages.{Counters}
use shiplog_prototype.Queue.Sweep.{reconcile_sweep}
use shiplog_prototype.Queue.Options.{
  JobOptions, Removal, remove, ingest_job_options, reconcile_job_options, ingest_queue_setup,
  nango_sync_queue_setup, reconcile_queue_setup,
}
use shiplog_prototype.Queue.DeadLetters.{or_number, on_failed}
use shiplog_prototype.Queue.Processor.{ingest_processor}

-- `(err as { retryAfterMs?: number })?.retryAfterMs`.
abbrev pub delay_of : Option Thrown → Option ℕ
delay_of none = none
delay_of (some e) = e.retry_after_ms

-- `backoffStrategy` of a worker with this `baseMs`, where `Math.random()` returns the given fraction.
unfoldable pub backoff_strategy : ℕ → Fraction → ℕ → Option Thrown → ℕ
backoff_strategy base_ms rng attempts_made e =
    compute_backoff attempts_made
      (record default_options { base_ms = base_ms; retry_after_ms = delay_of e }) rng

-- `ingestJobOptions.attempts`.
abbrev pub ingest_attempts : ℕ
ingest_attempts = or_number ingest_job_options.attempts 1

-- A new ingest job after a number of attempts.
abbrev pub ingest_job : IngestJobData → ℕ → JobView IngestJobData
ingest_job d attempts_made = record {
  job_data = d;
  name = "ingest";
  attempts_made = some attempts_made;
  attempts = ingest_job_options.attempts;
}

-- The result of a job of the reconcile queue; `out_of_fuel` is no result, the poll is still running.
pub data ReconcileOutcome : Type 0 where
  swept : ℕ → ReconcileOutcome
  reconciled : ReconcileResult → ReconcileOutcome
  out_of_fuel : ReconcileOutcome

abbrev pub outcome : Option ReconcileResult → ReconcileOutcome
outcome none = out_of_fuel
outcome (some r) = reconciled r

abbrev pub is_returned : ReconcileOutcome → Bool
is_returned (swept n) = true
is_returned (reconciled r) = true
is_returned out_of_fuel = false

abbrev pub is_some : {A : Type 0} → Option A → Bool
is_some none = false
is_some (some a) = true

-- `makeReconcileWorkerProcessor(…)(job)`: the name of a job decides what it runs.
unfoldable pub reconcile_worker_processor :
    Host → Database → NangoClient → ℕ → JobView ReconcileJobData → M ReconcileOutcome
reconcile_worker_processor host db nango fuel job =
    let sweep = reconcile_sweep host db >>= λ n. return (swept n) in
    let poll = reconcile_processor host db nango job.job_data fuel >>= λ r. return (outcome r) in
    if job.name == "sweep" then sweep else poll

-- What a queue's worker is made of. `backoff_strategy` is asked with the attempts made and the error
-- that the last one ended with; `failed` handles the event of that name.
pub record Worker (A R : Type 0) : Type 0 where
  pub queue_name : String
  pub concurrency : ℕ
  pub processor : JobView A → M R
  -- Whether a value is one that the processor returns. The model's processors also end, with another
  -- value, where the fuel of a loop is used up, and the source's is still running then.
  pub returns : R → Bool
  pub backoff_strategy : ℕ → Option Thrown → ℕ
  pub failed : JobView A → Thrown → M (Unit {0})

module _ (host : Host) (db : Database) (base_ms : ℕ) (random : ℕ → Fraction) where
  -- The strategy of a worker, where `Math.random()` returns these fractions, one for each attempt.
  abbrev pub strategy : ℕ → Option Thrown → ℕ
  strategy attempts_made e = backoff_strategy base_ms (random attempts_made) attempts_made e

  -- `createIngestWorker(…)`, with whether there is a dlq queue, and what `getFailMode()` answers at
  -- what time.
  unfoldable pub create_ingest_worker : Bool → (ℕ → Value) → Worker IngestJobData IngestResult
  create_ingest_worker has_queue get_fail_mode = record {
    queue_name = ingest_queue_setup.name;
    concurrency = 5;
    processor = λ job w. ingest_processor host db job (get_fail_mode w.now) w;
    returns = λ r. true;
    backoff_strategy = strategy;
    failed = on_failed host db has_queue;
  }

  -- `createNangoSyncWorker(…)`: a failure is only logged.
  unfoldable pub create_nango_sync_worker :
      NangoClient → ℕ → Worker NangoSyncJobData (Option Counters)
  create_nango_sync_worker nango fuel = record {
    queue_name = nango_sync_queue_setup.name;
    concurrency = 5;
    processor = λ job. sync_processor host db nango job.job_data fuel;
    returns = is_some;
    backoff_strategy = strategy;
    failed = λ job e. return tt;
  }

  -- `createReconcileWorker(…)`: a failure is only logged.
  unfoldable pub create_reconcile_worker :
      NangoClient → ℕ → Worker ReconcileJobData ReconcileOutcome
  create_reconcile_worker nango fuel = record {
    queue_name = reconcile_queue_setup.name;
    concurrency = 5;
    processor = reconcile_worker_processor host db nango fuel;
    returns = is_returned;
    backoff_strategy = strategy;
    failed = λ job e. return tt;
  }

-- What `upsertJobScheduler` is called with.
pub record Scheduler : Type 0 where
  pub id : String
  pub every : ℕ
  pub template_name : String
  pub options : JobOptions

-- `scheduleReconcileSweep(reconcileQueue, { every })`.
abbrev pub schedule_reconcile_sweep : ℕ → Scheduler
schedule_reconcile_sweep every = record {
  id = "reconcile-sweep";
  every = every;
  template_name = "sweep";
  options = record reconcile_job_options { remove_on_complete = remove; remove_on_fail = remove };
}
