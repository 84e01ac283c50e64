-- ===== src/Queue/Options.antt =====
-- src/queue/queues.ts: the queues and the options that a new job of each gets. The queues themselves,
-- and what the options make of a job, are BullMQ's.
use shiplog_prototype.Prelude.{ℕ, String, Bool, true, false, Option, none, some}

-- `removeOnComplete` and `removeOnFail`: how many finished jobs are kept, or that none is.
pub data Removal : Type 0 where
  keep : ℕ → Removal
  remove : Removal

-- `custom_backoff` stands for `backoff: { type: 'custom' }`, without which no strategy is asked.
pub record JobOptions : Type 0 where
  pub attempts : Option ℕ
  pub custom_backoff : Bool
  pub remove_on_complete : Removal
  pub remove_on_fail : Removal

-- `new Queue(name, { defaultJobOptions })`.
pub record QueueSetup : Type 0 where
  pub name : String
  pub default_job_options : JobOptions

-- `ingestJobOptions`.
abbrev pub ingest_job_options : JobOptions
ingest_job_options = record {
  attempts = some 5;
  custom_backoff = true;
  remove_on_complete = keep 1000;
  remove_on_fail = keep 5000;
}

-- `reconcileJobOptions`.
abbrev pub reconcile_job_options : JobOptions
reconcile_job_options = record {
  attempts = some 5;
  custom_backoff = true;
  remove_on_complete = remove;
  remove_on_fail = remove;
}

-- The options of what is parked on the dlq queue, where no worker runs.
abbrev dlq_job_options : JobOptions
dlq_job_options = record {
  attempts = none;
  custom_backoff = false;
  remove_on_complete = keep 1000;
  remove_on_fail = keep 5000;
}

-- `createIngestQueue`, `createDlqQueue`, `createNangoSyncQueue` and `createReconcileQueue`.
abbrev pub ingest_queue_setup : QueueSetup
ingest_queue_setup = record { name = "ingest"; default_job_options = ingest_job_options }

abbrev pub dlq_setup : QueueSetup
dlq_setup = record { name = "dlq"; default_job_options = dlq_job_options }

abbrev pub nango_sync_queue_setup : QueueSetup
nango_sync_queue_setup = record { name = "nango-sync"; default_job_options = ingest_job_options }

abbrev pub reconcile_queue_setup : QueueSetup
reconcile_queue_setup = record {
  name = "nango-reconcile";
  default_job_options = reconcile_job_options;
}
