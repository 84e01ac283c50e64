-- ===== src/Queue/Processor/Plain.antt =====
-- Jobs without a fault of their own, in and out of an outage.
use shiplog_prototype.Prelude.{some, none, ◌≡◌, refl}
use shiplog_prototype.Value.{Value, undefined, null, str, get}
use shiplog_prototype.Host.{Host}
use shiplog_prototype.Errors.{Thrown, transient_error, classify_error}
use shiplog_prototype.Models.{IngestJobData, JobView}
use shiplog_prototype.World.{ok, World, Database, done, fail, catch, ◌>>=◌}
use shiplog_prototype.Normalize.{normalize_github}
use shiplog_prototype.Ingest.{IngestResult, ingest_event}
use shiplog_prototype.Queue.Processor.{
  demo_outage, inject, process_record, process, apply_policy, policy, with_delay, ingest_processor,
}

-- What a fail mode injects.
abbrev pub failure : Thrown
failure = transient_error "injected transient failure" (some 503)

module _ (host : Host) (db : Database) (job : JobView IngestJobData)
    (no_fault : job.job_data.demo_fault ≡ none) (w : World) where
  -- Without a fault the record is processed.
  pub ingest_processor_plain :
      (r : IngestResult) (w' : World)
      → job.job_data.poison ≡ undefined
      → get "__poison" job.job_data.record_data ≡ undefined
      → process_record host db job.job_data w ≡ done r w'
      → ingest_processor host db job null w ≡ done r w'
  unfolding ingest_processor process demo_outage inject
  ingest_processor_plain r w' clean unmarked ran =
      rw (catch, ◌>>=◌, no_fault, clean, unmarked, ran) refl

  -- In the mode of an outage the job fails at once, open to a retry.
  pub ingest_processor_outage : ingest_processor host db job (str "transient") w ≡ fail failure w
  unfolding ingest_processor process demo_outage inject apply_policy policy with_delay
      classify_error
  ingest_processor_outage = rw (catch, ◌>>=◌, no_fault) refl

-- A record that the normalizer reads is ingested for the job's tenant.
pub process_record_ok :
    (host : Host) (db : Database) (d : IngestJobData) (normalized : Value) (w : World)
    → normalize_github host d.record_data ≡ ok normalized
    → process_record host db d w ≡ ingest_event host db (some d.tenant_id) normalized w
unfolding process_record
process_record_ok host db d normalized w h = rw (◌>>=◌, h) refl
