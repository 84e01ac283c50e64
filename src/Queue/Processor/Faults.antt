-- ===== src/Queue/Processor/Faults.antt =====
-- The self-healing fault of a demonstration job (src/queue/ingestProcessor.ts).
use shiplog_prototype.Prelude.{String, true, false, none, some, [], ◌≡◌, refl, any, ◌==◌}
use shiplog_prototype.Value.{Value}
use shiplog_prototype.Host.{Host}
use shiplog_prototype.Errors.{transient_error, classify_error}
use shiplog_prototype.Models.{IngestJobData, JobView}
use shiplog_prototype.World.{World, Database, fail, after_fault, ◌>>=◌, catch}
use shiplog_prototype.World.Laws.{query_fine}
use shiplog_prototype.Queue.Processor.{
  has_fault, find_fault, check_fault, demo_outage, process_record, process, apply_policy, policy,
  with_delay, ingest_processor,
}

-- A job with a fault and without a failing call: as long as no dead letter of the tenant holds the
-- fault, the job fails with the injected outage, open to a retry, and writes nothing; once one does,
-- the job runs as the same job without the fault.
pub ingest_processor_heals :
    (host : Host) (db : Database) (job : JobView IngestJobData) (id : String) (mode : Value)
    (w : World)
    → w.faults ≡ []
    → job.job_data.demo_fault ≡ some id
    → (id == "") ≡ false
    → (any (has_fault job.job_data.tenant_id id) w.dead_letters ≡ false
        → ingest_processor host db job mode w
          ≡ fail
              (transient_error "injected transient outage (demo) — recovers after dead-lettering"
                (some 503))
              (after_fault w))
      × (any (has_fault job.job_data.tenant_id id) w.dead_letters ≡ true
          → ingest_processor host db job mode w
            ≡ ingest_processor host db
                (record job { job_data = record job.job_data { demo_fault = none } })
                mode
                (after_fault w))
unfolding ingest_processor process demo_outage check_fault apply_policy policy with_delay
    process_record classify_error
ingest_processor_heals host db job id mode w fine is_fault given =
    let d = job.job_data in
    let q = query_fine (find_fault db d.tenant_id id) w fine in
    let x = db.dead_letters.exists_lem (has_fault d.tenant_id id) w.dead_letters in
    (
      λ h. rw (catch, ◌>>=◌, is_fault, given, q, x, h) refl,
      λ h. rw (catch, ◌>>=◌, is_fault, given, q, x, h) refl,
    )
