-- ===== src/Queue/Processor.antt =====
-- src/queue/ingestProcessor.ts: one ingest job, with injected faults and the error policy.
pub mod Policy
pub mod Faults
pub mod Plain
use shiplog_prototype.Prelude.{
  ℕ, String, Bool, true, false, ◌&&◌, Option, none, some, ◌==◌, if◌then◌else◌, List, [], ◌∷◌,
}
use shiplog_prototype.Value.{Value, undefined, str, obj, end, field, get, or_else, is_text}
use shiplog_prototype.Host.{Host}
use shiplog_prototype.Errors.{
  Thrown, ErrorKind, transient, logical, ClassifiedError, plain_error, transient_error,
  logical_error, classify_error,
}
use shiplog_prototype.Models.{IngestJobData, DeadLetter, JobView}
use shiplog_prototype.World.{
  World, Database, M, Run, done, fail, ◌>>=◌, ◌>>◌, return, throw, catch, lift, query,
}
use shiplog_prototype.Normalize.{normalize_github}
use shiplog_prototype.Ingest.{IngestResult, ingest_event}

-- `injected === 'ratelimit'`: a plain error with a status and a header.
abbrev pub rate_limit_error : Thrown
rate_limit_error = record (plain_error "Error" "rate limited") {
  status_code = some 429;
  headers = obj (field "retry-after" (str "2") end);
}

-- `new UnrecoverableError(err.message)`, of BullMQ.
abbrev pub unrecoverable : Thrown → Thrown
unrecoverable e = plain_error "UnrecoverableError" e.message

abbrev pub is_fault : String → Option String → Bool
is_fault id none = false
is_fault id (some k) = k == id

-- The filter `{ tenantId, 'payload.demoFault.id': id }`.
abbrev pub has_fault : String → String → DeadLetter → Bool
has_fault tenant_id id d = d.tenant_id == tenant_id && is_fault id d.payload.demo_fault

-- The classified delay goes onto an error that has none of its own.
unfoldable pub with_delay : Thrown → Option ℕ → Thrown
with_delay e none = e
with_delay e (some ms) = elim e.retry_after_ms [
  | none ↦ record e { retry_after_ms = some ms }
  | some _ ↦ e
]

-- The error policy of the `catch` block.
unfoldable pub policy : Thrown → ClassifiedError → Thrown
policy e c = elim c.kind [ logical ↦ unrecoverable e | transient ↦ with_delay e c.retry_after_ms ]

module _ (db : Database) where
  abbrev pub find_fault : String → String → World → Bool
  find_fault tenant_id id w = db.dead_letters.exists (has_fault tenant_id id) w.dead_letters

  -- The self-healing fault: it fails until the record has been dead-lettered.
  pub check_fault : Bool → M (Unit {0})
  check_fault true = return tt
  check_fault false = throw (
      transient_error "injected transient outage (demo) — recovers after dead-lettering" (some 503))

  pub demo_outage : String → Option String → M (Unit {0})
  demo_outage tenant_id none = return tt
  demo_outage tenant_id (some id) =
      let found = query (find_fault tenant_id id) >>= check_fault in
      if id == "" then return tt else found

-- The fault that a fail mode asks for.
pub inject : Value → M (Unit {0})
inject v =
    if is_text v "transient"
    then throw (transient_error "injected transient failure" (some 503))
    else if is_text v "logical"
    then throw (logical_error "injected logical failure")
    else if is_text v "ratelimit"
    then throw rate_limit_error
    else return tt

-- `failMode ?? poison ?? record?.__poison`.
abbrev pub injected : Value → IngestJobData → Value
injected fail_mode d = or_else fail_mode (or_else d.poison (get "__poison" d.record_data))

module _ (host : Host) (db : Database) where
  -- `normalizeGithubRecord` and `ingestEvent`.
  pub process_record : IngestJobData → M IngestResult
  process_record d = do
    normalized ← lift (normalize_github host d.record_data)
    ingest_event host db (some d.tenant_id) normalized

  -- The body of the `try` block.
  pub process : IngestJobData → Value → M IngestResult
  process d fail_mode = do
    _ ← demo_outage db d.tenant_id d.demo_fault
    _ ← inject (injected fail_mode d)
    process_record d

  pub apply_policy : Thrown → M IngestResult
  apply_policy e w = fail (policy e (classify_error host w.now (some e))) w

  -- `ingestProcessor(job, { failMode })`.
  pub ingest_processor : JobView IngestJobData → Value → M IngestResult
  ingest_processor job fail_mode = catch (process job.job_data fail_mode) apply_policy
