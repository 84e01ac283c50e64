-- ===== src/Scripts/ReplayDemo/Work.antt =====
-- What the worker of the demonstration makes of its one job, where no call fails.
use shiplog_prototype.Prelude.{
  ℕ, String, true, false, some, [], ◌∷◌, ◌≡◌, ◌≢◌, refl, ◌∙◌, any, eq_iff, ◌==◌,
}
use shiplog_prototype.Value.{Value, undefined, null, str, get}
use shiplog_prototype.Host.{Host}
use shiplog_prototype.Backoff.{Fraction}
use shiplog_prototype.Schema.{NormalizedEvent, parse_event}
use shiplog_prototype.Normalize.{normalize_github}
use shiplog_prototype.World.{ok, World, Database, done, after_fault}
use shiplog_prototype.Ingest.{
  IngestResult, result, added, unchanged, has_version, has_key, event_key, event_hash, ingest_event,
}
use shiplog_prototype.Ingest.Replay.{Accepted, Accepted-run, ingest_parsed-known}
use shiplog_prototype.Ingest.Fresh.{with_row, ingest_parsed_first}
use shiplog_prototype.Queue.Processor.Plain.{
  failure, ingest_processor_plain, ingest_processor_outage, process_record_ok,
}
use shiplog_prototype.Queue.Workers.{ingest_job, create_ingest_worker}
use shiplog_prototype.Queue.Life.{Bull, completed, run_job, after_attempt, drain, last_world}
use shiplog_prototype.Queue.Life.Outage.{Suffers, life_of-Suffers}
use shiplog_prototype.Scripts.Injection.{find_commit}
use shiplog_prototype.Scripts.ReplayDemo.{demo_record, demo_payload, life_in, work}

-- The record of the demonstration is one that the pipeline takes, for this tenant.
pub record IsTaken (host : Host) (t : String) : Type 0 where
  pub named : (t == "") ≡ false
  pub normalized : Value
  pub event : NormalizedEvent
  pub hash : String
  pub normal : normalize_github host demo_record ≡ ok normalized
  pub parsed : parse_event host normalized ≡ some event
  pub hashed : event_hash host event ≡ some hash

-- Its idempotency key.
abbrev pub key_of : (host : Host) (t : String) → IsTaken host t → String
key_of host t taken = event_key host t taken.event

record_unmarked : get "__poison" demo_record ≡ undefined
unfolding get find_commit
record_unmarked = refl

pub failure_name : failure.name ≢ "UnrecoverableError"
failure_name e = let h = (eq_iff "TransientError" "UnrecoverableError").1 e in cc

module _ (host : Host) (db : Database) (bull : Bull) (random : ℕ → Fraction) (t c : String)
    (taken : IsTaken host t) where
  abbrev key : String
  key = key_of host t taken

  ingest_event_taken :
      (w : World) (r : IngestResult) (w' : World)
      → ingest_event host db (some t) taken.normalized w ≡ done r w'
      → life_in host db bull random null (demo_payload t c) w ≡ completed r w'
  unfolding run_job create_ingest_worker after_attempt
  ingest_event_taken w r w' ran =
      rw
        (ingest_processor_plain host db (ingest_job (demo_payload t c) 0) refl w r w' refl
          record_unmarked
          (process_record_ok host db (demo_payload t c) taken.normalized w taken.normal ∙ ran))
        refl

  accepted : Accepted host db (some t) taken.normalized
  accepted = record {
    tenant_id = t;
    event = taken.event;
    hash = taken.hash;
    is_tenant = refl;
    not_empty = taken.named;
    parsed = taken.parsed;
    hashed = taken.hashed;
  }

  pub life_first :
      (w : World)
      → w.faults ≡ []
      → any (λ e. e.tenant_id == t) w.events ≡ false
      → any (has_key key) w.events ≡ false
      → life_in host db bull random null (demo_payload t c) w
        ≡ completed (result added key) (with_row db t taken.event key taken.hash w)
  unfolding accepted
  life_first w fine none_of new = ingest_event_taken w _ _ (
      Accepted-run host db (some t) taken.normalized accepted w
      ∙ ingest_parsed_first db t taken.event key taken.hash w fine none_of new)

  pub life_again :
      (w : World)
      → w.faults ≡ []
      → any (has_version t key) w.events ≡ true
      → life_in host db bull random null (demo_payload t c) w
        ≡ completed (result unchanged key) (after_fault w)
  unfolding accepted
  life_again w fine known = ingest_event_taken w _ _ (
      Accepted-run host db (some t) taken.normalized accepted w
      ∙ ingest_parsed-known db t taken.event key taken.hash w fine known)

  -- In the outage the job becomes a dead letter.
  pub life_outage :
      (w : World)
      → w.faults ≡ []
      → Suffers host db bull 500 random true
          (λ _. str "transient")
          (demo_payload t c)
          failure
          failure_name
          0
          w
          (life_in host db bull random (str "transient") (demo_payload t c) w)
  life_outage w fine =
      life_of-Suffers host db bull 500 random true (λ _. str "transient") (demo_payload t c) failure
        failure_name (λ _. Unit) (λ fs. fs) refl
        (λ n v f _. ingest_processor_outage host db (ingest_job (demo_payload t c) n) refl v) w fine
        tt

  -- The worker handles the one job that waits.
  pub work_one :
      (mode : Value) (w : World)
      → w.ingest_queue ≡ demo_payload t c ∷ []
      → let l =
          life_in host db bull random mode (demo_payload t c) (record w { ingest_queue = [] }) in
        work host db bull random mode w ≡ done (l ∷ []) (last_world l)
  unfolding work drain
  work_one mode w waiting = rw waiting refl
