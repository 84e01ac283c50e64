-- ===== src/Scripts/ReplayDemo.antt =====
-- scripts/replay-demo.ts: an outage, the dead letter, its replay and a backfill, driven through the
-- API. Wherever the script waits, the worker handles all that is queued, and what the script waits
-- for has come by then or never comes. What is printed is left out.
pub mod Work
pub mod Steps
pub mod Answers
pub mod Passes
pub mod Exits
use shiplog_prototype.Prelude.{
  ℕ, String, Bool, true, false, not, ◌&&◌, Option, none, some, List, [], ◌∷◌, ◌==◌, nat_eq,
  if◌then◌else◌,
}
use shiplog_prototype.Value.{Value, undefined, null, str}
use shiplog_prototype.Host.{Host}
use shiplog_prototype.Errors.{Thrown, plain_error}
use shiplog_prototype.Models.{Event, DeadLetter, RawRecord, SyncRun, IngestJobData, reconcile}
use shiplog_prototype.Backoff.{Fraction}
use shiplog_prototype.World.{
  World, Database, M, Run, done, fail, final, ◌>>=◌, return, throw, catch, query, execute, attempt,
  both,
}
use shiplog_prototype.Ingest.{IngestResult}
use shiplog_prototype.Nango.Raw.{land_raw_record}
use shiplog_prototype.Nango.Fixtures.{github_fixtures}
use shiplog_prototype.Queue.Requeue.{enqueue}
use shiplog_prototype.Queue.Workers.{ingest_job, create_ingest_worker}
use shiplog_prototype.Queue.Life.{
  Bull, Life, completed, gave_up, retried, unfinished, run_job, drain,
}
use shiplog_prototype.Queue.Life.Outage.{idle}
use shiplog_prototype.Api.{Reply, refuse, answer}
use shiplog_prototype.Api.Requests.{Content, Endpoint, post_replay, post_backfill, serve}
use shiplog_prototype.Dashboard.{authorization_of}
use shiplog_prototype.Scripts.{connect_db, disconnect_db, exit_with}
use shiplog_prototype.Scripts.Setup.{save_tenant, save_connection, is_github_of, github_connection}
use shiplog_prototype.Scripts.Injection.{find_commit}

abbrev pub demo_key : String
demo_key = "demo-api-key"

-- `record`, the commit of the fixtures.
abbrev pub demo_record : Value
demo_record = find_commit github_fixtures

-- `waitFor timed out`, and what reading a field of `null` throws.
abbrev timed_out : Thrown
timed_out = plain_error "Error" "waitFor timed out"

abbrev no_fields : Thrown
no_fields = plain_error "TypeError" "Cannot read properties of null"

-- A value that is there, or else this error.
abbrev pub required : {A : Type 0} → Thrown → Option A → M A
required e none = throw e
required e (some a) = return a

-- `waitFor(() => completed.has(job.id))`, of the job that came last.
unfoldable pub await_completed : List (Life IngestResult) → M (Unit {0})
await_completed [] = throw timed_out
await_completed (completed r w ∷ []) = return tt
await_completed (l ∷ ls) = await_completed ls

-- The same for the job that an answer names.
unfoldable pub await_replayed : Reply Content → List (Life IngestResult) → M (Unit {0})
unfolding await_completed
await_replayed (answer status r) ls = await_completed ls
await_replayed (refuse status message) ls = throw timed_out

-- The filters.
abbrev pub event_of_tenant : String → Event → Bool
event_of_tenant tenant_id e = e.tenant_id == tenant_id

abbrev five_times : Option ℕ → Bool
five_times none = false
five_times (some n) = nat_eq n 5

abbrev pub letter_of_tenant : String → DeadLetter → Bool
letter_of_tenant tenant_id d = d.tenant_id == tenant_id && five_times d.attempts_made

-- `payload`.
abbrev pub demo_payload : String → String → IngestJobData
demo_payload tenant_id connection_id = record {
  tenant_id = tenant_id;
  connection_id = some connection_id;
  sync_run_id = none;
  record_data = demo_record;
  poison = undefined;
  demo_fault = none;
}

module _ (host : Host) (db : Database) (bull : Bull) (random : ℕ → Fraction) where
  -- The worker of the demonstration, in a fail mode.
  abbrev pub life_in : Value → IngestJobData → World → Life IngestResult
  life_in fail_mode d w =
      run_job bull (create_ingest_worker host db 500 random true (λ _. fail_mode)) idle
        (ingest_job d) 5 0 w

  -- It handles all that waits.
  unfoldable pub work : Value → M (List (Life IngestResult))
  work fail_mode w =
      let (ls, v) = drain (life_in fail_mode) w.ingest_queue (record w { ingest_queue = [] }) in
      done ls v

  -- `countEvents()` and `Event.findOne({ tenantId })`.
  abbrev pub count_of : String → World → ℕ
  count_of tenant_id w = db.events.count (event_of_tenant tenant_id) w.events

  abbrev pub event_in : String → World → Option Event
  event_in tenant_id w = db.events.find_one (event_of_tenant tenant_id) w.events

  abbrev pub letter_in : String → World → Option DeadLetter
  letter_in tenant_id w = db.dead_letters.find_one (letter_of_tenant tenant_id) w.dead_letters

  -- A request with the demonstration's key, to an application that has the ingest queue only.
  abbrev pub request_of : Endpoint → M (Reply Content)
  request_of e =
      serve host db (record { ingest = true; reconcile = false }) (some (authorization_of demo_key))
        none e

  module _ (tenant_id connection_id : String) where
    -- Step 1: the record goes through the healthy worker.
    unfoldable pub first_step : M Event
    first_step = do
      _ ← enqueue (demo_payload tenant_id connection_id)
      ls ← work null
      _ ← await_completed ls
      e ← query (event_in tenant_id)
      baseline ← required no_fields e
      _ ← query (count_of tenant_id)
      return baseline

    -- Step 2: the same record while the outage lasts.
    unfoldable pub outage_step : M DeadLetter
    outage_step = do
      _ ← enqueue (demo_payload tenant_id connection_id)
      _ ← work (str "transient")
      d ← query (letter_in tenant_id)
      letter ← required timed_out d
      _ ← query (count_of tenant_id)
      return letter

    -- Step 4: the replay, after the outage.
    unfoldable pub replay_step : DeadLetter → M Event
    replay_step d = do
      reply ← request_of (post_replay (host.object_id d.id))
      ls ← work null
      _ ← await_replayed reply ls
      e ← query (event_in tenant_id)
      after ← required no_fields e
      _ ← query (count_of tenant_id)
      return after

    -- Step 5: the backfill.
    unfoldable pub backfill_step : M (Unit {0})
    backfill_step = do
      _ ← request_of (post_backfill connection_id)
      _ ← work null
      _ ← query (count_of tenant_id)
      return tt

    abbrev pub verdict : Event → Event → ℕ → Bool
    verdict baseline after count =
        nat_eq after.id baseline.id
        && (after.idempotency_key == baseline.idempotency_key && nat_eq count 1)

    -- The steps, and whether the event stayed the only one.
    unfoldable pub demonstrate : M Bool
    demonstrate = do
      _ ← land_raw_record host db tenant_id connection_id reconcile demo_record
      baseline ← first_step
      d ← outage_step
      after ← replay_step d
      _ ← backfill_step
      count ← query (count_of tenant_id)
      return (verdict baseline after count)

  -- `deleteMany({ tenantId })` on four collections, all at once.
  abbrev pub clear_events : String → World → World
  clear_events tenant_id w = record w {
    events = (db.events.delete_many (λ e. e.tenant_id == tenant_id) w.events).0;
  }

  abbrev pub clear_letters : String → World → World
  clear_letters tenant_id w = record w {
    dead_letters = (db.dead_letters.delete_many (λ d. d.tenant_id == tenant_id) w.dead_letters).0;
  }

  abbrev pub clear_records : String → World → World
  clear_records tenant_id w = record w {
    raw_records = (db.raw_records.delete_many (λ r. r.tenant_id == tenant_id) w.raw_records).0;
  }

  abbrev pub clear_runs : String → World → World
  clear_runs tenant_id w = record w {
    sync_runs = (db.sync_runs.delete_many (λ r. r.tenant_id == tenant_id) w.sync_runs).0;
  }

  abbrev pub reset : String → M (Unit {0})
  reset tenant_id = both (execute (clear_events tenant_id)) (
      both (execute (clear_letters tenant_id))
        (both (execute (clear_records tenant_id)) (execute (clear_runs tenant_id))))

  -- `ingestQueue.obliterate({ force: true })`.
  abbrev pub obliterate : World → World
  obliterate w = record w { ingest_queue = [] }

  -- `main()`, and its handler.
  unfoldable pub replay_demo : M ℕ
  replay_demo =
      catch
        (do
          _ ← connect_db
          t ← attempt (save_tenant host db "Demo (Acme Storefront)" demo_key)
          let tenant_id = host.object_id t.id
          c ← attempt (
              save_connection host db (is_github_of tenant_id) (λ c. c)
                (λ id now. github_connection id now tenant_id (some "demo-conn") (some "github")))
          _ ← reset tenant_id
          _ ← execute obliterate
          passed ← demonstrate tenant_id (host.object_id c.id)
          exit_with (if passed then 0 else 1))
        (λ _. catch disconnect_db (λ _. return tt) >>= λ _. return 1)
