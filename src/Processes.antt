-- ===== src/Processes.antt =====
-- src/server.ts and src/worker.ts: the two processes of the program, from their configuration to what
-- they serve and run. A process that cannot start exits with code 1. What is logged and the handlers
-- of signals are left out.
pub mod Laws
use shiplog_prototype.Prelude.{ℕ, String, true, Option, none, some}
use shiplog_prototype.Value.{Value, Fields, undefined}
use shiplog_prototype.Host.{Host}
use shiplog_prototype.Models.{IngestJobData, NangoSyncJobData, ReconcileJobData}
use shiplog_prototype.Backoff.{Fraction}
use shiplog_prototype.World.{World, Database, M, ◌>>=◌, ◌>>◌, return, catch, execute, both}
use shiplog_prototype.Ingest.{IngestResult}
use shiplog_prototype.Nango.Pages.{NangoClient, Counters}
use shiplog_prototype.Queue.Workers.{
  Worker, ReconcileOutcome, Scheduler, create_ingest_worker, create_nango_sync_worker,
  create_reconcile_worker, schedule_reconcile_sweep,
}
use shiplog_prototype.Api.{Reply}
use shiplog_prototype.Api.Webhook.{Receipt, webhook_route}
use shiplog_prototype.Api.Requests.{BuildAppOptions, Content, Endpoint, serve}
use shiplog_prototype.Config.{Platform, Config, RedisOptions, client_of, redis_connection_options}
use shiplog_prototype.Scripts.{connect_db}

-- A process runs as this, or has exited with this code.
pub data Start (A : Type 0) : Type 0 where
  running : A → Start A
  exited : ℕ → Start A

-- `main().catch((err) => { …; process.exit(1) })`.
abbrev pub starting : {A : Type 0} → M A → M (Start A)
starting m = catch (m >>= λ a. return (running a)) (λ e. return (exited 1))

-- What listens on a port. Its queues are at the connection.
pub record Application : Type 0 where
  pub connection : RedisOptions
  pub port : ℕ
  -- The routes behind `tenantAuth`, of the two headers with a key.
  pub requests : Option String → Option String → Endpoint → M (Reply Content)
  -- `POST /webhooks/nango`, of the body and the headers.
  pub webhook : String → Fields → M (Reply Receipt)

-- The three workers, and the schedule of the sweep. The queues are at the connection.
pub record Workers : Type 0 where
  pub connection : RedisOptions
  pub ingest : Worker IngestJobData IngestResult
  pub nango_sync : Worker NangoSyncJobData (Option Counters)
  pub reconcile : Worker ReconcileJobData ReconcileOutcome
  pub sweep : Scheduler

module _ (host : Host) (db : Database) (platform : Platform) (c : Config) where
  -- `buildApp({ ingestQueue, nangoSyncQueue, reconcileQueue })`, where the signing key is that of the
  -- configuration.
  abbrev pub application : RedisOptions → Application
  application connection = record {
    connection = connection;
    port = c.port;
    requests = serve host db (record { ingest = true; reconcile = true });
    webhook = webhook_route host db c.nango_webhook_secret true;
  }

  -- `main` of the API.
  unfoldable pub server_main : M (Start Application)
  server_main = starting (do
    _ ← connect_db
    connection ← redis_connection_options platform c
    return (application connection))

  module _ (sdk : String → String → NangoClient) (random : ℕ → Fraction) (fuel : ℕ) where
    abbrev pub workers : RedisOptions → Workers
    workers connection = record {
      connection = connection;
      ingest = create_ingest_worker host db c.backoff_base_ms random true (λ t. undefined);
      nango_sync = create_nango_sync_worker host db c.backoff_base_ms random (client_of c sdk) fuel;
      reconcile = create_reconcile_worker host db c.backoff_base_ms random (client_of c sdk) fuel;
      sweep = schedule_reconcile_sweep c.reconcile_every_ms;
    }

    -- `waitUntilReady()` of a worker, and the call that stores the sweep's schedule.
    abbrev pub wait_until_ready : M (Unit {0})
    wait_until_ready = execute (λ w. w)

    abbrev pub store_schedule : M (Unit {0})
    store_schedule = execute (λ w. w)

    -- `main` of the worker.
    unfoldable pub worker_main : M (Start Workers)
    worker_main = starting (do
      _ ← connect_db
      connection ← redis_connection_options platform c
      _ ← both wait_until_ready (both wait_until_ready wait_until_ready)
      _ ← store_schedule
      return (workers connection))
