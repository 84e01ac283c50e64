-- ===== src/Lib.antt =====
-- A model of the event pipeline of shiplog-sync: records of developer tools come in through Nango,
-- are normalized, and are kept in an append-only spine of events, one row for each version of an
-- entity.
--
-- The parts. A webhook, or a sweep on a timer, puts jobs on a queue; a processor polls Nango page by
-- page, lands each record in `raw_records` and puts an ingest job on the ingest queue; the ingest
-- processor normalizes the record and calls `ingestEvent`. What fails is classified: it is retried
-- after a delay, or becomes a dead letter, which can be replayed.
--
-- Where each part is modelled; paths are from the root of the repository.
--   Value, Text     the dynamic values of JavaScript, and texts
--   Host            node:crypto, Date, the checks of zod, mongoose and BullMQ: parameters, whose one law
--                   is that an ObjectId is read back from its text
--   Mongo           the calls of mongoose as an interface with laws; Mongo/Memory fills it,
--                   over Mongo/Updates (one document) and Mongo/Sorting (order)
--   World           the state (collections, queues, clock) and the monad of asynchronous functions
--   Models          src/models, src/queue/types.ts
--   Hash            src/events/hash.ts: `canonicalize`, `idempotencyKey`, `contentHash`
--   Schema          src/events/schema.ts: `NormalizedEventSchema.parse`
--   Normalize       src/normalize/github.ts: `normalizeGithubRecord`
--   Ingest          src/events/ingest.ts: `ingestEvent`, `ingestNangoRecords`
--   Errors          src/queue/errors.ts: `parseRetryAfter`, `classifyError`
--   Backoff         src/queue/backoff.ts: `computeBackoff`
--   Queue/Processor src/queue/ingestProcessor.ts: `ingestProcessor`
--   Queue/DeadLetters  src/queue/deadLetter.ts, and the `failed` handler of src/queue/ingestWorker.ts
--   Queue/Requeue   src/queue/replay.ts: `replayDeadLetter`, `backfillConnection`
--   Queue/Sweep     src/queue/reconcileSweep.ts: `reconcileJobFor`, `makeReconcileSweep`
--   Queue/Options   src/queue/queues.ts: the names of the queues and the options of their jobs
--   Queue/Workers   the workers of src/queue/ingestWorker.ts, nangoSyncWorker.ts, reconcileWorker.ts
--   Queue/Life      a job under such a worker, from its first attempt to its last
--   Ingest/Machine  `ingestEvent` one call at a time, for workers that run side by side
--   Nango/Raw       src/events/raw.ts: `landRawRecord`
--   Nango/Pages, Nango/Sync, Nango/Reconcile  src/nango: the two processors and their loops
--   Nango/Verify    src/nango/verify.ts: `verifyNangoSignature`
--   Api             src/middleware/tenantAuth.ts, and of src/app.ts the routes that queue work
--   Api/Lists       src/repository/withTenant.ts; src/app.ts: `GET /events`
--   Api/Listings    src/app.ts: `GET /connections`, `GET /sync-runs`, `GET /dlq`
--   Api/Webhook     src/app.ts: `POST /webhooks/nango`
--   Api/Connections src/app.ts: `POST /connections`
--   Api/Requests    src/app.ts: the routes behind `tenantAuth`, put together; Api/Frames has a small
--                   logic of programs that keep the data of other tenants
--   Api/Bearer      what the dashboard sends and the API reads
--   Nango/Fixtures  src/fixtures/github.ts; src/nango/client.ts: `createNangoClient`
--   Config          src/config/env.ts, src/queue/connection.ts
--   Processes       src/server.ts, src/worker.ts: what the two processes start
--   Dashboard       dashboard/src/api.ts, dashboard/src/tenants.ts, and the mutations of the panels
--   Scripts         scripts: what each script reads and writes, and its exit code
--   Scripts/Injection  scripts/inject-failure.ts; its wait looks once a second, so that 47 looks are
--                   enough fuel for a timeout of 45 seconds
--   Scripts/ReplayDemo  scripts/replay-demo.ts: the worker, the API and the script as one program
--   Examples        the theorems at concrete inputs
--
-- Failing calls. Every call to a database or a queue takes the next fault of a schedule that the world
-- holds: it works, is refused, or takes effect and loses its reply. A theorem about all worlds is
-- about all schedules; one that needs working calls says that the schedule is empty.
-- Within one run no other writes happen, but between the attempts of Queue/Life, where anything may,
-- and in Ingest/Machine, where any number of runs of
-- `ingestEvent` interleave call by call.
--
-- BullMQ decides whether a failed job is tried again; its documented rule is the law of a parameter.
-- A life of five attempts needs fuel five, since new ingest and reconcile jobs have
-- five attempts.
--
-- Bounds. Numbers are natural numbers, times are milliseconds since 1970, and the delay of a backoff
-- is the floor of the exact value where the source computes in floating point. The loops over Nango's
-- pages run on fuel, since the API decides how many pages there are.
--
-- A worker whose processor is out of fuel has not returned: its job is neither completed nor failed.
--
-- Not modelled: express and its parsers, logging and printing, the trace of an error that the code
-- itself makes, the id that BullMQ gives to a job without one, the shutdown of the processes, the
-- demonstration of reconciling, and the rendering of the dashboard.
pub mod Prelude
pub mod Text
pub mod Value
pub mod Host
pub mod Errors
pub mod Backoff
pub mod Models
pub mod Mongo
pub mod World
pub mod Hash
pub mod Schema
pub mod Normalize
pub mod Ingest
pub mod Queue
pub mod Nango
pub mod Config
pub mod Api
pub mod Dashboard
pub mod Scripts
pub mod Processes
pub mod Examples
