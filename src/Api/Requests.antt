-- ===== src/Api/Requests.antt =====
-- src/app.ts: the routes behind `tenantAuth`, put together. Which route a request's method and path
-- name, and its parameters, are express's to find.
pub mod Routes
pub mod Served
pub mod Isolated
use shiplog_prototype.Prelude.{ℕ, String, Bool, Option, none, some, List}
use shiplog_prototype.Value.{Value}
use shiplog_prototype.Host.{Host}
use shiplog_prototype.Models.{Connection, SyncRun, DeadLetter, Event}
use shiplog_prototype.Queue.Requeue.{Replayed}
use shiplog_prototype.World.{Database, M, ◌>>=◌, return}
use shiplog_prototype.Api.{
  Reply, refuse, answer, tenant_auth, replay_route, backfill_route, reconcile_route,
}
use shiplog_prototype.Api.Connections.{Registered, connections_route}
use shiplog_prototype.Api.Lists.{events_route}
use shiplog_prototype.Api.Listings.{list_connections, list_sync_runs, list_dead_letters}

-- A request to one of the routes, with the id in its path, its query or its body.
pub data Endpoint : Type 0 where
  post_connections : Value → Endpoint
  get_events : Option String → Endpoint
  get_connections get_sync_runs get_dlq : Endpoint
  post_replay : String → Endpoint
  post_reconcile : String → Value → Endpoint
  post_backfill : String → Endpoint

-- What the answers hold.
pub data Content : Type 0 where
  registered : Registered → Content
  events : List Event → Content
  connections : List Connection → Content
  sync_runs : List SyncRun → Content
  dead_letters : List DeadLetter → Content
  replayed : Replayed → Content
  reconciling : List String → Content
  backfilled : ℕ → Content

module _ {A : Type 0} (content : A → Content) where
  abbrev pub with_content : Reply A → Reply Content
  with_content (refuse status message) = refuse status message
  with_content (answer status a) = answer status (content a)

  abbrev pub replying : M (Reply A) → M (Reply Content)
  replying m = m >>= λ r. return (with_content r)

-- Which of the queues that the routes need the application has.
pub record BuildAppOptions : Type 0 where
  pub ingest : Bool
  pub reconcile : Bool

module _ (host : Host) (db : Database) (options : BuildAppOptions) where
  -- The handler of a request, for the tenant that was found.
  unfoldable pub handle_request : Endpoint → String → M (Reply Content)
  handle_request (post_connections body) t = replying registered (connections_route host db t body)
  handle_request (get_events type) t = replying events (events_route db t type)
  handle_request get_connections t = replying connections (list_connections db t)
  handle_request get_sync_runs t = replying sync_runs (list_sync_runs db t)
  handle_request get_dlq t = replying dead_letters (list_dead_letters db t)
  handle_request (post_replay id) t = replying replayed (replay_route host db options.ingest id t)
  handle_request (post_reconcile id model) t =
      replying reconciling (reconcile_route host db options.reconcile id t model)
  handle_request (post_backfill id) t =
      replying backfilled (backfill_route host db options.ingest id t)

  -- The whole of a request, with its two headers.
  unfoldable pub serve : Option String → Option String → Endpoint → M (Reply Content)
  serve authorization api_key e = tenant_auth host db authorization api_key (handle_request e)
