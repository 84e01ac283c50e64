-- ===== src/Examples/Calling.antt =====
-- A webhook, a registration, the lists, and runs side by side at concrete inputs.
use shiplog_prototype.Prelude.{true, some, List, [], ◌∷◌, ◌++◌, refl, ◌≤◌, ◌+◌}
use shiplog_prototype.Value.{Value, str, null, obj, end, field, Fields}
use shiplog_prototype.Host.{Host}
use shiplog_prototype.World.{World, final}
use shiplog_prototype.Ingest.Machine.{
  Task, checking, Worker, System, move, Reach, here, next, advance,
}
use shiplog_prototype.Ingest.Machine.Races.{winners, rows, Raced, Reach-Raced}
use shiplog_prototype.Api.Webhook.{webhook_route}
use shiplog_prototype.Api.Webhook.Notified.{Receives, webhook_route-Receives}
use shiplog_prototype.Api.Connections.{connections_route}
use shiplog_prototype.Api.Connections.Isolated.{KeepsOthers, Registers, connections_route-Registers}
use shiplog_prototype.Api.Listings.{
  Lists, list_connections, list_sync_runs, list_dead_letters, connection_of, run_of, letter_of,
  listings-Lists,
}
use shiplog_prototype.Mongo.{ascending, descending}
use shiplog_prototype.Examples.{test_host, test_db, empty_world, issue_event, issue_key}

abbrev signature : Fields
signature = field "x-nango-hmac-sha256" (str "a1") end

-- A host whose parser reads a notification, and a world with its connection.
abbrev sync_host : Host
sync_host = record test_host {
  parse_json = λ s. some (
      obj (field "type" (str "sync") (field "connectionId" (str "c1") (field "success" null end))));
}

abbrev connected_world : World
connected_world = record empty_world {
  connections =
      record {
        id = 2;
        tenant_id = "1";
        provider = some "github";
        nango_connection_id = some "c1";
        nango_integration_id = some "github";
        status = "active";
        models = "Commit" ∷ [];
        created_at = 5;
      }
      ∷ [];
}

webhook_route-Receives_example :
    Receives sync_host test_db true "{}" signature "key" connected_world
      (webhook_route sync_host test_db "key" true "{}" signature connected_world)
webhook_route-Receives_example =
    webhook_route-Receives sync_host test_db true "{}" signature "key" connected_world

abbrev registration : Value
registration = obj (field "nangoConnectionId" (str "c1") end)

connections_route-Registers_example :
    let r = connections_route test_host test_db "1" registration connected_world in
    KeepsOthers test_host test_db "1" connected_world (final r)
    × Registers test_host test_db "1" registration connected_world r
connections_route-Registers_example =
    connections_route-Registers test_host test_db "1" registration connected_world

listings-Lists_example :
    Lists test_db.connections
      (λ v. v.connections)
      ascending
      (λ c. c.created_at)
      100
      (connection_of "1")
      connected_world
      (list_connections test_db "1" connected_world)
    × Lists test_db.sync_runs
        (λ v. v.sync_runs)
        descending
        (λ r. r.created_at)
        50
        (run_of "1")
        connected_world
        (list_sync_runs test_db "1" connected_world)
    × Lists test_db.dead_letters
        (λ v. v.dead_letters)
        descending
        (λ d. d.failed_at)
        100
        (letter_of "1")
        connected_world
        (list_dead_letters test_db "1" connected_world)
listings-Lists_example = listings-Lists test_db "1" connected_world

abbrev issue_task : Task
issue_task = record { tenant_id = "t"; event = issue_event; key = issue_key; hash = "h" }

-- Two runs on the same version.
abbrev worker : Worker
worker = record { task = issue_task; phase = checking }

abbrev two_workers : System
two_workers = record { world = empty_world; workers = worker ∷ worker ∷ [] }

-- The system after a worker's next call.
abbrev after_call : List Worker → Worker → List Worker → World → System
after_call front v back w = record {
  world = (advance test_db v.task v.phase w).1;
  workers = front ++ record v { phase = (advance test_db v.task v.phase w).0 } ∷ back;
}

abbrev checked : Worker
checked = record worker { phase = (advance test_db issue_task checking empty_world).0 }

abbrev one_checked : System
one_checked = after_call [] worker (worker ∷ []) empty_world

-- Both have looked for the key, neither has written.
abbrev both_checked : System
both_checked = after_call (checked ∷ []) worker [] one_checked.world

both_checked-Reach : Reach test_db two_workers both_checked
both_checked-Reach =
    next (next here (move [] worker (worker ∷ []) refl refl refl))
      (move (checked ∷ []) worker [] refl refl refl)

Reach-Raced_example :
    Raced issue_key two_workers both_checked
    × (winners issue_key both_checked.workers + rows issue_key two_workers.world.events ≤ 1)
Reach-Raced_example =
    Reach-Raced test_db issue_key two_workers both_checked tt (refl, (refl, tt)) both_checked-Reach
