-- ===== src/Examples/Requests.antt =====
-- Requests, a backfill and a sync run at concrete inputs.
use mathlib.Core.List.{Perm}
use shiplog_prototype.Prelude.{
  String, true, Option, none, some, List, [], ◌∷◌, ◌≡◌, ◌⊎◌, ◌<◌, arith, select, length,
}
use shiplog_prototype.Value.{undefined, str, num, obj, end, field}
use shiplog_prototype.Models.{Tenant, RawRecord, NangoSyncJobData, reconcile}
use shiplog_prototype.Mongo.{IsFound}
use shiplog_prototype.Errors.{Thrown}
use shiplog_prototype.World.{World, fail, final, after_fault}
use shiplog_prototype.Queue.Requeue.{backfill_connection, is_landed}
use shiplog_prototype.Queue.Requeue.Backfill.{Queues, backfill_connection-Queues}
use shiplog_prototype.Nango.Sync.{usable, sync_processor}
use shiplog_prototype.Nango.Delivery.{IsFinite, Delivers, page_at, sync_processor-Delivers}
use shiplog_prototype.Api.{tenant_auth, replay_route}
use shiplog_prototype.Api.Requests.{BuildAppOptions, post_replay, serve}
use shiplog_prototype.Api.Requests.Isolated.{serve-Frames}
use shiplog_prototype.Api.Frames.{Frames}
use shiplog_prototype.Api.Isolation.{has_key, key, Guards, tenant_auth-Guards}
use shiplog_prototype.Examples.Nangos.{two_pages, pages_left}
use shiplog_prototype.Examples.{test_host, test_db, empty_world}

-- A world with one tenant and one landed record of its connection "2".
abbrev full_world : World
full_world = record empty_world {
  tenants = record { id = 1; name = "acme"; api_key = "secret" } ∷ [];
  raw_records =
      record {
        id = 3;
        tenant_id = "1";
        connection_id = some "2";
        source = "github";
        external_id = "issue:7";
        nango_record_id = "9";
        payload = obj (field "id" (num 9) end);
        received_at = 5;
        via = reconcile;
      }
      ∷ [];
}

backfill_connection-Queues_example :
    ((e : Thrown) × (backfill_connection test_db "2" "1" full_world
        ≡ fail e (after_fault full_world)))
    ⊎ ((rs : List RawRecord) × Perm rs (select (is_landed "1" "2") full_world.raw_records)
        × Queues test_db "1" "2"
            (length rs)
            rs
            full_world
            (backfill_connection test_db "2" "1" full_world))
backfill_connection-Queues_example = backfill_connection-Queues test_db "1" "2" full_world

abbrev bearer_header : Option String
bearer_header = some "Bearer secret"

tenant_auth-Guards_example :
    Guards test_host test_db bearer_header none
      (replay_route test_host test_db true "7")
      full_world
      (tenant_auth test_host test_db bearer_header none
        (replay_route test_host test_db true "7")
        full_world)
tenant_auth-Guards_example =
    tenant_auth-Guards test_host test_db bearer_header none
      (replay_route test_host test_db true "7") full_world

abbrev sync_job : NangoSyncJobData
sync_job = record {
  tenant_id = "1";
  connection_id = "2";
  nango_connection_id = str "n";
  provider_config_key = str "github";
  model = str "Issue";
  modified_after = undefined;
}

page_falls :
    (cursor : Option String) (next : String) (w : World)
    → usable (page_at test_host test_db two_pages sync_job cursor w).next_cursor ≡ some next
    → pages_left (some next) < pages_left cursor
page_falls none next w h = omega arith
page_falls (some c) next w h = cc

sync_job-IsFinite : IsFinite test_host test_db two_pages sync_job pages_left
sync_job-IsFinite = record { falls = page_falls }

sync_processor-Delivers_example :
    Delivers test_host test_db two_pages sync_job none
      (record { fetched = 0; enqueued = 0 })
      full_world
      (sync_processor test_host test_db two_pages sync_job 2 full_world)
sync_processor-Delivers_example =
    sync_processor-Delivers test_host test_db two_pages sync_job pages_left 2 sync_job-IsFinite
      (omega arith) full_world

-- The id of that tenant.
abbrev acme_id : String
acme_id = "1"

-- A replay through the whole application.
abbrev both_queues : BuildAppOptions
both_queues = record { ingest = true; reconcile = true }

serve-Frames_example :
    let w' =
      final (serve test_host test_db both_queues bearer_header none (post_replay "7") full_world) in
    (w' ≡ record full_world { faults = w'.faults })
    ⊎ ((k : String) × (t : Tenant) × (key test_host test_db bearer_header none ≡ some k)
        × IsFound (has_key k) t full_world.tenants
        × Frames test_host (test_host.object_id t.id) full_world full_world w')
serve-Frames_example =
    serve-Frames test_host test_db both_queues bearer_header none (post_replay "7") full_world
