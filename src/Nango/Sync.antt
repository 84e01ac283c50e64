-- ===== src/Nango/Sync.antt =====
-- src/nango/syncProcessor.ts: the processor of the nango-sync queue. The loop over pages runs on
-- fuel; it returns `none` where the fuel is used up.
use shiplog_prototype.Prelude.{ℕ, zero, suc, String, Option, none, some, ◌==◌, if◌then◌else◌}
use shiplog_prototype.Host.{Host}
use shiplog_prototype.Models.{NangoSyncJobData, reconcile}
use shiplog_prototype.World.{Database, M, ◌>>=◌, return, query}
use shiplog_prototype.Nango.Pages.{NangoClient, ListParams, Page, Counters, handle_records}

-- A cursor that counts as true.
abbrev pub usable : Option String → Option String
usable none = none
usable (some c) = if c == "" then none else some c

module _ (host : Host) (db : Database) (nango : NangoClient) (d : NangoSyncJobData) where
  abbrev pub sync_params : Option String → ListParams
  sync_params cursor = record {
    provider_config_key = d.provider_config_key;
    connection_id = d.nango_connection_id;
    model = d.model;
    cursor = cursor;
    modified_after = d.modified_after;
  }

  -- A record that this processor lands gets the default of `landRawRecord`, `via: 'reconcile'`.
  unfoldable pub sync_page : Page → Counters → M Counters
  sync_page page c =
      handle_records host db d.tenant_id d.connection_id d.model reconcile page.records c

  -- `do { … } while (cursor)`.
  unfoldable pub sync_pages : ℕ → Option String → Counters → M (Option Counters)
  sync_pages zero cursor c = return none
  sync_pages (suc n) cursor c = query (nango.list_records (sync_params cursor)) >>= λ page.
      sync_page page c >>= λ c'. elim (usable page.next_cursor) [
        | none ↦ return (some c')
        | some next ↦ sync_pages n (some next) c'
      ]

  -- `nangoSyncProcessor(job)`.
  unfoldable pub sync_processor : ℕ → M (Option Counters)
  sync_processor fuel = sync_pages fuel none (record { fetched = 0; enqueued = 0 })
