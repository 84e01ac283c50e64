-- ===== src/Nango/Reconcile.antt =====
-- src/nango/reconcileProcessor.ts: the poll of one connection and model from its durable cursor. The
-- loop over pages runs on fuel; it returns `none` where the fuel is used up.
use shiplog_prototype.Prelude.{
  ℕ, zero, suc, String, Bool, ◌&&◌, Option, none, some, List, [], ◌∷◌, ◌==◌, if◌then◌else◌,
}
use shiplog_prototype.Value.{Value, str, or_undefined, undefined, null, get, js_string}
use shiplog_prototype.Host.{Host}
use shiplog_prototype.Errors.{option_or}
use shiplog_prototype.Models.{ReconcileJobData, SyncState, incremental, reconcile}
use shiplog_prototype.World.{World, Database, M, ◌>>=◌, return, query, execute}
use shiplog_prototype.Nango.Pages.{NangoClient, ListParams, Page, Counters, handle_records}
use shiplog_prototype.Nango.Sync.{usable}

-- `ReconcileResult`.
pub record ReconcileResult : Type 0 where
  pub counters : Counters
  pub cursor : Option String

-- The filter `{ tenantId, connectionId, model }`.
abbrev pub is_state : ReconcileJobData → SyncState → Bool
is_state d s =
    s.tenant_id == d.tenant_id && (s.connection_id == d.connection_id && s.model == d.model)

abbrev pub cursor_of_state : Option SyncState → Option String
cursor_of_state none = none
cursor_of_state (some s) = s.cursor

-- The cursor of a record, which its interface makes a text where there is one; mongoose would cast
-- any other value to a text.
pub cursor_text : (Option ℕ → String) → Value → Option String
cursor_text date_text undefined = none
cursor_text date_text null = none
cursor_text date_text v = some (js_string date_text v)

module _ (host : Host) where
  unfoldable pub last_cursor : List Value → Option String
  last_cursor [] = none
  last_cursor (r ∷ []) = cursor_text host.date_text (get "cursor" (get "_nango_metadata" r))
  last_cursor (r ∷ rs) = last_cursor rs

  -- `records.at(-1)._nango_metadata?.cursor ?? page?.next_cursor ?? cursor`.
  abbrev pub checkpoint : Page → Option String → Option String
  checkpoint page cursor = option_or (last_cursor page.records) (option_or page.next_cursor cursor)

-- Whether there is a next page: `!(!next || next === pageCursor)`.
unfoldable pub next_page : Option String → Option String → Option String
next_page none page_cursor = none
next_page (some next) none = usable (some next)
next_page (some next) (some c) = if next == c then none else usable (some next)

module _ (host : Host) (db : Database) (nango : NangoClient) (d : ReconcileJobData) where
  abbrev pub find_state : World → Option SyncState
  find_state w = db.sync_states.find_one (is_state d) w.sync_states

  abbrev pub reconcile_params : Option String → ListParams
  reconcile_params cursor = record {
    provider_config_key = or_undefined d.provider_config_key;
    connection_id = or_undefined d.nango_connection_id;
    model = str d.model;
    cursor = cursor;
    modified_after = undefined;
  }

  -- `SyncState.updateOne(…, { upsert: true })`.
  unfoldable pub save_cursor : Option String → World → World
  save_cursor cursor w =
      let (rows, _) =
        db.sync_states.upsert (is_state d)
          (λ s. record s { cursor = cursor; last_sync_at = w.now; mode = incremental })
          (record {
            id = w.next_id;
            connection_id = d.connection_id;
            tenant_id = d.tenant_id;
            model = d.model;
            cursor = cursor;
            last_sync_at = w.now;
            mode = incremental;
          })
          w.sync_states in
      record w { sync_states = rows; next_id = suc w.next_id }

  -- A page's records are landed and fanned out, and then the cursor is moved.
  unfoldable pub reconcile_page : Page → Option String → Counters → M Counters
  reconcile_page page cursor c = do
    c' ← handle_records host db d.tenant_id d.connection_id (str d.model) reconcile page.records c
    _ ← execute (save_cursor (checkpoint host page cursor))
    return c'

  -- The body of the loop, by the records of the page; `go` is the next round.
  unfoldable pub reconcile_step :
      Page
      → List Value
      → Option String
      → Option String
      → Counters
      → (Option String → Option String → Counters → M (Option ReconcileResult))
      → M (Option ReconcileResult)
  reconcile_step page [] cursor page_cursor c go =
      return (some (record { counters = c; cursor = cursor }))
  reconcile_step page (r ∷ rs) cursor page_cursor c go = reconcile_page page cursor c >>= λ c'.
      elim (next_page page.next_cursor page_cursor) [
        | none ↦ return (some (record { counters = c'; cursor = checkpoint host page cursor }))
        | some next ↦ go (checkpoint host page cursor) (some next) c'
      ]

  -- `for (;;) { … }`, with `cursor` and `pageCursor`.
  unfoldable pub reconcile_pages :
      ℕ → Option String → Option String → Counters → M (Option ReconcileResult)
  reconcile_pages zero cursor page_cursor c = return none
  reconcile_pages (suc n) cursor page_cursor c =
      query (nango.list_records (reconcile_params page_cursor)) >>= λ page.
      reconcile_step page page.records cursor page_cursor c (reconcile_pages n)

  -- `reconcileProcessor(job)`.
  unfoldable pub reconcile_processor : ℕ → M (Option ReconcileResult)
  reconcile_processor fuel = query find_state >>= λ state.
      reconcile_pages fuel (cursor_of_state state) (cursor_of_state state)
        (record { fetched = 0; enqueued = 0 })
