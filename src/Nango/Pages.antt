-- ===== src/Nango/Pages.antt =====
-- What the two processors of src/nango share: a client's pages, and the loop over a page's records.
use shiplog_prototype.Prelude.{
  ℕ, ◌+◌, String, Bool, ◌||◌, Option, none, some, List, [], ◌∷◌, if◌then◌else◌,
}
use shiplog_prototype.Value.{Value, undefined, obj, end, get, put, or_else, truthy, is_text}
use shiplog_prototype.Host.{Host}
use shiplog_prototype.Models.{IngestJobData, Via}
use shiplog_prototype.World.{World, Database, M, ◌>>=◌, return}
use shiplog_prototype.Queue.Requeue.{enqueue}
use shiplog_prototype.Nango.Raw.{land_raw_record}

-- `NangoListParams`.
pub record ListParams : Type 0 where
  pub provider_config_key : Value
  pub connection_id : Value
  pub model : Value
  pub cursor : Option String
  pub modified_after : Value

-- `NangoListResult`; a page or a list that is missing is an empty one.
pub record Page : Type 0 where
  pub records : List Value
  pub next_cursor : Option String

-- The slice of the Nango client that is used. What it answers may depend on all that has happened.
pub record NangoClient : Type 0 where
  pub list_records : ListParams → World → Page

-- `record._nango_metadata ?? {}`.
abbrev pub meta_of : Value → Value
meta_of r = or_else (get "_nango_metadata" r) (obj end)

-- `meta.deleted_at || meta.last_action === 'DELETED'`.
abbrev pub is_tombstone : Value → Bool
is_tombstone r =
    truthy (get "deleted_at" (meta_of r)) || is_text (get "last_action" (meta_of r)) "DELETED"

-- `{ ...record, _nango_metadata: { ...meta, model } }`.
abbrev pub stamped : Value → Value → Value
stamped model r = put "_nango_metadata" (put "model" model (meta_of r)) r

-- The ingest job of a record.
abbrev pub record_job : String → String → Value → IngestJobData
record_job tenant_id connection_id r = record {
  tenant_id = tenant_id;
  connection_id = some connection_id;
  sync_run_id = none;
  record_data = r;
  poison = undefined;
  demo_fault = none;
}

pub record Counters : Type 0 where
  pub fetched : ℕ
  pub enqueued : ℕ

module _ (host : Host) (db : Database) (tenant_id connection_id : String) (model : Value)
    (via : Via) where
  -- Landing one record and fanning it out.
  unfoldable pub land_and_enqueue : Value → M (Unit {0})
  land_and_enqueue r = do
    _ ← land_raw_record host db tenant_id connection_id via r
    enqueue (record_job tenant_id connection_id r)

  -- One round of the loop over a page's records.
  unfoldable pub handle_record : Value → Counters → M Counters
  handle_record r c =
      let skipped = record c { fetched = c.fetched + 1 } in
      let landed = land_and_enqueue (stamped model r) >>= λ _.
      return (record { fetched = c.fetched + 1; enqueued = c.enqueued + 1 }) in
      if is_tombstone r then return skipped else landed

  unfoldable pub handle_records : List Value → Counters → M Counters
  handle_records [] c = return c
  handle_records (r ∷ rs) c = do c' ← handle_record r c; handle_records rs c'
