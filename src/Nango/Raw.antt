-- ===== src/Nango/Raw.antt =====
-- src/events/raw.ts: `externalIdOf` and `landRawRecord`.
use shiplog_prototype.Prelude.{ℕ, suc, String, Bool, ◌&&◌, some, ◌==◌}
use shiplog_prototype.Value.{Value, str, get, or_else, js_string}
use shiplog_prototype.Host.{Host}
use shiplog_prototype.Models.{RawRecord, Via}
use shiplog_prototype.World.{World, Database, M, Result, ok, err, execute}
use shiplog_prototype.Normalize.{normalize_github}
use shiplog_prototype.Queue.Requeue.{same_option}

module _ (host : Host) where
  -- The external id of a normalized record, or else its own id.
  external_id_from : Value → Result Value → String
  external_id_from r (ok ev) = js_string host.date_text (get "externalId" ev)
  external_id_from r (err e) = js_string host.date_text (or_else (get "id" r) (str "unknown"))

  -- `externalIdOf(record)`.
  pub external_id_of : Value → String
  unfolding external_id_from
  external_id_of r = external_id_from r (normalize_github host r)

  -- `String(record?.id ?? '')`.
  abbrev pub record_id : Value → String
  record_id r = js_string host.date_text (or_else (get "id" r) (str ""))

-- The filter `{ tenantId, connectionId, nangoRecordId }`.
abbrev pub is_raw : String → String → String → RawRecord → Bool
is_raw tenant_id connection_id id r =
    r.tenant_id == tenant_id
    && (same_option r.connection_id connection_id && r.nango_record_id == id)

-- The part of the update that is set on every document.
abbrev pub refresh : String → Value → Via → RawRecord → RawRecord
refresh external_id payload via r = record r {
  source = "github";
  external_id = external_id;
  payload = payload;
  via = via;
}

-- The document of an upsert that inserts.
abbrev pub raw_row : ℕ → ℕ → String → String → String → String → Value → Via → RawRecord
raw_row id now tenant_id connection_id record_id external_id payload via = record {
  id = id;
  tenant_id = tenant_id;
  connection_id = some connection_id;
  source = "github";
  external_id = external_id;
  nango_record_id = record_id;
  payload = payload;
  received_at = now;
  via = via;
}

module _ (host : Host) (db : Database) (tenant_id connection_id : String) (via : Via) where
  unfoldable pub upsert_raw : Value → World → World
  upsert_raw r w =
      let x = external_id_of host r in
      let (rows, _) =
        db.raw_records.upsert (is_raw tenant_id connection_id (record_id host r)) (refresh x r via)
          (raw_row w.next_id w.now tenant_id connection_id (record_id host r) x r via)
          w.raw_records in
      record w { raw_records = rows; next_id = suc w.next_id }

  -- `landRawRecord(record, { tenantId, connectionId, via })`, with the default source.
  unfoldable pub land_raw_record : Value → M (Unit {0})
  land_raw_record r = execute (upsert_raw r)
