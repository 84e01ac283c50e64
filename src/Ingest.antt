-- ===== src/Ingest.antt =====
-- src/events/ingest.ts: `ingestEvent`, which adds one event to the spine, and `ingestNangoRecords`.
pub mod Steps
pub mod Returns
pub mod Spine
pub mod Replay
pub mod Batch
pub mod Classified
pub mod Machine
pub mod Rows
pub mod Fresh
use shiplog_prototype.Prelude.{
  ℕ, suc, ◌+◌, String, Bool, true, false, ◌&&◌, Option, none, some, List, [], ◌∷◌, ◌==◌, nat_eq,
  if◌then◌else◌,
}
use shiplog_prototype.Value.{Value, str, date, obj, end, field}
use shiplog_prototype.Host.{Host}
use shiplog_prototype.Hash.{idempotency_key, content_hash}
use shiplog_prototype.Errors.{Thrown, ErrorCode, code_number, plain_error}
use shiplog_prototype.Models.{Event, EventType, commit, issue, pr, release}
use shiplog_prototype.Schema.{NormalizedEvent, parse_event}
use shiplog_prototype.World.{
  World, Database, M, Run, done, fail, ◌>>=◌, ◌>>◌, return, throw, catch, attempt, query, Result,
  lift,
}

pub data IngestStatus : Type 0 where
  added updated unchanged : IngestStatus

pub record IngestResult : Type 0 where
  pub status : IngestStatus
  pub idempotency_key : String

abbrev pub result : IngestStatus → String → IngestResult
result status key = record { status = status; idempotency_key = key }

-- `err.code === 11000`, the driver's error for a second document under a unique key.
abbrev pub is_duplicate_key : Option ErrorCode → Bool
is_duplicate_key (some (code_number n)) = nat_eq n 11000
is_duplicate_key _ = false

abbrev pub zod_error : Thrown
zod_error = plain_error "ZodError" "invalid event"

abbrev pub range_error : Thrown
range_error = plain_error "RangeError" "Invalid time value"

-- `if (!tenantId) throw …`: neither missing nor empty.
unfoldable pub require_tenant : Option String → M String
require_tenant none = throw (plain_error "Error" "ingestEvent requires a tenantId")
require_tenant (some t) =
    if t == "" then throw (plain_error "Error" "ingestEvent requires a tenantId") else return t

-- The value of a step that may throw without a call.
abbrev pub or_throw : {A : Type 0} → Thrown → Option A → M A
or_throw e none = throw e
or_throw e (some a) = return a

unfoldable pub type_text : EventType → String
type_text commit = "commit"
type_text issue = "issue"
type_text pr = "pr"
type_text release = "release"

-- The fields that make up the content hash, all but the version.
unfoldable pub semantic_content : NormalizedEvent → Value
semantic_content ev = obj (
    field "source" (str ev.source) (
      field "type" (str (type_text ev.type)) (
        field "externalId" (str ev.external_id) (
          field "actor" (str ev.actor) (
            field "title" (str ev.title)
              (field "url" (str ev.url) (field "occurredAt" (date (some ev.occurred_at)) end)))))))

-- The filters of the three calls.
abbrev pub has_version : String → String → Event → Bool
has_version tenant_id key e = e.tenant_id == tenant_id && e.idempotency_key == key

abbrev pub is_entity : String → NormalizedEvent → Event → Bool
is_entity tenant_id ev e =
    e.tenant_id == tenant_id && (e.source == ev.source && e.external_id == ev.external_id)

abbrev pub has_key : String → Event → Bool
has_key key e = e.idempotency_key == key

-- The document of `$setOnInsert`.
abbrev pub event_row : ℕ → String → NormalizedEvent → String → String → Event
event_row id tenant_id ev key hash = record {
  id = id;
  tenant_id = tenant_id;
  idempotency_key = key;
  type = ev.type;
  source = ev.source;
  external_id = ev.external_id;
  content_hash = hash;
  actor = ev.actor;
  title = ev.title;
  url = ev.url;
  occurred_at = ev.occurred_at;
  version = ev.version;
  deleted = false;
}

-- The handler of step 3.
unfoldable pub append_failed : String → Thrown → M IngestResult
append_failed key e = if is_duplicate_key e.code then return (result unchanged key) else throw e

module _ (db : Database) where
  -- Step 1: has this exact version been stored?
  abbrev pub find_key : String → String → World → Bool
  find_key tenant_id key w = db.events.exists (has_version tenant_id key) w.events

  unfoldable pub version_exists : String → String → M Bool
  version_exists tenant_id key = query (find_key tenant_id key)

  -- Step 2: the latest version of the entity, by time and then by insertion.
  abbrev pub find_version : String → NormalizedEvent → World → Option Event
  find_version tenant_id ev w =
      db.events.find_latest (λ e. e.occurred_at) (λ e. e.id) (is_entity tenant_id ev) w.events

  unfoldable pub latest_version : String → NormalizedEvent → M (Option Event)
  latest_version tenant_id ev = query (find_version tenant_id ev)

  -- The write of step 3, with whether it inserted.
  unfoldable pub insert_event : String → NormalizedEvent → String → String → World → Bool × World
  insert_event tenant_id ev key hash w =
      let (rows, inserted) =
        db.events.upsert (has_key key) (λ e. e) (event_row w.next_id tenant_id ev key hash)
          w.events in
      (inserted, record w { events = rows; next_id = suc w.next_id })

  -- Step 3: the idempotent append. A lost race ends as a no-op.
  unfoldable pub append_event :
      String → NormalizedEvent → String → String → IngestStatus → M IngestResult
  append_event tenant_id ev key hash status =
      catch
        (do
          inserted ← attempt (insert_event tenant_id ev key hash)
          return (if inserted then result status key else result unchanged key))
        (append_failed key)

  -- What follows from the latest version.
  unfoldable pub classify :
      String → NormalizedEvent → String → String → Option Event → M IngestResult
  classify tenant_id ev key hash none = append_event tenant_id ev key hash added
  classify tenant_id ev key hash (some e) =
      let changed = append_event tenant_id ev key hash updated in
      if e.content_hash == hash then return (result unchanged key) else changed

  -- Steps 2 and 3, unless the version is already there.
  unfoldable pub ingest_unknown : String → NormalizedEvent → String → String → Bool → M IngestResult
  ingest_unknown tenant_id ev key hash true = return (result unchanged key)
  ingest_unknown tenant_id ev key hash false = do
    latest ← latest_version tenant_id ev
    classify tenant_id ev key hash latest

  unfoldable pub ingest_parsed : String → NormalizedEvent → String → String → M IngestResult
  ingest_parsed tenant_id ev key hash = do
    known ← version_exists tenant_id key
    ingest_unknown tenant_id ev key hash known

module _ (host : Host) where
  -- The key under which a tenant's event is stored.
  abbrev pub event_key : String → NormalizedEvent → String
  event_key tenant_id ev = idempotency_key host tenant_id ev.source ev.external_id ev.version

  abbrev pub event_hash : NormalizedEvent → Option String
  event_hash ev = content_hash host (semantic_content ev)

  -- `ingestEvent(input, { tenantId })`.
  unfoldable pub ingest_event : Database → Option String → Value → M IngestResult
  ingest_event db tenant input = do
    tenant_id ← require_tenant tenant
    ev ← or_throw zod_error (parse_event host input)
    hash ← or_throw range_error (event_hash ev)
    ingest_parsed db tenant_id ev (event_key tenant_id ev) hash

pub record RunCounts : Type 0 where
  pub added : ℕ
  pub updated : ℕ
  pub deleted : ℕ
  pub failed : ℕ
  pub unchanged : ℕ

abbrev pub empty_counts : RunCounts
empty_counts = record { added = 0; updated = 0; deleted = 0; failed = 0; unchanged = 0 }

-- `counts[status] += 1`.
abbrev pub count_status : IngestStatus → RunCounts → RunCounts
count_status added c = record c { added = c.added + 1 }
count_status updated c = record c { updated = c.updated + 1 }
count_status unchanged c = record c { unchanged = c.unchanged + 1 }

abbrev pub count_failed : RunCounts → RunCounts
count_failed c = record c { failed = c.failed + 1 }

module _ (host : Host) (db : Database) (normalize : Value → Result Value)
    (tenant : Option String) where
  -- One round of the loop: the new counts, with whatever was thrown counted and dropped.
  pub ingest_record : Value → RunCounts → M RunCounts
  ingest_record r counts =
      catch
        (do
          normalized ← lift (normalize r)
          res ← ingest_event host db tenant normalized
          return (count_status res.status counts))
        (λ _. return (count_failed counts))

  pub ingest_records : List Value → RunCounts → M RunCounts
  ingest_records [] counts = return counts
  ingest_records (r ∷ rs) counts = do counts' ← ingest_record r counts; ingest_records rs counts'

  -- `ingestNangoRecords(records, { tenantId }, normalize)`.
  unfoldable pub ingest_nango_records : List Value → M RunCounts
  unfolding ingest_records ingest_record
  ingest_nango_records rs = ingest_records rs empty_counts
