-- ===== src/Queue/Requeue.antt =====
-- src/queue/replay.ts: `replayDeadLetter` and `backfillConnection`.
pub mod Verbatim
pub mod Backfill
use shiplog_prototype.Prelude.{
  ℕ, String, Bool, true, false, ◌&&◌, Option, none, some, List, [], ◌∷◌, ◌++◌, ◌==◌, nat_eq, length,
}
use shiplog_prototype.Value.{undefined}
use shiplog_prototype.Host.{Host}
use shiplog_prototype.Models.{IngestJobData, DeadLetter, RawRecord}
use shiplog_prototype.World.{
  World, Database, M, Run, done, fail, ◌>>=◌, ◌>>◌, return, query, execute,
}

-- The answer to a replay, but for the id that BullMQ gives to the job.
pub record Replayed : Type 0 where
  pub replayed : Bool
  pub dead_letter_id : String
  pub payload : IngestJobData

-- `queue.add(name, payload)` on the ingest queue.
unfoldable pub enqueue : IngestJobData → M (Unit {0})
enqueue d = execute (λ w. record w { ingest_queue = w.ingest_queue ++ d ∷ [] })

-- The filter `{ _id: deadLetterId, tenantId }`, of a valid id, which the one caller has checked.
abbrev pub is_item : Host → String → String → DeadLetter → Bool
is_item host id tenant_id d =
    host.object_id d.id == host.to_object_id id && d.tenant_id == tenant_id

abbrev pub same_option : Option String → String → Bool
same_option none t = false
same_option (some s) t = s == t

-- The filter `{ tenantId, connectionId }`.
abbrev pub is_landed : String → String → RawRecord → Bool
is_landed tenant_id connection_id r =
    r.tenant_id == tenant_id && same_option r.connection_id connection_id

abbrev pub stamp : ℕ → DeadLetter → DeadLetter
stamp now d = record d { replayed_at = some now }

-- The job that reprocesses a landed record.
abbrev pub backfill_job : String → String → RawRecord → IngestJobData
backfill_job tenant_id connection_id r = record {
  tenant_id = tenant_id;
  connection_id = some connection_id;
  sync_run_id = none;
  record_data = r.payload;
  poison = undefined;
  demo_fault = none;
}

module _ (host : Host) (db : Database) where
  abbrev pub find_item : String → String → World → Option DeadLetter
  find_item id tenant_id w = db.dead_letters.find_one (is_item host id tenant_id) w.dead_letters

  -- `item.replayedAt = new Date(); await item.save()`.
  abbrev pub save_stamp : DeadLetter → World → World
  save_stamp d w = record w {
    dead_letters = db.dead_letters.update_one (λ x. nat_eq x.id d.id) (stamp w.now) w.dead_letters;
  }

  unfoldable pub replay_item : Option DeadLetter → M (Option Replayed)
  replay_item none = return none
  replay_item (some d) = do
    _ ← enqueue d.payload
    _ ← execute (save_stamp d)
    return (
        some
          (record { replayed = true; dead_letter_id = host.object_id d.id; payload = d.payload }))

  -- `replayDeadLetter(deadLetterId, { ingestQueue, tenantId })`; `none` is `null`.
  unfoldable pub replay_dead_letter : String → String → M (Option Replayed)
  replay_dead_letter id tenant_id = query (find_item id tenant_id) >>= replay_item

module _ (db : Database) where
  abbrev pub find_landed : String → String → World → List RawRecord
  find_landed tenant_id connection_id w =
      db.raw_records.find (is_landed tenant_id connection_id) w.raw_records

  unfoldable pub backfill_all : String → String → List RawRecord → M (Unit {0})
  backfill_all tenant_id connection_id [] = return tt
  backfill_all tenant_id connection_id (r ∷ rs) = do
    _ ← enqueue (backfill_job tenant_id connection_id r)
    backfill_all tenant_id connection_id rs

  -- `backfillConnection(connectionId, { ingestQueue, tenantId })`: the number of jobs.
  unfoldable pub backfill_connection : String → String → M ℕ
  backfill_connection connection_id tenant_id = do
    raws ← query (find_landed tenant_id connection_id)
    _ ← backfill_all tenant_id connection_id raws
    return (length raws)
