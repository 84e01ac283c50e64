-- ===== src/Ingest/Machine.antt =====
-- `ingestEvent` (src/events/ingest.ts) one call at a time, for the workers that run it side by side:
-- between two calls of one worker any number of calls of the others may happen.
pub mod Alone
pub mod Calls
pub mod Races
use shiplog_prototype.Prelude.{
  ℕ, ◌+◌, String, Bool, true, false, Option, none, some, List, [], ◌∷◌, ◌++◌, ◌≡◌, ◌==◌,
  if◌then◌else◌,
}
use shiplog_prototype.Errors.{Thrown}
use shiplog_prototype.Models.{Event}
use shiplog_prototype.Schema.{NormalizedEvent}
use shiplog_prototype.World.{World, Database, Run, done, fail}
use shiplog_prototype.Ingest.{
  IngestStatus, added, updated, unchanged, IngestResult, result, version_exists, latest_version,
  append_event,
}

-- What a run works on, after validation and hashing.
pub record Task : Type 0 where
  pub tenant_id : String
  pub event : NormalizedEvent
  pub key : String
  pub hash : String

-- Where a run stands: before the first, the second or the third call, or at its end.
pub data Phase : Type 0 where
  checking looking : Phase
  appending : IngestStatus → Phase
  reported : IngestResult → Phase
  thrown : Thrown → Phase

module _ (t : Task) where
  -- What follows from the answer of each call.
  unfoldable pub after_check : Run Bool → Phase × World
  after_check (done true w) = (reported (result unchanged t.key), w)
  after_check (done false w) = (looking, w)
  after_check (fail e w) = (thrown e, w)

  unfoldable pub after_look : Run (Option Event) → Phase × World
  after_look (done none w) = (appending added, w)
  after_look (done (some e) w) =
      (if e.content_hash == t.hash then reported (result unchanged t.key) else appending updated, w)
  after_look (fail e w) = (thrown e, w)

unfoldable pub after_append : Run IngestResult → Phase × World
after_append (done r w) = (reported r, w)
after_append (fail e w) = (thrown e, w)

-- One call.
unfoldable pub advance : Database → Task → Phase → World → Phase × World
advance db t checking w = after_check t (version_exists db t.tenant_id t.key w)
advance db t looking w = after_look t (latest_version db t.tenant_id t.event w)
advance db t (appending s) w = after_append (append_event db t.tenant_id t.event t.key t.hash s w)
advance db t p w = (p, w)

pub record Worker : Type 0 where
  pub task : Task
  pub phase : Phase

pub record System : Type 0 where
  pub world : World
  pub workers : List Worker

-- Some worker makes its next call.
pub data Step (db : Database) (s s' : System) : Type 0 where
  move :
      (front : List Worker) (k : Worker) (back : List Worker)
      → s.workers ≡ front ++ k ∷ back
      → s'.world ≡ (advance db k.task k.phase s.world).1
      → s'.workers ≡ front ++ record k { phase = (advance db k.task k.phase s.world).0 } ∷ back
      → Step db s s'

pub data Reach (db : Database) (s : System) : System → Type 0 where
  here : Reach db s s
  next : {s' s'' : System} → Reach db s s' → Step db s' s'' → Reach db s s''
