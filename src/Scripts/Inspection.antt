-- ===== src/Scripts/Inspection.antt =====
-- scripts/show-dlq.ts: the lines that describe the dead letters; scripts/trigger-sync.ts: the
-- connection whose sync is triggered.
use shiplog_prototype.Prelude.{
  ℕ, String, Bool, true, false, ◌&&◌, Option, none, some, List, take, ◌==◌, if◌then◌else◌, map,
}
use shiplog_prototype.Text.{append}
use shiplog_prototype.Value.{Value, undefined, null, str, get, or_else, truthy, js_string}
use shiplog_prototype.Host.{Host}
use shiplog_prototype.Errors.{option_or}
use shiplog_prototype.Models.{Connection, DeadLetter}
use shiplog_prototype.Mongo.{descending}
use shiplog_prototype.World.{World, Database, M, ◌>>=◌, return, query}
use shiplog_prototype.Nango.Sync.{usable}
use shiplog_prototype.Scripts.{exit_with, main}

module _ (host : Host) where
  abbrev template : Value → String
  template v = js_string host.date_text v

  -- `rec?.number != null ? `#${rec.number}` : rec?.id`.
  abbrev pub number_or_id : Value → Value → Value
  number_or_id undefined id = id
  number_or_id null id = id
  number_or_id n id = str (append "#" (template n))

  -- The identity of a record: its sha, its number, its id, or nothing.
  unfoldable pub identity_of : Value → Value
  identity_of r =
      or_else (or_else (get "sha" r) (number_or_id (get "number" r) (get "id" r))) (str "")

  abbrev after_space : Value → String
  after_space v = if truthy v then append " " (template v) else ""

  abbrev poison_text : Value → String
  poison_text v = if truthy v then append " poison=" (template v) else ""

  -- The end of an item's first line: model, identity and poison.
  unfoldable pub describe : DeadLetter → String
  describe d =
      let r = d.payload.record_data in
      append (template (or_else (get "model" (get "_nango_metadata" r)) (str "record")))
        (append (after_space (identity_of r)) (poison_text d.payload.poison))

module _ (host : Host) (db : Database) where
  -- `DeadLetter.find({}).sort({ failedAt: -1 }).limit(25)`.
  abbrev pub latest_letters : World → List DeadLetter
  latest_letters w =
      take 25 (db.dead_letters.find_sorted descending (λ d. d.failed_at) (λ d. true) w.dead_letters)

  -- What show-dlq.ts prints of the items, and their number.
  unfoldable pub show_letters : M (List String × ℕ)
  show_letters = do
    docs ← query latest_letters
    total ← query (λ w. db.dead_letters.count (λ d. true) w.dead_letters)
    return (map (describe host) docs, total)

  abbrev pub is_named : Option String → Bool
  is_named none = false
  is_named (some s) = true

  -- `{ status: 'active', nangoConnectionId: { $ne: null } }`.
  abbrev pub can_trigger : Connection → Bool
  can_trigger c = c.status == "active" && is_named c.nango_connection_id

  abbrev pub target : Option String → Option String → Option (String × String)
  target (some id) (some integration) = some (id, integration)
  target _ _ = none

  -- `conn?.nangoConnectionId` and `integrationId || conn.nangoIntegrationId || 'github'`.
  unfoldable pub target_of : Option String → Option Connection → Option (String × String)
  target_of integration none = none
  target_of integration (some c) =
      target (usable c.nango_connection_id)
        (option_or (usable integration) (option_or (usable c.nango_integration_id) (some "github")))

  -- The Nango connection and the integration of trigger-sync.ts, with its two arguments.
  unfoldable pub trigger_target : Option String → Option String → M (Option (String × String))
  trigger_target nango_id integration = elim (usable nango_id) [
    | some id ↦ return (target (some id) (option_or (usable integration) (some "github")))
    | none ↦ query (λ w. db.connections.find_one can_trigger w.connections) >>= λ c.
        return (target_of integration c)
  ]

  unfoldable pub trigger_sync_of : (String → String → M (Unit {0})) → Option (String × String) → M ℕ
  trigger_sync_of trigger_sync none = exit_with 2
  trigger_sync_of trigger_sync (some (id, integration)) =
      trigger_sync integration id >>= λ _. exit_with 0

  -- The script, with Nango's `triggerSync` and whether a real key is configured.
  unfoldable pub trigger_script :
      (String → String → M (Unit {0})) → Bool → Option String → Option String → M ℕ
  trigger_script trigger_sync has_key nango_id integration =
      let run = main (trigger_target nango_id integration >>= trigger_sync_of trigger_sync) in
      if has_key then run else return 2
