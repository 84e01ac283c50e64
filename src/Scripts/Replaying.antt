-- ===== src/Scripts/Replaying.antt =====
-- scripts/replay.ts: a replay through the API, and the wait for the worker to finish the job. What is
-- printed is left out.
use shiplog_prototype.Prelude.{
  ℕ, zero, suc, String, Bool, true, false, ◌&&◌, Option, none, some, ◌==◌,
}
use shiplog_prototype.Text.{append}
use shiplog_prototype.Host.{Host}
use shiplog_prototype.Models.{Tenant, DeadLetter}
use shiplog_prototype.World.{World, Database, M, ◌>>=◌, ◌>>◌, return, query}
use shiplog_prototype.Queue.Requeue.{Replayed}
use shiplog_prototype.Nango.Sync.{usable}
use shiplog_prototype.Api.{Reply, refuse, answer, tenant_auth, replay_route}
use shiplog_prototype.Api.Isolation.{has_key}
use shiplog_prototype.Scripts.{exit_with, main}

-- The filters `{ tenantId }` and `{ tenantId, replayedAt: { $exists: false } }`.
abbrev pub is_letter_of : String → DeadLetter → Bool
is_letter_of tenant_id d = d.tenant_id == tenant_id

abbrev pub is_open : Option ℕ → Bool
is_open none = true
is_open (some t) = false

abbrev pub is_pending_of : String → DeadLetter → Bool
is_pending_of tenant_id d = d.tenant_id == tenant_id && is_open d.replayed_at

-- The states of a job that the script tells apart.
pub data JobState : Type 0 where
  completed failed unfinished : JobState

abbrev is_finished : JobState → Bool
is_finished completed = true
is_finished failed = true
is_finished unfinished = false

module _ (host : Host) (db : Database) where
  -- `Event.countDocuments({ tenantId })`.
  abbrev count_of : Tenant → World → ℕ
  count_of t w = db.events.count (λ e. e.tenant_id == host.object_id t.id) w.events

  -- `DeadLetter.findOne(…).sort({ failedAt: -1 })`.
  abbrev pub find_last : (DeadLetter → Bool) → World → Option DeadLetter
  find_last p w = db.dead_letters.find_latest (λ d. d.failed_at) (λ d. 0) p w.dead_letters

  -- `pending ?? await …`.
  unfoldable pub or_latest : String → Option DeadLetter → M (Option DeadLetter)
  or_latest tenant_id none = query (find_last (is_letter_of tenant_id))
  or_latest tenant_id (some d) = return (some d)

  -- The item that is replayed where the script has no argument: the latest that is not replayed, or
  -- the latest.
  unfoldable pub latest_target : String → M (Option DeadLetter)
  latest_target tenant_id = query (find_last (is_pending_of tenant_id)) >>= or_latest tenant_id

  -- The request's header.
  abbrev pub bearer_of : Tenant → Option String
  bearer_of t = some (append "Bearer " t.api_key)

  -- What BullMQ tells of the job: whether `Job.fromId` finds it, and its `getState`; and the sleep
  -- between two looks, while which the worker runs.
  module _ (is_known : World → Bool) (state_of : World → JobState) (sleep : M (Unit {0})) where
    -- Whether the wait is over.
    unfoldable pub look : M Bool
    look = query is_known >>= λ known. elim known [
      | true ↦ query state_of >>= λ state. return (is_finished state)
      | false ↦ return false
    ]

    -- The loop over this many looks.
    unfoldable pub wait_for_job : ℕ → M (Unit {0})
    wait_for_job zero = return tt
    wait_for_job (suc n) =
        look >>= λ over. elim over [ true ↦ return tt | false ↦ sleep >> wait_for_job n ]

    unfoldable pub exit_code : Tenant → Reply Replayed → M ℕ
    exit_code t (refuse status message) = exit_with 1
    exit_code t (answer status body) = do _ ← wait_for_job 50; _ ← query (count_of t); exit_with 0

    -- `fetch(url, { method: 'POST', headers })` and what follows, between two counts of events.
    unfoldable pub send_replay : Tenant → String → M ℕ
    send_replay t id = do
      _ ← query (count_of t)
      reply ← tenant_auth host db (bearer_of t) none (replay_route host db true id)
      exit_code t reply

    unfoldable pub replay_target : Tenant → Option DeadLetter → M ℕ
    replay_target t none = exit_with 2
    replay_target t (some d) = send_replay t (host.object_id d.id)

    unfoldable pub replay_for : Option String → Option Tenant → M ℕ
    replay_for id none = exit_with 2
    replay_for id (some t) = elim (usable id) [
      | some given ↦ send_replay t given
      | none ↦ latest_target (host.object_id t.id) >>= replay_target t
    ]

    -- The script, with its argument.
    unfoldable pub replay_script : Option String → M ℕ
    replay_script id =
        main (query (λ w. db.tenants.find_one (has_key "acme-api-key") w.tenants) >>= replay_for id)
