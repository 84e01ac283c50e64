-- ===== src/Scripts/Injection.antt =====
-- scripts/inject-failure.ts: faults on demand. The wait for the dead letter runs on fuel, and the
-- second that it sleeps between two looks is a program, since the worker runs meanwhile.
pub mod Waiting
use shiplog_prototype.Prelude.{
  ℕ, zero, suc, ◌-◌, ltb, ◌&&◌, String, Bool, true, false, Option, none, some, List, [], ◌∷◌, ◌==◌,
  if◌then◌else◌,
}
use shiplog_prototype.Text.{append}
use shiplog_prototype.Value.{Value, undefined, null, str, obj, end, field, is_text}
use shiplog_prototype.Host.{Host}
use shiplog_prototype.Models.{Tenant, Connection, IngestJobData, DeadLetter, by_reconcile}
use shiplog_prototype.World.{
  World, Database, M, ◌>>=◌, return, lift, query, attempt, clock, catch, ◌>>◌,
}
use shiplog_prototype.Normalize.{model_of, normalize_github}
use shiplog_prototype.Ingest.{ingest_event}
use shiplog_prototype.Queue.Requeue.{enqueue}
use shiplog_prototype.Nango.Fixtures.{github_fixtures}
use shiplog_prototype.Scripts.{exit_with, connect_db}
use shiplog_prototype.Scripts.Setup.{DemoContext, ensure_demo_context, create_run, has_api_key}

-- `VALID`.
pub data Mode : Type 0 where
  recovery duplicate idempotency transient logical : Mode

-- The mode of an argument in lower case; `none` where the script prints its usage.
pub parse_mode : String → Option Mode
parse_mode s =
    if s == "recovery"
    then some recovery
    else if s == "duplicate"
    then some duplicate
    else if s == "idempotency"
    then some idempotency
    else if s == "transient"
    then some transient
    else if s == "logical"
    then some logical
    else none

-- `buildDemoCommit(label)`, of the random digits and the time.
abbrev pub demo_sha : String → String → String
demo_sha label digits = append "demo-" (append label (append "-" digits))

unfoldable pub build_demo_commit : String → String → String → Value
build_demo_commit label digits now =
    let sha = demo_sha label digits in
    obj (
      field "id" (str (append "nango-" sha)) (
        field "_nango_metadata"
          (obj (
            field "model" (str "GithubCommit") (
              field "cursor" (str (append "cursor-" sha))
                (field "deleted_at" null (field "last_modified_at" (str now) end)))))
          (field "sha" (str sha) (
            field "html_url" (str (append "https://example.invalid/shiplog-demo/commit/" sha)) (
              field "author" (obj (field "login" (str "shiplog-demo") end)) (
                field "commit"
                  (obj (
                    field "message"
                      (str (
                        append "Demo fault-injection ("
                          (append label ") — synthetic record, not a real commit")))
                      (field "author"
                        (obj (field "name" (str "shiplog-demo") (field "date" (str now) end)))
                        end)))
                  end))))))

-- `githubFixtures.find((r) => r._nango_metadata.model === 'GithubCommit')`.
unfoldable pub find_commit : List Value → Value
find_commit [] = undefined
find_commit (r ∷ rs) =
    let rest = find_commit rs in if is_text (model_of r) "GithubCommit" then r else rest

-- The label of a commit.
abbrev pub label_of : Bool → String
label_of is_duplicate = if is_duplicate then "duplicate" else "recovery"

-- `payload.demoFault.id` of a document.
abbrev pub is_fault_id : Option String → String → Bool
is_fault_id none id = false
is_fault_id (some f) id = f == id

-- `timeoutMs`.
abbrev pub timeout_ms : ℕ
timeout_ms = 45000

-- `exit_with` of a script that may still wait.
abbrev pub exit_some : ℕ → M (Option ℕ)
exit_some code = exit_with code >>= λ n. return (some n)

-- How the wait ends: with a document, after the timeout, or not within its fuel.
pub data Waited : Type 0 where
  parked : DeadLetter → Waited
  gave_up still_waiting : Waited

module _ (host : Host) (db : Database) where
  abbrev pub poisoned_job : DemoContext → String → IngestJobData
  poisoned_job ctx poison = record {
    tenant_id = host.object_id ctx.tenant.id;
    connection_id = some (host.object_id ctx.connection.id);
    sync_run_id = some (host.object_id ctx.sync_run.id);
    record_data = find_commit github_fixtures;
    poison = str poison;
    demo_fault = none;
  }

  -- The branch of a fault that is baked into the payload.
  unfoldable pub inject_poison : String → M (Option ℕ)
  inject_poison poison = do
    ctx ← ensure_demo_context host db by_reconcile
    _ ← enqueue (poisoned_job ctx poison)
    exit_some 0

  abbrev connection_text : Option Connection → Option String
  connection_text none = none
  connection_text (some c) = some (host.object_id c.id)

  abbrev pub count_of : String → World → ℕ
  count_of tenant_id w = db.events.count (λ e. e.tenant_id == tenant_id) w.events

  -- The seed of a duplicate: the event that the record's key names already.
  unfoldable pub seed_duplicate : Bool → String → Value → M (Unit {0})
  seed_duplicate false tenant_id r = return tt
  seed_duplicate true tenant_id r = do
    normalized ← lift (normalize_github host r)
    _ ← ingest_event host db (some tenant_id) normalized
    _ ← query (count_of tenant_id)
    return tt

  abbrev fault_job : String → Option String → String → Value → String → IngestJobData
  fault_job tenant_id connection_id run_id r sha = record {
    tenant_id = tenant_id;
    connection_id = connection_id;
    sync_run_id = some run_id;
    record_data = r;
    poison = undefined;
    demo_fault = some sha;
  }

  -- What the branch of a fault that heals does before it waits.
  unfoldable pub queue_fault : Bool → String → String → M (Unit {0})
  queue_fault is_duplicate digits tenant_id = do
    c ← query (λ w. db.connections.find_one (λ x. x.tenant_id == tenant_id) w.connections)
    run ← attempt (create_run host db tenant_id (connection_text c) by_reconcile)
    _ ← query (count_of tenant_id)
    now ← clock
    let label = label_of is_duplicate
    let r = build_demo_commit label digits (host.to_iso now)
    _ ← seed_duplicate is_duplicate tenant_id r
    enqueue
        (fault_job tenant_id (connection_text c) (host.object_id run.id) r (demo_sha label digits))

  -- The documents that the script waits for, the latest first.
  abbrev is_letter_of_fault : String → String → DeadLetter → Bool
  is_letter_of_fault tenant_id fault_id d =
      d.tenant_id == tenant_id && is_fault_id d.payload.demo_fault fault_id

  abbrev pub find_letter : String → String → World → Option DeadLetter
  find_letter tenant_id fault_id w =
      db.dead_letters.find_latest (λ d. d.failed_at) (λ d. 0)
        (is_letter_of_fault tenant_id fault_id) w.dead_letters

  module _ (pause : M (Unit {0})) where
    -- `waitForDeadLetter(tenantId, faultId)`, begun at a time.
    unfoldable pub wait_for_dead_letter : ℕ → String → String → ℕ → M Waited
    wait_for_dead_letter zero tenant_id fault_id start = return still_waiting
    wait_for_dead_letter (suc fuel) tenant_id fault_id start =
        let again = pause >> wait_for_dead_letter fuel tenant_id fault_id start in
        query (find_letter tenant_id fault_id) >>= λ found. elim found [
          | some d ↦ return (parked d)
          | none ↦ λ w. elim (ltb timeout_ms (w.now - start)) [
            | true ↦ return gave_up w
            | false ↦ again w
          ]
        ]

    -- What follows the wait.
    unfoldable pub after_wait : String → Waited → M (Option ℕ)
    after_wait tenant_id (parked d) = do _ ← query (count_of tenant_id); exit_some 0
    after_wait tenant_id gave_up = exit_some 0
    after_wait tenant_id still_waiting = return none

    -- The branch of a fault that heals, of whether it is a duplicate and of the random digits.
    unfoldable pub inject_fault : ℕ → Bool → String → String → M (Option ℕ)
    inject_fault fuel is_duplicate digits tenant_id = do
      _ ← queue_fault is_duplicate digits tenant_id
      start ← clock
      waited ← wait_for_dead_letter fuel tenant_id (demo_sha (label_of is_duplicate) digits) start
      after_wait tenant_id waited

    unfoldable pub inject_for : ℕ → Bool → String → Option Tenant → M (Option ℕ)
    inject_for fuel is_duplicate digits none = exit_some 2
    inject_for fuel is_duplicate digits (some t) =
        inject_fault fuel is_duplicate digits (host.object_id t.id)

    abbrev pub heal : ℕ → Bool → String → M (Option ℕ)
    heal fuel is_duplicate digits =
        query (λ w. db.tenants.find_one (has_api_key "acme-api-key") w.tenants)
        >>= inject_for fuel is_duplicate digits

    unfoldable pub inject_mode : ℕ → String → Mode → M (Option ℕ)
    inject_mode fuel digits transient = inject_poison "transient"
    inject_mode fuel digits logical = inject_poison "logical"
    inject_mode fuel digits recovery = heal fuel false digits
    inject_mode fuel digits duplicate = heal fuel true digits
    inject_mode fuel digits idempotency = heal fuel true digits

    -- The script, of its argument in lower case and the random digits; `none` where it still waits
    -- when the fuel ends.
    unfoldable pub inject_script : ℕ → String → String → M (Option ℕ)
    inject_script fuel given digits = elim (parse_mode given) [
      | none ↦ return (some 2)
      | some mode ↦ catch (connect_db >>= λ _. inject_mode fuel digits mode) (λ e. return (some 1))
    ]
