-- ===== src/Scripts/ReplayDemo/Answers.antt =====
-- What the steps of the demonstration share that go through the API, where no call fails.
pub mod Replay
pub mod Backfill
use mathlib.Core.Path.{subst}
use text.Mathlib.TextEquality.{IsScalar-prop}
use shiplog_prototype.Prelude.{
  ℕ, String, Bool, true, false, ◌&&◌, Option, none, some, List, [], ◌∷◌, ◌++◌, ◌≡◌, ◌≢◌, inl, inr,
  refl, sym, ap, ◌∙◌, arith, any, any-append, any-narrower, select, eq_iff, eq_refl, ◌==◌,
}
use shiplog_prototype.Text.{trim}
use shiplog_prototype.Value.{Value, null}
use shiplog_prototype.Host.{Host}
use shiplog_prototype.Models.{Event, DeadLetter, RawRecord, Tenant, IngestJobData}
use shiplog_prototype.Backoff.{Fraction}
use shiplog_prototype.Mongo.{IsFound, IsFound-last, find_only}
use shiplog_prototype.World.{World, Database, done, after_fault, later_faults, ◌>>=◌}
use shiplog_prototype.World.Laws.{query_fine, execute_fine}
use shiplog_prototype.Ingest.{result, unchanged}
use shiplog_prototype.Queue.Requeue.{
  enqueue, is_item, is_landed, backfill_job, find_landed, backfill_all, backfill_connection,
  Replayed, replay_dead_letter,
}
use shiplog_prototype.Queue.Requeue.Verbatim.{replay_dead_letter-IsFound}
use shiplog_prototype.Queue.Life.{Bull, Life, completed, last_world}
use shiplog_prototype.Api.{Reply, answer, find_tenant}
use shiplog_prototype.Api.Requests.{
  BuildAppOptions, Content, Endpoint, post_replay, post_backfill, replayed, backfilled,
  handle_request,
}
use shiplog_prototype.Api.Requests.Served.{serve_fine, post_replay_fine, post_backfill_fine}
use shiplog_prototype.Scripts.ReplayDemo.{
  demo_key, demo_record, demo_payload, event_in, count_of, work, request_of, await_completed,
  await_replayed, replay_step, backfill_step,
}
use shiplog_prototype.Scripts.ReplayDemo.Work.{IsTaken, key_of, life_again, work_one}
use shiplog_prototype.Scripts.ReplayDemo.Steps.{
  IsReady, Holds, row, event_in-Holds, count_of-Holds, known-Holds, after_fault-Held,
}

demo_key_named : demo_key ≢ ""
demo_key_named e = let empty = (eq_iff demo_key "").1 e in cc

demo_key_trimmed : trim demo_key ≡ demo_key
unfolding trim
demo_key_trimmed = refl

module _ (host : Host) (db : Database) (bull : Bull) (random : ℕ → Fraction) (t c : String)
    (taken : IsTaken host t) (tenant : Tenant) (is_t : host.object_id tenant.id ≡ t) (w : World)
    (ready : IsReady host t taken w) (found : find_tenant host db demo_key w ≡ some tenant) where
  abbrev Held : World → Type 0
  Held = Holds host t taken w

  abbrev options : BuildAppOptions
  options = record { ingest = true; reconcile = false }

  abbrev payload : IngestJobData
  payload = demo_payload t c

  pub request_fine :
      (e : Endpoint) (r : Reply Content) (v v' : World)
      → Held v
      → handle_request host db options e t (after_fault v) ≡ done r v'
      → request_of host db bull random e v ≡ done r v'
  request_fine e r v v' h handled =
      serve_fine host db options demo_key tenant e r v v' demo_key_named demo_key_trimmed h.faults
        (ap (db.tenants.find_one (λ x. x.api_key == demo_key)) h.tenants ∙ found) (rw is_t handled)

  -- After a request that queued the payload, the worker finds the version stored.
  pub work_again :
      (v : World)
      → v.faults ≡ []
      → v.ingest_queue ≡ payload ∷ []
      → Held (record v { ingest_queue = [] })
      → let u = after_fault (record v { ingest_queue = [] }) in
        (work host db bull random null v
          ≡ done (completed (result unchanged (key_of host t taken)) u ∷ []) u)
        × Held u
  work_again v fine waiting h =
      let v₁ = record v { ingest_queue = [] } in
      let again =
        life_again host db bull random t c taken v₁ fine
          (known-Holds host db bull random t c taken w v₁ h) in
      (
        work_one host db bull random t c taken null v waiting ∙ rw again refl,
        after_fault-Held host db bull random t c taken w v₁ h,
      )

  -- Then the event is looked up and counted.
  abbrev pub counted : World → World
  counted u = after_fault (after_fault u)

  pub counted-Held : (u : World) → Held u → Held (counted u)
  counted-Held u h =
      after_fault-Held host db bull random t c taken w (after_fault u)
        (after_fault-Held host db bull random t c taken w u h)

  -- What a request leaves that queued the payload and wrote dead letters at most.
  pub queued-Held :
      (v v₁ : World)
      → Held v
      → v₁.faults ≡ []
      → v₁ ≡ record v {
        dead_letters = v₁.dead_letters;
        ingest_queue = v₁.ingest_queue;
        faults = v₁.faults;
      }
      → Held (record v₁ { ingest_queue = [] })
  queued-Held v v₁ h fine rest = record {
    faults = fine;
    ingest_queue = refl;
    tenants = ap (λ (u : World). u.tenants) rest ∙ h.tenants;
    raw_records = ap (λ (u : World). u.raw_records) rest ∙ h.raw_records;
    events = ap (λ (u : World). u.events) rest ∙ h.events;
  }
