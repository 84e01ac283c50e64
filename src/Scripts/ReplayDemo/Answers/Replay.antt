-- ===== src/Scripts/ReplayDemo/Answers/Replay.antt =====
-- The replay step of the demonstration, where no call fails.
use mathlib.Core.Path.{subst}
use shiplog_prototype.Prelude.{
  ℕ, String, true, false, some, List, [], ◌∷◌, ◌++◌, ◌≡◌, refl, ap, ◌∙◌, arith, any, any-append,
  any-narrower, eq_refl, ◌==◌,
}
use shiplog_prototype.Host.{Host}
use shiplog_prototype.Models.{DeadLetter, Tenant, IngestJobData}
use shiplog_prototype.Backoff.{Fraction}
use shiplog_prototype.Mongo.{IsFound, IsFound-last}
use shiplog_prototype.World.{World, Database, done, after_fault, later_faults, ◌>>=◌}
use shiplog_prototype.World.Laws.{query_fine}
use shiplog_prototype.Queue.Requeue.{is_item, Replayed, replay_dead_letter}
use shiplog_prototype.Queue.Requeue.Verbatim.{replay_dead_letter-IsFound}
use shiplog_prototype.Queue.Life.{Bull}
use shiplog_prototype.Api.{answer, find_tenant}
use shiplog_prototype.Api.Requests.{BuildAppOptions, post_replay, replayed}
use shiplog_prototype.Api.Requests.Served.{post_replay_fine}
use shiplog_prototype.Scripts.ReplayDemo.{
  demo_key, demo_payload, event_in, count_of, await_completed, await_replayed, replay_step,
}
use shiplog_prototype.Scripts.ReplayDemo.Work.{IsTaken}
use shiplog_prototype.Scripts.ReplayDemo.Steps.{
  IsReady, Holds, row, event_in-Holds, after_fault-Held,
}
use shiplog_prototype.Scripts.ReplayDemo.Answers.{
  request_fine, work_again, counted-Held, queued-Held,
}

module _ (host : Host) (db : Database) (bull : Bull) (random : ℕ → Fraction) (t c : String)
    (taken : IsTaken host t) (tenant : Tenant) (is_t : host.object_id tenant.id ≡ t) (w : World)
    (ready : IsReady host t taken w) (found : find_tenant host db demo_key w ≡ some tenant) where
  abbrev Held : World → Type 0
  Held = Holds host t taken w

  abbrev options : BuildAppOptions
  options = record { ingest = true; reconcile = false }

  abbrev payload : IngestJobData
  payload = demo_payload t c

  -- Once the replay is answered, the worker runs and the same event is found.
  replay_answered :
      (v v₁ : World) (d : DeadLetter) (x : Replayed)
      → Held v
      → host.is_object_id (host.object_id d.id) ≡ true
      → replay_dead_letter host db (host.object_id d.id) t (after_fault v) ≡ done (some x) v₁
      → v₁.faults ≡ []
      → v₁.ingest_queue ≡ payload ∷ []
      → Held (record v₁ { ingest_queue = [] })
      → (u : World) × (replay_step host db bull random t c d v ≡ done (row host t taken w) u)
        × Held u
  unfolding replay_step await_replayed await_completed
  replay_answered v v₁ d x h valid ran fine waits kept =
      let (worked, held) =
        work_again host db bull random t c taken tenant is_t w ready found v₁ fine waits kept in
      let u = after_fault (record v₁ { ingest_queue = [] }) in
      (
        after_fault (after_fault u),
        rw
            (
              ◌>>=◌,
              request_fine host db bull random t c taken tenant is_t w ready found
                  (post_replay (host.object_id d.id)) (answer 200 (replayed x)) v v₁ h
                  (post_replay_fine host db options refl (host.object_id d.id) t valid
                    (after_fault v) v₁ x ran),
              worked,
              query_fine (event_in host db bull random t) u held.faults,
              event_in-Holds host db bull random t c taken w u ready held,
              query_fine (count_of host db bull random t) (after_fault u)
                  (ap later_faults held.faults),
            )
            refl,
        counted-Held host db bull random t c taken tenant is_t w ready found u held,
      )

  -- The dead letter that came last is the one that is replayed.
  last_replayed :
      (v : World) (ls : List DeadLetter) (d : DeadLetter)
      → v.faults ≡ []
      → v.dead_letters ≡ ls ++ d ∷ []
      → any (λ x. x.tenant_id == t) ls ≡ false
      → d.tenant_id ≡ t
      → (x : Replayed) × (v₁ : World) × (replay_dead_letter host db (host.object_id d.id) t v
          ≡ done (some x) v₁)
        × (v₁.ingest_queue ≡ v.ingest_queue ++ d.payload ∷ [])
        × (v₁.faults ≡ [])
        × (v₁ ≡ record v {
          dead_letters = v₁.dead_letters;
          ingest_queue = v₁.ingest_queue;
          faults = v₁.faults;
        })
  last_replayed v ls d fine letters none_of is_tenant =
      let id = host.object_id d.id in
      let p = is_item host id t in
      let absent : any p ls ≡ false =
        any-narrower p (λ x. x.tenant_id == t) ls (λ x hit. ground arith) none_of in
      let hit : p d ≡ true =
        rw (host.to_object_id-object_id d.id, eq_refl id, is_tenant, eq_refl t) refl in
      let there : any p v.dead_letters ≡ true =
        ap (any p) letters ∙ any-append p ls (d ∷ []) ∙ rw (absent, hit) refl in
      let (x, v₁, placed, ran, waiting, _, fine₁, rest) =
        replay_dead_letter-IsFound host db id t v fine there in
      let same = IsFound-last p x d ls (subst (IsFound p x) letters placed) absent in
      (
        record { replayed = true; dead_letter_id = host.object_id x.id; payload = x.payload },
        v₁,
        ran,
        waiting ∙ ap (λ (y : DeadLetter). v.ingest_queue ++ y.payload ∷ []) same,
        fine₁,
        rest,
      )

  -- The replay of the parked payload finds the same event.
  pub replay_step_fine :
      (v : World) (ls : List DeadLetter) (d : DeadLetter)
      → Held v
      → v.dead_letters ≡ ls ++ d ∷ []
      → any (λ x. x.tenant_id == t) ls ≡ false
      → d.payload ≡ payload
      → d.tenant_id ≡ t
      → host.is_object_id (host.object_id d.id) ≡ true
      → (u : World) × (replay_step host db bull random t c d v ≡ done (row host t taken w) u)
        × Held u
  replay_step_fine v ls d h letters none_of is_payload is_tenant valid =
      let (x, v₁, ran, waiting, fine₁, rest) =
        last_replayed (after_fault v) ls d (ap later_faults h.faults) letters none_of is_tenant in
      replay_answered v v₁ d x h valid ran fine₁
        (waiting
          ∙ ap (λ q. q ++ d.payload ∷ []) h.ingest_queue
          ∙ ap (λ (y : IngestJobData). y ∷ []) is_payload)
        (queued-Held host db bull random t c taken tenant is_t w ready found (after_fault v) v₁
          (after_fault-Held host db bull random t c taken w v h) fine₁ rest)
