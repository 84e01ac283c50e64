-- ===== src/Scripts/ReplayDemo/Answers/Backfill.antt =====
-- The backfill step of the demonstration, where no call fails.
use text.Mathlib.TextEquality.{IsScalar-prop}
use shiplog_prototype.Prelude.{
  ℕ, String, true, false, some, [], ◌∷◌, ◌++◌, ◌≡◌, refl, ap, ◌∙◌, select,
}
use shiplog_prototype.Host.{Host}
use shiplog_prototype.Models.{RawRecord, Tenant, IngestJobData}
use shiplog_prototype.Backoff.{Fraction}
use shiplog_prototype.Mongo.{find_only}
use shiplog_prototype.World.{World, Database, done, after_fault, later_faults, ◌>>=◌}
use shiplog_prototype.World.Laws.{query_fine, execute_fine}
use shiplog_prototype.Queue.Requeue.{
  enqueue, is_landed, backfill_job, find_landed, backfill_all, backfill_connection,
}
use shiplog_prototype.Queue.Life.{Bull}
use shiplog_prototype.Api.{answer, find_tenant}
use shiplog_prototype.Api.Requests.{BuildAppOptions, post_backfill, backfilled}
use shiplog_prototype.Api.Requests.Served.{post_backfill_fine}
use shiplog_prototype.Scripts.ReplayDemo.{
  demo_key, demo_record, demo_payload, count_of, backfill_step,
}
use shiplog_prototype.Scripts.ReplayDemo.Work.{IsTaken}
use shiplog_prototype.Scripts.ReplayDemo.Steps.{IsReady, Holds, after_fault-Held}
use shiplog_prototype.Scripts.ReplayDemo.Answers.{request_fine, work_again, queued-Held}

RawRecord-set : IsSet RawRecord
RawRecord-set = hlevel (IsScalar-prop)

module _ (host : Host) (db : Database) (bull : Bull) (random : ℕ → Fraction) (t c : String)
    (taken : IsTaken host t) (tenant : Tenant) (is_t : host.object_id tenant.id ≡ t) (w : World)
    (ready : IsReady host t taken w) (found : find_tenant host db demo_key w ≡ some tenant) where
  abbrev Held : World → Type 0
  Held = Holds host t taken w

  abbrev options : BuildAppOptions
  options = record { ingest = true; reconcile = false }

  abbrev payload : IngestJobData
  payload = demo_payload t c

  -- A backfill of the one landed record queues the payload again.
  backfill_one :
      (v : World) (r : RawRecord)
      → v.faults ≡ []
      → find_landed db t c v ≡ r ∷ []
      → backfill_connection db c t v
        ≡ done 1 (record v {
          ingest_queue = v.ingest_queue ++ backfill_job t c r ∷ [];
          faults = later_faults (later_faults v.faults);
        })
  unfolding backfill_connection backfill_all enqueue
  backfill_one v r fine one =
      let j = backfill_job t c r in
      let add = λ (u : World). record u { ingest_queue = u.ingest_queue ++ j ∷ [] } in
      rw
        (
          ◌>>=◌,
          query_fine (find_landed db t c) v fine,
          one,
          execute_fine add (after_fault v) (ap later_faults fine),
          one,
        )
        refl

  -- The backfill finds the event stored.
  pub backfill_step_fine :
      (v : World) (r : RawRecord)
      → Held v
      → select (is_landed t c) w.raw_records ≡ r ∷ []
      → r.payload ≡ demo_record
      → host.is_object_id c ≡ true
      → (u : World) × (backfill_step host db bull random t c v ≡ done tt u) × Held u
  unfolding backfill_step
  backfill_step_fine v r h landed is_record valid =
      let v₀ = after_fault v in
      let fine₀ : v₀.faults ≡ [] = ap later_faults h.faults in
      let one : find_landed db t c v₀ ≡ r ∷ [] =
        ap (db.raw_records.find (is_landed t c)) h.raw_records
        ∙ find_only RawRecord-set db.raw_records (is_landed t c) w.raw_records r landed in
      let v₁ = record v₀ {
        ingest_queue = v₀.ingest_queue ++ backfill_job t c r ∷ [];
        faults = later_faults (later_faults v₀.faults);
      } in
      let fine₁ : v₁.faults ≡ [] = ap (λ fs. later_faults (later_faults fs)) fine₀ in
      let waits : v₁.ingest_queue ≡ payload ∷ [] =
        ap (λ q. q ++ backfill_job t c r ∷ []) h.ingest_queue
        ∙ ap (λ p. record payload { record_data = p } ∷ []) is_record in
      let (worked, held) =
        work_again host db bull random t c taken tenant is_t w ready found v₁ fine₁ waits (
          queued-Held host db bull random t c taken tenant is_t w ready found v₀ v₁
            (after_fault-Held host db bull random t c taken w v h) fine₁ refl) in
      let u = after_fault (record v₁ { ingest_queue = [] }) in
      (
        after_fault u,
        rw
            (
              ◌>>=◌,
              request_fine host db bull random t c taken tenant is_t w ready found (post_backfill c)
                  (answer 200 (backfilled 1)) v v₁ h
                  (post_backfill_fine host db options refl c t valid v₀ v₁ 1
                    (backfill_one v₀ r fine₀ one)),
              worked,
              query_fine (count_of host db bull random t) u held.faults,
            )
            refl,
        after_fault-Held host db bull random t c taken w u held,
      )
