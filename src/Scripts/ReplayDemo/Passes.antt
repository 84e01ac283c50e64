-- ===== src/Scripts/ReplayDemo/Passes.antt =====
-- The demonstration passes.
use shiplog_prototype.Prelude.{
  ℕ, String, true, false, some, [], ◌∷◌, ◌++◌, ◌≡◌, refl, ap, ◌∙◌, arith, any, any-narrower, select,
  select-append, select-empty, eq_refl, ◌==◌,
}
use shiplog_prototype.Host.{Host}
use shiplog_prototype.Models.{Event, RawRecord, Tenant, reconcile}
use shiplog_prototype.Backoff.{Fraction}
use shiplog_prototype.World.{World, Database, done, after_fault, later_faults, ◌>>=◌}
use shiplog_prototype.World.Laws.{query_fine, execute_fine}
use shiplog_prototype.Nango.Raw.{
  is_raw, record_id, external_id_of, refresh, raw_row, upsert_raw, land_raw_record,
}
use shiplog_prototype.Queue.Requeue.{is_landed}
use shiplog_prototype.Queue.Life.{Bull}
use shiplog_prototype.Api.{find_tenant}
use shiplog_prototype.Scripts.ReplayDemo.{demo_key, demo_record, count_of, demonstrate}
use shiplog_prototype.Scripts.ReplayDemo.Work.{IsTaken}
use shiplog_prototype.Scripts.ReplayDemo.Steps.{
  IsReady, row, count_of-Holds, first_step_fine, outage_step_fine,
}
use shiplog_prototype.Scripts.ReplayDemo.Answers.Replay.{replay_step_fine}
use shiplog_prototype.Scripts.ReplayDemo.Answers.Backfill.{backfill_step_fine}

module _ (host : Host) (db : Database) (bull : Bull) (random : ℕ → Fraction) (t c : String)
    (taken : IsTaken host t) (tenant : Tenant) (is_t : host.object_id tenant.id ≡ t)
    (valid : (n : ℕ) → host.is_object_id (host.object_id n) ≡ true)
    (valid_c : host.is_object_id c ≡ true) where
  abbrev landed : World → World
  landed w = upsert_raw host db t c reconcile demo_record (after_fault w)

  abbrev landed_row : World → RawRecord
  landed_row w =
      raw_row w.next_id w.now t c (record_id host demo_record) (external_id_of host demo_record)
        demo_record reconcile

  module _ (w : World) (ready : IsReady host t taken w)
      (no_raws : any (λ r. r.tenant_id == t) w.raw_records ≡ false) where
    landed-IsReady : IsReady host t taken (landed w)
    unfolding upsert_raw
    landed-IsReady = record {
      faults = ap later_faults ready.faults;
      ingest_queue = ready.ingest_queue;
      events = ready.events;
      new = ready.new;
      letters = ready.letters;
    }

    -- The landed record is the only one of the connection.
    landed_one : select (is_landed t c) (landed w).raw_records ≡ landed_row w ∷ []
    unfolding upsert_raw
    landed_one =
        let p = is_raw t c (record_id host demo_record) in
        let new : any p w.raw_records ≡ false =
          any-narrower p (λ r. r.tenant_id == t) w.raw_records (λ x hit. ground arith) no_raws in
        let absent : any (is_landed t c) w.raw_records ≡ false =
          any-narrower (is_landed t c) (λ r. r.tenant_id == t) w.raw_records (λ x hit. ground arith)
            no_raws in
        ap (λ r. select (is_landed t c) r.0)
          (db.raw_records.upsert-insert p
            (refresh (external_id_of host demo_record) demo_record reconcile) (landed_row w)
            w.raw_records new)
        ∙ select-append (is_landed t c) w.raw_records (landed_row w ∷ [])
        ∙ rw (select-empty (is_landed t c) w.raw_records absent, eq_refl t, eq_refl c) refl

    -- The demonstration of an outage, the replay and the backfill, from a state in which nothing of
    -- the tenant is stored and nothing waits, without failing calls. Its record is one that the
    -- pipeline takes, under a key that is new. The demonstration passes: the spine has exactly one
    -- row more, which the first step stored and all later ones left as it was. No
    -- call fails afterwards.
    pub demonstrate_passes :
        find_tenant host db demo_key w ≡ some tenant
        → (u : World) × (demonstrate host db bull random t c w ≡ done true u)
          × ((e : Event) × (u.events ≡ w.events ++ e ∷ []))
          × (u.faults ≡ [])
    unfolding demonstrate land_raw_record upsert_raw
    demonstrate_passes found =
        let w₁ = landed w in
        let ready₁ = landed-IsReady in
        let e = row host t taken w₁ in
        let (v₁, ran₁, h₁, same₁) = first_step_fine host db bull random t c taken w₁ ready₁ in
        let none_of : any (λ d. d.tenant_id == t) v₁.dead_letters ≡ false =
          ap (any (λ d. d.tenant_id == t)) same₁ ∙ ready.letters in
        let (d, v₂, ran₂, h₂, letters₂, is_payload, is_tenant) =
          outage_step_fine host db bull random t c taken w₁ v₁ ready₁ h₁ none_of in
        let (v₃, ran₃, h₃) =
          replay_step_fine host db bull random t c taken tenant is_t w₁ ready₁ found v₂
            v₁.dead_letters d h₂ letters₂ none_of is_payload is_tenant (valid d.id) in
        let (v₄, ran₄, h₄) =
          backfill_step_fine host db bull random t c taken tenant is_t w₁ ready₁ found v₃
            (landed_row w) h₃ landed_one refl valid_c in
        (
          after_fault v₄,
          rw
              (
                ◌>>=◌,
                execute_fine (upsert_raw host db t c reconcile demo_record) w ready.faults,
                ran₁,
                ran₂,
                ran₃,
                ran₄,
                query_fine (count_of host db bull random t) v₄ h₄.faults,
                count_of-Holds host db bull random t c taken w₁ v₄ ready₁ h₄,
              )
              (ground (arith, eq_refl e.idempotency_key)),
          (e, h₄.events),
          ap later_faults h₄.faults,
        )
