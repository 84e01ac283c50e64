-- ===== src/Scripts/ReplayDemo/Steps.antt =====
-- The steps of the demonstration, one by one, where no call fails.
use shiplog_prototype.Prelude.{
  ℕ, String, Bool, true, false, some, List, [], ◌∷◌, ◌++◌, ◌≡◌, inl, inr, refl, ap, ◌∙◌, arith, any,
  any-append, any-narrower, select-append, select-empty, eq_refl, ◌==◌, Option-cases, or-true_right,
}
use shiplog_prototype.Value.{null, str}
use shiplog_prototype.Host.{Host}
use shiplog_prototype.Models.{Event, DeadLetter, IngestJobData}
use shiplog_prototype.Backoff.{Fraction}
use shiplog_prototype.Mongo.{IsFound-last, Collection}
use shiplog_prototype.World.{World, Database, done, after_fault, later_faults, ◌>>=◌}
use shiplog_prototype.World.Laws.{query_fine, execute_fine}
use shiplog_prototype.Ingest.{event_row, has_version, has_key}
use shiplog_prototype.Ingest.Fresh.{with_row}
use shiplog_prototype.Queue.DeadLetters.{build_dead_letter}
use shiplog_prototype.Queue.Requeue.{enqueue}
use shiplog_prototype.Queue.Processor.Plain.{failure}
use shiplog_prototype.Queue.Life.{Bull, last_world}
use shiplog_prototype.Queue.Life.Outage.{letter}
use shiplog_prototype.Scripts.ReplayDemo.{
  demo_payload, event_of_tenant, letter_of_tenant, event_in, letter_in, count_of, await_completed,
  first_step, outage_step, life_in,
}
use shiplog_prototype.Scripts.ReplayDemo.Work.{IsTaken, key_of, life_first, life_outage, work_one}

-- `findOne` of a filter that only the last document passes.
pub find_last :
    {Row : Type 0} (db : Collection Row) (p : Row → Bool) (rows : List Row) (r : Row)
    → any p rows ≡ false
    → p r ≡ true
    → db.find_one p (rows ++ r ∷ []) ≡ some r
find_last db p rows r none_of hit = elim (Option-cases (db.find_one p (rows ++ r ∷ []))) [
  | inl e ↦
      let absent = db.find_one-none p (rows ++ r ∷ []) e in
      let there : any p (rows ++ r ∷ []) ≡ true =
        rw (any-append p rows (r ∷ []), none_of, hit) refl in
      cc
  | inr (x, e) ↦
      let same = IsFound-last p x r rows (db.find_one-some p (rows ++ r ∷ []) x e) none_of in
      e ∙ ap some same
]

module _ (host : Host) (t : String) (taken : IsTaken host t) where
  -- Before the first step: nothing of the tenant is stored but the landed record, and nothing waits.
  pub record IsReady (w : World) : Type 0 where
    pub faults : w.faults ≡ []
    pub ingest_queue : w.ingest_queue ≡ []
    pub events : any (event_of_tenant t) w.events ≡ false
    pub new : any (has_key (key_of host t taken)) w.events ≡ false
    pub letters : any (λ d. d.tenant_id == t) w.dead_letters ≡ false

  abbrev pub row : World → Event
  row w = event_row w.next_id t taken.event (key_of host t taken) taken.hash

  -- From the first step on: the spine has the one row more, and nothing waits.
  pub record Holds (w v : World) : Type 0 where
    pub faults : v.faults ≡ []
    pub ingest_queue : v.ingest_queue ≡ []
    pub tenants : v.tenants ≡ w.tenants
    pub raw_records : v.raw_records ≡ w.raw_records
    pub events : v.events ≡ w.events ++ row w ∷ []

module _ (host : Host) (db : Database) (bull : Bull) (random : ℕ → Fraction) (t c : String)
    (taken : IsTaken host t) where
  abbrev key : String
  key = key_of host t taken

  abbrev Ready : World → Type 0
  Ready = IsReady host t taken

  abbrev Held : World → World → Type 0
  Held = Holds host t taken

  abbrev the_row : World → Event
  the_row = row host t taken

  -- The one event is found, and counted.
  pub event_in-Holds :
      (w v : World) → Ready w → Held w v → event_in host db bull random t v ≡ some (the_row w)
  event_in-Holds w v ready h =
      rw h.events
        (find_last db.events (event_of_tenant t) w.events (the_row w) ready.events (eq_refl t))

  pub count_of-Holds : (w v : World) → Ready w → Held w v → count_of host db bull random t v ≡ 1
  count_of-Holds w v ready h =
      db.events.count_lem (event_of_tenant t) v.events
      ∙ rw
          (
            h.events,
            select-append (event_of_tenant t) w.events (the_row w ∷ []),
            select-empty (event_of_tenant t) w.events ready.events,
            eq_refl t,
          )
          refl

  -- So is its version.
  pub known-Holds : (w v : World) → Held w v → any (has_version t key) v.events ≡ true
  known-Holds w v h =
      rw
        (h.events, any-append (has_version t key) w.events (the_row w ∷ []), eq_refl t, eq_refl key)
        (or-true_right (any (has_version t key) w.events) false)

  abbrev payload : IngestJobData
  payload = demo_payload t c

  -- The first step stores the event.
  pub first_step_fine :
      (w : World)
      → Ready w
      → (v : World) × (first_step host db bull random t c w ≡ done (the_row w) v)
        × Held w v
        × (v.dead_letters ≡ w.dead_letters)
  unfolding first_step await_completed enqueue
  first_step_fine w ready =
      let add = λ (u : World). record u { ingest_queue = u.ingest_queue ++ payload ∷ [] } in
      let w₁ = add (after_fault w) in
      let fine₁ : w₁.faults ≡ [] = ap later_faults ready.faults in
      let w₂ = record w₁ { ingest_queue = [] } in
      let w₃ = with_row db t taken.event key taken.hash w₂ in
      let fine₃ : w₃.faults ≡ [] = ap (λ fs. later_faults (later_faults (later_faults fs))) fine₁ in
      let held : Held w w₃ = record {
        faults = fine₃;
        ingest_queue = refl;
        tenants = refl;
        raw_records = refl;
        events = refl;
      } in
      (
        after_fault (after_fault w₃),
        rw
            (
              ◌>>=◌,
              execute_fine add w ready.faults,
              work_one host db bull random t c taken null w₁
                  (ap (λ q. q ++ payload ∷ []) ready.ingest_queue),
              life_first host db bull random t c taken w₂ fine₁ ready.events ready.new,
              query_fine (event_in host db bull random t) w₃ fine₃,
              event_in-Holds w w₃ ready held,
              query_fine (count_of host db bull random t) (after_fault w₃) (ap later_faults fine₃),
            )
            refl,
        record {
          faults = ap (λ fs. later_faults (later_faults fs)) fine₃;
          ingest_queue = refl;
          tenants = refl;
          raw_records = refl;
          events = refl;
        },
        refl,
      )

  -- Queries without faults leave all but the faults.
  pub after_fault-Held : (w v : World) → Held w v → Held w (after_fault v)
  after_fault-Held w v h = record {
    faults = ap later_faults h.faults;
    ingest_queue = h.ingest_queue;
    tenants = h.tenants;
    raw_records = h.raw_records;
    events = h.events;
  }

  -- The second step parks the payload, and the spine stays as it is.
  pub outage_step_fine :
      (w v : World)
      → Ready w
      → Held w v
      → any (λ d. d.tenant_id == t) v.dead_letters ≡ false
      → (d : DeadLetter) × (u : World) × (outage_step host db bull random t c v ≡ done d u)
        × Held w u
        × (u.dead_letters ≡ v.dead_letters ++ d ∷ [])
        × (d.payload ≡ payload)
        × (d.tenant_id ≡ t)
  unfolding outage_step enqueue build_dead_letter
  outage_step_fine w v ready h none_of =
      let add = λ (u : World). record u { ingest_queue = u.ingest_queue ++ payload ∷ [] } in
      let v₁ = add (after_fault v) in
      let fine₁ : v₁.faults ≡ [] = ap later_faults h.faults in
      let v₂ = record v₁ { ingest_queue = [] } in
      let l = life_in host db bull random (str "transient") payload v₂ in
      let (count, time, parks) = life_outage host db bull random t c taken v₂ fine₁ in
      let d = letter payload failure v₂ time in
      let v₃ = last_world l in
      let held : Held w v₃ = record {
        faults = parks.faults;
        ingest_queue = parks.ingest_queue;
        tenants = parks.tenants ∙ h.tenants;
        raw_records = parks.raw_records ∙ h.raw_records;
        events = parks.events ∙ h.events;
      } in
      let absent : any (letter_of_tenant t) v.dead_letters ≡ false =
        any-narrower (letter_of_tenant t) (λ d. d.tenant_id == t) v.dead_letters
          (λ x hit. ground arith) none_of in
      let found : letter_in host db bull random t v₃ ≡ some d =
        ap (db.dead_letters.find_one (letter_of_tenant t)) parks.letters
        ∙ find_last db.dead_letters (letter_of_tenant t) v.dead_letters d absent
            (rw (eq_refl t) refl) in
      (
        d,
        after_fault (after_fault v₃),
        rw
            (
              ◌>>=◌,
              execute_fine add v h.faults,
              work_one host db bull random t c taken (str "transient") v₁
                  (ap (λ q. q ++ payload ∷ []) h.ingest_queue),
              query_fine (letter_in host db bull random t) v₃ parks.faults,
              found,
              query_fine (count_of host db bull random t) (after_fault v₃)
                  (ap later_faults parks.faults),
            )
            refl,
        after_fault-Held w (after_fault v₃) (after_fault-Held w v₃ held),
        parks.letters,
        refl,
        refl,
      )
