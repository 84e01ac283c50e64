-- ===== src/Queue/Life/Healing.antt =====
-- A job with a self-healing fault, from its first attempt through the dead letter and the replay to
-- the attempt that works.
use shiplog_prototype.Prelude.{
  ℕ, String, Bool, true, false, none, some, [], ◌∷◌, ◌++◌, ◌≡◌, ◌≢◌, refl, ◌∙◌, arith, any,
  any-append, eq_iff, eq_refl, nat_eq, ◌==◌,
}
use shiplog_prototype.Value.{Value}
use shiplog_prototype.Host.{Host}
use shiplog_prototype.Errors.{Thrown, transient_error}
use shiplog_prototype.Models.{IngestJobData}
use shiplog_prototype.Backoff.{Fraction}
use shiplog_prototype.World.{World, Database, done, after_fault, later_faults}
use shiplog_prototype.Ingest.{IngestResult}
use shiplog_prototype.Queue.DeadLetters.{build_dead_letter}
use shiplog_prototype.Queue.Processor.{has_fault, ingest_processor}
use shiplog_prototype.Queue.Processor.Faults.{ingest_processor_heals}
use shiplog_prototype.Queue.Workers.{ingest_job}
use shiplog_prototype.Queue.Life.{Bull, Life, attempts, last_world}
use shiplog_prototype.Mongo.{IsFound-last, any-IsUpdate}
use shiplog_prototype.Queue.Requeue.{is_item, stamp, replay_dead_letter}
use shiplog_prototype.Queue.Requeue.Verbatim.{replay_dead_letter-IsFound}
use shiplog_prototype.Queue.Life.Outage.{letter, life_of, Suffers, life_of-Suffers}

-- The injected failure.
abbrev pub outage : Thrown
outage =
    transient_error "injected transient outage (demo) — recovers after dead-lettering" (some 503)

outage_name : outage.name ≢ "UnrecoverableError"
outage_name e = let h = (eq_iff "TransientError" "UnrecoverableError").1 e in cc

module _ (host : Host) (db : Database) (bull : Bull) (base_ms : ℕ) (random : ℕ → Fraction)
    (has_queue : Bool) (mode : ℕ → Value) (d : IngestJobData) where
  module _ (id : String) (given : d.demo_fault ≡ some id) (named : (id == "") ≡ false) where
    abbrev Sick : World → Type 0
    Sick w = any (has_fault d.tenant_id id) w.dead_letters ≡ false

    abbrev life : World → Life IngestResult
    life w = life_of host db bull base_ms random has_queue mode d 5 0 w

    life-Suffers :
        (w : World)
        → w.faults ≡ []
        → Sick w
        → Suffers host db bull base_ms random has_queue mode d outage outage_name 0 w (life w)
    life-Suffers w fine sick =
        life_of-Suffers host db bull base_ms random has_queue mode d outage outage_name
          (λ ls. any (has_fault d.tenant_id id) ls ≡ false) later_faults refl
          (λ n v f s.
            (ingest_processor_heals host db (ingest_job d n) id (mode v.now) v f given named).0 s)
          w fine sick

    letter-is_item :
        (w : World) (t : ℕ)
        → any (is_item host (host.object_id w.next_id) d.tenant_id) (letter d outage w t ∷ [])
          ≡ true
    unfolding build_dead_letter
    letter-is_item w t =
        rw
          (
            host.to_object_id-object_id w.next_id,
            eq_refl (host.object_id w.next_id),
            eq_refl d.tenant_id,
          )
          refl

    letter-has_fault :
        (w : World) (t : ℕ) → any (has_fault d.tenant_id id) (letter d outage w t ∷ []) ≡ true
    unfolding build_dead_letter
    letter-has_fault w t = rw (eq_refl d.tenant_id, given, eq_refl id) refl

    -- A job with the self-healing fault of a demonstration, where no call fails and nothing else
    -- happens: the fault is in no dead letter yet, and none has the next free id. All five attempts
    -- fail, nothing is written to the spine, and the job's payload becomes a dead letter. Its replay
    -- queues the payload unchanged, and from then on the job runs as the same job without the fault.
    pub outage_heals :
        (w : World)
        → w.faults ≡ []
        → Sick w
        → any (is_item host (host.object_id w.next_id) d.tenant_id) w.dead_letters ≡ false
        → let v = last_world (life w) in
          (attempts (life w) ≡ 5)
          × (v.events ≡ w.events)
          × ((t : ℕ) × (v.dead_letters ≡ w.dead_letters ++ letter d outage w t ∷ []))
          × (w' : World) × (replay_dead_letter host db (host.object_id w.next_id) d.tenant_id v
              ≡ done
                  (some (record {
                    replayed = true;
                    dead_letter_id = host.object_id w.next_id;
                    payload = d;
                  }))
                  w')
          × (w'.ingest_queue ≡ w.ingest_queue ++ d ∷ [])
          × ((m : Value)
              → ingest_processor host db (ingest_job d 0) m w'
                ≡ ingest_processor host db
                    (ingest_job (record d { demo_fault = none }) 0)
                    m
                    (after_fault w'))
    unfolding build_dead_letter
    outage_heals w fine sick unused =
        let id' = host.object_id w.next_id in
        let v = last_world (life w) in
        let (count, t, parks) = life-Suffers w fine sick in
        let p = is_item host id' d.tenant_id in
        let there : any p v.dead_letters ≡ true =
          rw (parks.letters, any-append p w.dead_letters (letter d outage w t ∷ []), unused)
            (letter-is_item w t) in
        let (x, w', found, replayed, queued, stamped, fine', _) =
          replay_dead_letter-IsFound host db id' d.tenant_id v parks.faults there in
        let same =
          IsFound-last p x (letter d outage w t) w.dead_letters (rw parks.letters at found)
            unused in
        let healed : any (has_fault d.tenant_id id) w'.dead_letters ≡ true =
          any-IsUpdate (has_fault d.tenant_id id) (λ y. nat_eq y.id x.id) (stamp v.now)
            v.dead_letters w'.dead_letters (λ y. refl) stamped
          ∙ rw
              (
                parks.letters,
                any-append (has_fault d.tenant_id id) w.dead_letters (letter d outage w t ∷ []),
                sick,
              )
              (letter-has_fault w t) in
        (
          omega arith,
          parks.events,
          (t, parks.letters),
          w',
          rw same at replayed,
          queued ∙ rw (parks.ingest_queue, same) refl,
          λ m. (ingest_processor_heals host db (ingest_job d 0) id m w' fine' given named).1 healed,
        )
