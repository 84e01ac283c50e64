-- ===== src/Queue/DeadLetters/Parked.antt =====
-- What the handler of a terminal failure leaves where no call fails (src/queue/deadLetter.ts).
use shiplog_prototype.Prelude.{
  ℕ, List, true, Bool, [], ◌∷◌, ◌++◌, ◌≡◌, inl, inr, refl, ap, Bool-cases,
}
use shiplog_prototype.Host.{Host}
use shiplog_prototype.Errors.{Thrown}
use shiplog_prototype.Models.{IngestJobData, DeadLetter, JobView}
use shiplog_prototype.World.{Fault, World, Database, final, catch, ◌>>=◌, after_fault, later_faults}
use shiplog_prototype.World.Laws.{attempt_fine, execute_fine}
use shiplog_prototype.Queue.DeadLetters.{
  is_terminal_failure, build_dead_letter, create_dead_letter, park, persist_dead_letter, on_failed,
}

-- What an ingest job leaves that was given up: one dead letter more.
pub record Parks (w w' : World) (d : DeadLetter) : Type 0 where
  pub letters : w'.dead_letters ≡ w.dead_letters ++ d ∷ []
  pub tenants : w'.tenants ≡ w.tenants
  pub raw_records : w'.raw_records ≡ w.raw_records
  pub events : w'.events ≡ w.events
  pub ingest_queue : w'.ingest_queue ≡ w.ingest_queue
  pub faults : w'.faults ≡ []

-- The clock and the faults of the first world do not matter.
pub Parks-later :
    (w w' : World) (now : ℕ) (faults : List Fault) (d : DeadLetter)
    → Parks (record w { now = now; faults = faults }) w' d
    → Parks w w' d
Parks-later w w' now faults d p = record {
  letters = p.letters;
  tenants = p.tenants;
  raw_records = p.raw_records;
  events = p.events;
  ingest_queue = p.ingest_queue;
  faults = p.faults;
}

module _ (host : Host) (db : Database) (has_queue : Bool) where
  -- What the handler of a terminal failure leaves, where no call fails.
  pub on_failed-Parks :
      (job : JobView IngestJobData) (e : Thrown) (w : World)
      → w.faults ≡ []
      → is_terminal_failure job e ≡ true
      → Parks w
          (final (on_failed host db has_queue job e w))
          (build_dead_letter w.next_id w.now job e)
  unfolding on_failed persist_dead_letter create_dead_letter
  on_failed-Parks job e w fine over =
      let op = create_dead_letter host db job e in
      let doc = (op (after_fault w)).0 in
      let v = (op (after_fault w)).1 in
      elim (Bool-cases has_queue) [
        | inl given ↦
            rw
              (
                over,
                final,
                catch,
                ◌>>=◌,
                attempt_fine op w fine,
                given,
                execute_fine (park host db doc) v (ap later_faults fine),
              )
              (record {
                letters = db.dead_letters.create_lem doc w.dead_letters;
                tenants = refl;
                raw_records = refl;
                events = refl;
                ingest_queue = refl;
                faults = rw fine refl;
              })
        | inr none_given ↦
            rw (over, final, catch, ◌>>=◌, attempt_fine op w fine, none_given)
              (record {
                letters = db.dead_letters.create_lem doc w.dead_letters;
                tenants = refl;
                raw_records = refl;
                events = refl;
                ingest_queue = refl;
                faults = rw fine refl;
              })
      ]
