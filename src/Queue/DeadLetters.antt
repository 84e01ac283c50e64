-- ===== src/Queue/DeadLetters.antt =====
-- src/queue/deadLetter.ts, and the `failed` handler of src/queue/ingestWorker.ts.
pub mod Terminal
pub mod Parked
use shiplog_prototype.Prelude.{
  ℕ, suc, String, Bool, true, false, ◌||◌, Option, none, some, List, [], ◌∷◌, ◌++◌, leb, ◌==◌,
  if◌then◌else◌,
}
use shiplog_prototype.Host.{Host}
use shiplog_prototype.Errors.{Thrown}
use shiplog_prototype.Models.{IngestJobData, DeadLetter, JobView, DlqJobData}
use shiplog_prototype.World.{
  World, Database, M, Run, done, fail, ◌>>=◌, ◌>>◌, return, throw, catch, attempt, execute,
}

abbrev pub or_number : Option ℕ → ℕ → ℕ
or_number none n = n
or_number (some m) n = m

-- `isTerminalFailure(job, err)`.
pub is_terminal_failure : JobView IngestJobData → Thrown → Bool
is_terminal_failure job e =
    if e.name == "UnrecoverableError"
    then true
    else leb (or_number job.attempts 1) (or_number job.attempts_made 0)

-- `buildDeadLetterDoc(job, err)`, of a document that gets this id at this time.
unfoldable pub build_dead_letter : ℕ → ℕ → JobView IngestJobData → Thrown → DeadLetter
build_dead_letter id now job e = record {
  id = id;
  tenant_id = job.job_data.tenant_id;
  connection_id = job.job_data.connection_id;
  sync_run_id = job.job_data.sync_run_id;
  payload = job.job_data;
  error_message = e.message;
  error_stack = e.stack;
  attempts_made = job.attempts_made;
  failed_at = now;
  replayed_at = none;
}

module _ (host : Host) (db : Database) where
  -- `DeadLetter.create(doc)`.
  pub create_dead_letter : JobView IngestJobData → Thrown → World → DeadLetter × World
  create_dead_letter job e w =
      let doc = build_dead_letter w.next_id w.now job e in
      (
        doc,
        record w {
          dead_letters = db.dead_letters.create doc w.dead_letters;
          next_id = suc w.next_id;
        },
      )

  -- `dlqQueue.add('dead-letter', …)`.
  abbrev pub park : DeadLetter → World → World
  park doc w = record w {
    dlq_queue =
        w.dlq_queue
        ++ record { dead_letter_id = host.object_id doc.id; payload = doc.payload } ∷ [];
  }

  -- `persistDeadLetter(job, err, { dlqQueue })`, with whether there is a dlq queue.
  pub persist_dead_letter : Bool → JobView IngestJobData → Thrown → M DeadLetter
  persist_dead_letter has_queue job e = do
    doc ← attempt (create_dead_letter job e)
    _ ← (if has_queue then execute (park doc) else return tt)
    return doc

  -- The worker's handler of a `failed` event: what it throws is only logged.
  pub on_failed : Bool → JobView IngestJobData → Thrown → M (Unit {0})
  on_failed has_queue job e =
      let persisted =
        catch (persist_dead_letter has_queue job e >>= λ _. return tt) (λ _. return tt) in
      if is_terminal_failure job e then persisted else return tt
