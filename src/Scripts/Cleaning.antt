-- ===== src/Scripts/Cleaning.antt =====
-- scripts/clean-demo.ts: what is deleted of the demonstrations.
use shiplog_prototype.Prelude.{ℕ, Bool, true, false, Option, none, some}
use shiplog_prototype.Models.{Event, DeadLetter}
use shiplog_prototype.World.{World, Database, M, ◌>>=◌, attempt}
use shiplog_prototype.Api.{after_prefix}
use shiplog_prototype.Scripts.{exit_with, main}

abbrev pub is_given {ℓ} : {A : Type ℓ} → Option A → Bool
is_given none = false
is_given (some a) = true

-- `{ externalId: { $regex: '^commit:demo-' } }`.
pub is_demo_event : Event → Bool
is_demo_event e = is_given (after_prefix "commit:demo-" e.external_id)

-- `{ 'payload.demoFault.id': { $exists: true } }`.
abbrev pub is_demo_letter : DeadLetter → Bool
is_demo_letter d = is_given d.payload.demo_fault

module _ (db : Database) where
  -- The two calls, which answer how many documents they deleted.
  abbrev pub delete_events : World → ℕ × World
  delete_events w =
      let (rows, n) = db.events.delete_many is_demo_event w.events in
      (n, record w { events = rows })

  abbrev pub delete_letters : World → ℕ × World
  delete_letters w =
      let (rows, n) = db.dead_letters.delete_many is_demo_letter w.dead_letters in
      (n, record w { dead_letters = rows })

  -- The script.
  pub clean_demo : M ℕ
  clean_demo = main (do _ ← attempt delete_events; _ ← attempt delete_letters; exit_with 0)
