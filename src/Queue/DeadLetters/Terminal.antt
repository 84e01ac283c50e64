-- ===== src/Queue/DeadLetters/Terminal.antt =====
-- When a failed job is dead-lettered, and what is stored (src/queue/deadLetter.ts).
use shiplog_prototype.Prelude.{
  ◌≤◌, Bool, true, false, [], ◌∷◌, ◌++◌, ◌≡◌, ◌↔◌, ◌⊎◌, inl, inr, refl, arith, ◌==◌, eq_iff,
  Bool-cases,
}
use shiplog_prototype.Host.{Host}
use shiplog_prototype.Errors.{Thrown}
use shiplog_prototype.Models.{IngestJobData, JobView}
use shiplog_prototype.World.{
  World, Database, done, final, after_fault, catch, ◌>>=◌, next_fault, fine,
}
use shiplog_prototype.World.Laws.{execute-cases, attempt_works, Run-cases}
use shiplog_prototype.Queue.DeadLetters.{
  or_number, is_terminal_failure, build_dead_letter, create_dead_letter, park, persist_dead_letter,
  on_failed,
}

-- A failure is terminal exactly when the error is unrecoverable or the attempts are used up, where a
-- job without a limit has one attempt.
pub is_terminal_failure_iff :
    (job : JobView IngestJobData) (e : Thrown)
    → (is_terminal_failure job e ≡ true) ↔ (
        (e.name ≡ "UnrecoverableError")
        ⊎ (or_number job.attempts 1 ≤ or_number job.attempts_made 0))
unfolding is_terminal_failure
is_terminal_failure_iff job e = elim (Bool-cases (e.name == "UnrecoverableError")) [
  | inl named ↦ (λ _. inl ((eq_iff e.name "UnrecoverableError").0 named), λ _. rw named refl)
  | inr other ↦ (
    λ h. inr (ground arith),
    elim [
      | inl same ↦ ground (arith, eq_iff e.name "UnrecoverableError")
      | inr used ↦ ground arith
    ],
  )
]

module _ (host : Host) (db : Database) (has_queue : Bool) (job : JobView IngestJobData)
    (e : Thrown) where
  -- What `DeadLetter.create` leaves.
  abbrev pub WithDocument : World → World → Type 0
  WithDocument w w' =
      w'.dead_letters ≡ w.dead_letters ++ build_dead_letter w.next_id w.now job e ∷ []

  create-WithDocument :
      (w : World) → WithDocument w (create_dead_letter host db job e (after_fault w)).1
  unfolding create_dead_letter
  create-WithDocument w = db.dead_letters.create_lem _ w.dead_letters

  -- Once the document is created, it stays, whether or not it can be parked on the queue.
  persist-WithDocument :
      (w : World)
      → next_fault w.faults ≡ fine
      → WithDocument w (final (persist_dead_letter host db has_queue job e w))
  unfolding persist_dead_letter
  persist-WithDocument w works =
      let op = create_dead_letter host db job e in
      let doc = (op (after_fault w)).0 in
      let w₁ = (op (after_fault w)).1 in
      elim (Bool-cases has_queue) [
        | inr none_given ↦
            rw (final, ◌>>=◌, attempt_works op w works, none_given) (create-WithDocument w)
        | inl given ↦ elim (execute-cases (park host db doc) w₁) [
          | inl x ↦ rw (final, ◌>>=◌, attempt_works op w works, given, x) (create-WithDocument w)
          | inr (inl (_, x)) ↦
              rw (final, ◌>>=◌, attempt_works op w works, given, x) (create-WithDocument w)
          | inr (inr (_, x)) ↦
              rw (final, ◌>>=◌, attempt_works op w works, given, x) (create-WithDocument w)
        ]
      ]

  -- The handler of a failed job never throws. It writes nothing for a failure that is not terminal;
  -- for a terminal one whose first call works it stores exactly one document with the job's payload,
  -- also where the document cannot be parked on the dlq queue.
  pub on_failed-parks :
      (w : World)
      → (w' : World) × (on_failed host db has_queue job e w ≡ done tt w')
        × (is_terminal_failure job e ≡ false → w' ≡ w)
        × (is_terminal_failure job e ≡ true → next_fault w.faults ≡ fine → WithDocument w w')
  unfolding on_failed
  on_failed-parks w = elim (Bool-cases (is_terminal_failure job e)) [
    | inr retried ↦ (w, rw retried, λ _. refl, λ t works. cc)
    | inl over ↦ elim (Run-cases (persist_dead_letter host db has_queue job e w)) [
      | inl (d, w', x) ↦ (
        w',
        rw (over, catch, ◌>>=◌, x),
        λ r. cc,
        λ _ works. rw (x, final) at (persist-WithDocument w works),
      )
      | inr (t, w', x) ↦ (
        w',
        rw (over, catch, ◌>>=◌, x),
        λ r. cc,
        λ _ works. rw (x, final) at (persist-WithDocument w works),
      )
    ]
  ]
