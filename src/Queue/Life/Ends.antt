-- ===== src/Queue/Life/Ends.antt =====
-- How the life of an ingest job goes and ends.
use shiplog_prototype.Prelude.{
  ℕ, zero, suc, ◌+◌, ◌*◌, ◌^◌, ◌≤◌, ◌<◌, Bool, true, false, Option, none, some, ◌≡◌, ◌≢◌, ◌⊎◌, inl,
  inr, refl, arith, min, Bool-cases, ◌==◌, eq_iff,
}
use native.Mathlib.Decide.{dec_lt}
use shiplog_prototype.Value.{Value}
use shiplog_prototype.Host.{Host}
use shiplog_prototype.Errors.{Thrown}
use shiplog_prototype.Errors.Classifier.{IsRetryable}
use shiplog_prototype.Models.{IngestJobData}
use shiplog_prototype.Backoff.{Fraction, BackoffOptions, default_options, compute_backoff}
use shiplog_prototype.Backoff.Bounds.{IsRandom, compute_backoff_bounds}
use shiplog_prototype.World.{World, Database, done, fail, final, fine, next_fault}
use shiplog_prototype.Ingest.{IngestResult}
use shiplog_prototype.Queue.DeadLetters.{is_terminal_failure}
use shiplog_prototype.Queue.DeadLetters.Terminal.{
  is_terminal_failure_iff, WithDocument, on_failed-parks,
}
use shiplog_prototype.Queue.Processor.{process}
use shiplog_prototype.Queue.Processor.Policy.{Rejects, gives_up, retries, ingest_processor-Rejects}
use shiplog_prototype.Queue.Workers.{backoff_strategy, ingest_job, Worker, create_ingest_worker}
use shiplog_prototype.Queue.Life.{
  Bull, Life, completed, gave_up, retried, unfinished, after_attempt, run_job, attempts,
}

-- An error that BullMQ may retry came from one that is worth a retry.
Rejects-IsRetryable :
    {host : Host} {now : ℕ} {e e' : Thrown}
    → Rejects host now e e'
    → e'.name ≢ "UnrecoverableError"
    → IsRetryable e
Rejects-IsRetryable (gives_up not_again) h = absurd (h refl)
Rejects-IsRetryable (retries e' yes_again _ _ _) h = yes_again

-- The wait after `n` failures and one: what was asked for, or else at least the exponential delay (or
-- 30 seconds, if that is less) and at most 30 seconds.
abbrev pub Waits : ℕ → ℕ → Option ℕ → ℕ → Type 0
Waits base_ms n none delay = (min 30000 (base_ms * 2 ^ n) ≤ delay) × (delay ≤ 30000)
Waits base_ms n (some ms) delay = delay ≡ ms

pub backoff_strategy-Waits :
    (base_ms n : ℕ) (rng : Fraction) (e : Thrown) (o : Option ℕ)
    → e.retry_after_ms ≡ o
    → IsRandom rng
    → Waits base_ms n o (backoff_strategy base_ms rng (suc n) (some e))
unfolding backoff_strategy compute_backoff
backoff_strategy-Waits base_ms n rng e (some ms) given random = rw given refl
backoff_strategy-Waits base_ms n rng e none given random =
    let o : BackoffOptions = record default_options {
      base_ms = base_ms;
      retry_after_ms = e.retry_after_ms;
    } in
    let (low, _, high) =
      compute_backoff_bounds n o rng random (record { proper = omega arith; small = omega arith })
        given in
    (low, high)

module _ (host : Host) (db : Database) (base_ms : ℕ) (has_queue : Bool) (mode : ℕ → Value)
    (meanwhile : ℕ → ℕ → World → World) (d : IngestJobData) where
  -- The life of the job from the attempt after `n` others on, which begins in the world `w`.
  abbrev pub Lives : ℕ → World → Life IngestResult → Type 0
  Lives n w (completed r w') = process host db d (mode w.now) w ≡ done r w'
  Lives n w (gave_up e' w') =
      (e : Thrown) × (v : World) × (process host db d (mode w.now) w ≡ fail e v)
      × Rejects host v.now e e'
      × ((e'.name ≡ "UnrecoverableError") ⊎ (suc n ≡ 5))
      × (next_fault v.faults ≡ fine → WithDocument host db has_queue (ingest_job d (suc n)) e' v w')
  Lives n w (retried e' delay w' rest) =
      (e : Thrown) × (process host db d (mode w.now) w ≡ fail e w')
      × Rejects host w'.now e e'
      × IsRetryable e
      × (suc n < 5)
      × Waits base_ms n e'.retry_after_ms delay
      × Lives (suc n) (meanwhile (suc n) delay w') rest
  Lives n w (unfinished w') = ⊥

  attempts_bound :
      (n : ℕ) (w : World) (l : Life IngestResult) → n < 5 → Lives n w l → n + attempts l ≤ 5
  attempts_bound n w (completed r w') less h = omega arith
  attempts_bound n w (gave_up e w') less h = omega arith
  attempts_bound n w (retried e delay w' rest) less (_, _, _, _, more, _, h) =
      omega (arith, attempts_bound (suc n) (meanwhile (suc n) delay w') rest more h)
  attempts_bound n w (unfinished w') less h = elim h [ ]

-- BullMQ gives up only on an unrecoverable error or after the fifth attempt.
pub given_up_why :
    (bull : Bull) (n : ℕ) (e : Thrown)
    → n < 5
    → bull.retries (suc n) 5 e ≡ false
    → (e.name ≡ "UnrecoverableError") ⊎ (suc n ≡ 5)
given_up_why bull n e less over = elim (Bool-cases (e.name == "UnrecoverableError")) [
  | inl same ↦ inl ((eq_iff e.name "UnrecoverableError").0 same)
  | inr other ↦ elim (dec_lt (suc n) 5) [
    | yes more ↦
        let named : e.name ≢ "UnrecoverableError" =
          λ same. let equal = (eq_iff e.name "UnrecoverableError").1 same in cc in
        let again = (bull.retries_iff (suc n) 5 e).1 (named, more) in cc
    | no last ↦ inr (omega arith)
  ]
]

module _ (bull : Bull) (d : IngestJobData) where
  -- BullMQ retries no failure that the handler takes for terminal, and every other one.
  pub retried-not_terminal :
      (n : ℕ) (e : Thrown)
      → bull.retries (suc n) 5 e ≡ true
      → is_terminal_failure (ingest_job d (suc n)) e ≡ false
  retried-not_terminal n e again =
      let (named, less) = (bull.retries_iff (suc n) 5 e).0 again in
      elim (Bool-cases (is_terminal_failure (ingest_job d (suc n)) e)) [
        | inr other ↦ other
        | inl over ↦ elim ((is_terminal_failure_iff (ingest_job d (suc n)) e).0 over) [
          | inl same ↦ absurd (named same)
          | inr used ↦ absurd (omega arith)
        ]
      ]

  pub given_up-terminal :
      (n : ℕ) (e : Thrown)
      → n < 5
      → bull.retries (suc n) 5 e ≡ false
      → ((e.name ≡ "UnrecoverableError") ⊎ (suc n ≡ 5))
        × (is_terminal_failure (ingest_job d (suc n)) e ≡ true)
  given_up-terminal n e less over =
      let complete = (is_terminal_failure_iff (ingest_job d (suc n)) e).1 in
      elim (given_up_why bull n e less over) [
        | inl named ↦ (inl named, complete (inl named))
        | inr last ↦ (inr last, complete (inr (omega arith)))
      ]

module _ (host : Host) (db : Database) (bull : Bull) (base_ms : ℕ) (random : ℕ → Fraction)
    (has_queue : Bool) (mode : ℕ → Value) (meanwhile : ℕ → ℕ → World → World) (d : IngestJobData)
    (drawn : (n : ℕ) → IsRandom (random n)) where
  abbrev Goes : ℕ → World → Life IngestResult → Type 0
  Goes = Lives host db base_ms has_queue mode meanwhile d

  abbrev worker : Worker IngestJobData IngestResult
  worker = create_ingest_worker host db base_ms random has_queue mode

  abbrev next : ℕ → ℕ → ℕ → World → Life IngestResult
  next fuel n delay v =
      run_job bull worker meanwhile (ingest_job d) fuel (suc n) (meanwhile (suc n) delay v)

  -- An attempt that failed, where the rest of the life is as it should be.
  failed-Lives :
      (fuel n : ℕ) (w v : World) (e e' : Thrown)
      → n < 5
      → process host db d (mode w.now) w ≡ fail e v
      → Rejects host v.now e e'
      → ((delay : ℕ) → suc n < 5 → Goes (suc n) (meanwhile (suc n) delay v) (next fuel n delay v))
      → Goes n w (after_attempt bull worker meanwhile (ingest_job d) n (next fuel n) (fail e' v))
  unfolding after_attempt create_ingest_worker
  failed-Lives fuel n w v e e' less p rej ih =
      let (w', handled, quiet, parks) =
        on_failed-parks host db has_queue (ingest_job d (suc n)) e' v in
      elim (Bool-cases (bull.retries (suc n) 5 e')) [
        | inl again ↦
            let (named, more) = (bull.retries_iff (suc n) 5 e').0 again in
            let same = quiet (retried-not_terminal bull d n e' again) in
            rw (after_attempt, again, handled, final, same)
              (
                e,
                p,
                rej,
                Rejects-IsRetryable rej named,
                more,
                backoff_strategy-Waits base_ms n (random (suc n)) e' e'.retry_after_ms refl
                    (drawn (suc n)),
                ih (backoff_strategy base_ms (random (suc n)) (suc n) (some e')) more,
              )
        | inr over ↦
            let (why, terminal) = given_up-terminal bull d n e' less over in
            rw (after_attempt, over, handled, final) (e, v, p, rej, why, parks terminal)
      ]

  run_job-Lives :
      (fuel n : ℕ) (w : World)
      → n < 5
      → 5 ≤ n + fuel
      → Goes n w (run_job bull worker meanwhile (ingest_job d) fuel n w)
  unfolding run_job create_ingest_worker
  run_job-Lives zero n w less enough = absurd (omega arith)
  run_job-Lives (suc fuel) n w less enough =
      elim (ingest_processor-Rejects host db (ingest_job d n) (mode w.now) w) [
        | inl (r, w', p, q) ↦ rw (q, after_attempt) p
        | inr (e, e', v, p, q, rej) ↦ rw q (
            failed-Lives fuel n w v e e' less p rej (λ delay more.
              run_job-Lives fuel (suc n) (meanwhile (suc n) delay v) more (omega arith)))
      ]

  -- The life of an ingest job, whichever calls fail, whatever the normalizer throws and whatever
  -- happens to the world between its attempts. It ends within five attempts. It completes with what
  -- its last attempt returned. It is tried again only after an error that is worth a retry; then the
  -- handler of the failure has written nothing, and the wait is the one that was asked for, or lies
  -- between the exponential delay and the cap. It is given up only on an unrecoverable error or after
  -- the fifth attempt, and then the payload is stored as a dead letter, unless that call fails.
  pub run_job-ingest :
      (w : World)
      → let life = run_job bull worker meanwhile (ingest_job d) 5 0 w in
        Goes 0 w life × (attempts life ≤ 5)
  run_job-ingest w =
      let life = run_job bull worker meanwhile (ingest_job d) 5 0 w in
      let lives = run_job-Lives 5 0 w (omega arith) (omega arith) in
      (
        lives,
        omega (
          arith,
          attempts_bound host db base_ms has_queue mode meanwhile d 0 w life (omega arith) lives,
        ),
      )
