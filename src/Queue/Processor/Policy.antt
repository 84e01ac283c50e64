-- ===== src/Queue/Processor/Policy.antt =====
-- What a failing ingest job is rejected with (src/queue/ingestProcessor.ts).
use shiplog_prototype.Prelude.{ℕ, Option, none, some, ◌≡◌, ◌⊎◌, inl, inr, refl, arith, Option-cases}
use shiplog_prototype.Value.{Value}
use shiplog_prototype.Host.{Host}
use shiplog_prototype.Errors.{Thrown, ErrorKind, transient, logical, classify_error, option_or}
use shiplog_prototype.Ingest.{IngestResult}
use shiplog_prototype.Errors.Classifier.{IsRetryable, classify_error-transient_iff}
use shiplog_prototype.Models.{IngestJobData, JobView}
use shiplog_prototype.World.{World, Database, done, fail, catch}
use shiplog_prototype.World.Laws.{Run-cases}
use shiplog_prototype.Queue.Processor.{
  policy, with_delay, unrecoverable, process, apply_policy, ingest_processor,
}

-- How a job ends that failed with `e`: rejected for good, or open to a retry that waits as long as
-- the error, or the answer it came with, asked for.
pub data Rejects (host : Host) (now : ℕ) (e : Thrown) : Thrown → Type 0 where
  gives_up : (IsRetryable e → ⊥) → Rejects host now e (unrecoverable e)
  retries :
      (e' : Thrown)
      → IsRetryable e
      → e'.name ≡ e.name
      → e'.message ≡ e.message
      → e'.retry_after_ms
        ≡ option_or e.retry_after_ms (classify_error host now (some e)).retry_after_ms
      → Rejects host now e e'

with_delay_lem :
    (e : Thrown) (d : Option ℕ)
    → ((with_delay e d).name ≡ e.name)
      × ((with_delay e d).message ≡ e.message)
      × ((with_delay e d).retry_after_ms ≡ option_or e.retry_after_ms d)
unfolding with_delay
with_delay_lem e none = (refl, refl, ground arith)
with_delay_lem e (some ms) = elim (Option-cases e.retry_after_ms) [
  | inl n ↦ rw n (refl, refl, refl)
  | inr (m, n) ↦ rw n (refl, refl, refl)
]

module _ (host : Host) (db : Database) where
  policy-Rejects :
      (now : ℕ) (e : Thrown) (k : ErrorKind)
      → (classify_error host now (some e)).kind ≡ k
      → Rejects host now e (policy e (classify_error host now (some e)))
  unfolding policy
  policy-Rejects now e logical h =
      rw h (gives_up (λ r. let t = (classify_error-transient_iff host now e).1 r in cc))
  policy-Rejects now e transient h =
      let (name, message, delay) =
        with_delay_lem e (classify_error host now (some e)).retry_after_ms in
      rw h (retries _ ((classify_error-transient_iff host now e).0 h) name message delay)

  -- A job returns exactly what its `try` block returns; where that throws, at any point, the job is
  -- rejected as unrecoverable if the error is not retryable, and otherwise keeps the error's name and
  -- message and carries the delay that the error, or a Retry-After header, asked for.
  pub ingest_processor-Rejects :
      (job : JobView IngestJobData) (mode : Value) (w : World)
      → ((a : IngestResult) × (w' : World) × (process host db job.job_data mode w ≡ done a w')
          × (ingest_processor host db job mode w ≡ done a w'))
        ⊎ ((e e' : Thrown) × (w' : World) × (process host db job.job_data mode w ≡ fail e w')
            × (ingest_processor host db job mode w ≡ fail e' w')
            × Rejects host w'.now e e')
  unfolding ingest_processor apply_policy
  ingest_processor-Rejects job mode w = elim (Run-cases (process host db job.job_data mode w)) [
    | inl (a, w', r) ↦ inl (a, w', r, rw (catch, r))
    | inr (e, w', r) ↦ inr (
      e,
      policy e (classify_error host w'.now (some e)),
      w',
      r,
      rw (catch, r),
      policy-Rejects w'.now e _ refl,
    )
  ]
