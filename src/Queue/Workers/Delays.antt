-- ===== src/Queue/Workers/Delays.antt =====
-- The way of an ingest job that keeps failing: how long it waits, and when it is given up.
use shiplog_prototype.Prelude.{
  ◌-◌, ◌==◌, String, false, ℕ, suc, ◌*◌, ◌^◌, ◌≤◌, true, none, some, ◌≡◌, ◌≢◌, ◌↔◌, inl, inr, refl,
  arith, min,
}
use shiplog_prototype.Text.{decimal, trim, is_decimal}
use shiplog_prototype.Value.{str, get}
use shiplog_prototype.Host.{Host}
use shiplog_prototype.Errors.{
  is_network_code, option_or, parse_retry_after, retry_after_text, classify_tagged,
  classify_untagged, classify_status, Thrown, classify_error,
}
use shiplog_prototype.Text.Laws.{is_decimal-decimal, number_of-decimal}
use shiplog_prototype.Models.{IngestJobData}
use shiplog_prototype.Backoff.{Fraction, BackoffOptions, default_options, compute_backoff}
use shiplog_prototype.Backoff.Bounds.{IsRandom, compute_backoff_bounds}
use shiplog_prototype.Queue.DeadLetters.{is_terminal_failure}
use shiplog_prototype.Queue.DeadLetters.Terminal.{is_terminal_failure_iff}
use shiplog_prototype.Queue.Processor.{policy, with_delay}
use shiplog_prototype.Queue.Workers.{backoff_strategy, ingest_attempts, ingest_job}

-- What a Retry-After header asks for at a time, in milliseconds: a number of seconds, or the time
-- until a date, none if it is over. Spaces around it do not matter.
pub data Asks (host : Host) (now : ℕ) (header : String) (ms : ℕ) : Type 0 where
  in_seconds : (n : ℕ) → trim header ≡ decimal n → ms ≡ n * 1000 → Asks host now header ms
  until_date :
      (t : ℕ)
      → is_decimal (trim header) ≡ false
      → host.parse_date (trim header) ≡ some t
      → ms ≡ t - now
      → Asks host now header ms

-- An error of an API, without a tag of the repository's own, with status 429 and this header.
pub record IsRateLimit (e : Thrown) (header : String) : Type 0 where
  pub untagged : e.kind ≡ none
  pub no_schema : (e.name == "ZodError") ≡ false
  pub no_network : is_network_code e.code ≡ false
  pub status : option_or e.status_code e.status ≡ some 429
  pub asks_by_header : e.retry_after_ms ≡ none
  pub header_is : get "retry-after" e.headers ≡ str header

retry_after-Asks :
    (host : Host) (now : ℕ) (header : String) (ms : ℕ)
    → Asks host now header ms
    → parse_retry_after host now (str header) ≡ some ms
unfolding parse_retry_after retry_after_text
retry_after-Asks host now header ms (in_seconds n is_text is_ms) =
    rw (is_text, is_decimal-decimal n, number_of-decimal n, is_ms) refl
retry_after-Asks host now header ms (until_date t no_number is_date is_ms) =
    rw (no_number, is_date, is_ms) refl

-- What the Retry-After header of a rate limit asks for, in seconds or as a date, is what the worker
-- waits, whatever the attempt, the base delay and the random number: the header passes through the
-- classifier and the processor's error policy to the strategy.
pub backoff_strategy-rate_limited :
    (host : Host) (now base_ms attempts_made : ℕ) (rng : Fraction) (e : Thrown) (header : String)
    (ms : ℕ)
    → IsRateLimit e header
    → Asks host now header ms
    → backoff_strategy base_ms rng attempts_made
        (some (policy e (classify_error host now (some e))))
      ≡ ms
unfolding backoff_strategy compute_backoff policy with_delay classify_error classify_tagged
    classify_untagged classify_status
backoff_strategy-rate_limited host now base_ms attempts_made rng e header ms limit asks =
    rw
      (
        limit.untagged,
        limit.no_schema,
        limit.no_network,
        limit.status,
        limit.asks_by_header,
        limit.header_is,
        retry_after-Asks host now header ms asks,
      )
      refl

-- Where an ingest job fails with an error that is not unrecoverable and asks for no delay, the failure
-- is terminal exactly from the fifth attempt on, and a retry waits at least the exponential delay (or
-- 30 seconds, if that is less) and at most 30 seconds.
ingest_job_schedule :
    (d : IngestJobData) (e : Thrown) (n base_ms : ℕ) (rng : Fraction)
    → e.name ≢ "UnrecoverableError"
    → e.retry_after_ms ≡ none
    → IsRandom rng
    → ((is_terminal_failure (ingest_job d (suc n)) e ≡ true) ↔ (ingest_attempts ≤ suc n))
      × (min 30000 (base_ms * 2 ^ n) ≤ backoff_strategy base_ms rng (suc n) (some e))
      × (backoff_strategy base_ms rng (suc n) (some e) ≤ 30000)
unfolding backoff_strategy
ingest_job_schedule d e n base_ms rng named none_given random =
    let (sound, complete) = is_terminal_failure_iff (ingest_job d (suc n)) e in
    let o : BackoffOptions = record default_options {
      base_ms = base_ms;
      retry_after_ms = e.retry_after_ms;
    } in
    let (low, _, high) =
      compute_backoff_bounds n o rng random (record { proper = omega arith; small = omega arith })
        none_given in
    (
      (
        λ t. elim (sound t) [ inl same ↦ absurd (named same) | inr used ↦ used ],
        λ used. complete (inr used),
      ),
      low,
      high,
    )
