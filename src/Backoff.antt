-- ===== src/Backoff.antt =====
-- src/queue/backoff.ts: `computeBackoff`. The random number and the jitter ratio are fractions, and
-- the delay is the floor of the exact value, where the source rounds in floating point.
pub mod Bounds
use shiplog_prototype.Prelude.{ℕ, zero, suc, ◌+◌, ◌*◌, ◌/◌, ◌^◌, Option, none, some, min}

-- `over / under`.
pub record Fraction : Type 0 where
  pub over : ℕ
  pub under : ℕ

pub record BackoffOptions : Type 0 where
  pub retry_after_ms : Option ℕ
  pub base_ms : ℕ
  pub factor : ℕ
  pub jitter_ratio : Fraction
  pub cap_ms : ℕ

-- The defaults of the parameter.
abbrev pub default_options : BackoffOptions
default_options = record {
  retry_after_ms = none;
  base_ms = 1000;
  factor = 2;
  jitter_ratio = record { over = 1; under = 4 };
  cap_ms = 30000;
}

-- `baseMs * factor ** (attemptsMade - 1)`, as a fraction since the exponent may be -1.
unfoldable pub exponential : BackoffOptions → ℕ → Fraction
exponential o zero = record { over = o.base_ms; under = o.factor }
exponential o (suc n) = record { over = o.base_ms * o.factor ^ n; under = 1 }

-- `Math.floor(exponential + rng() * exponential * jitterRatio)`.
unfoldable pub jittered : Fraction → Fraction → Fraction → ℕ
jittered e rng ratio =
    (e.over * (rng.under * ratio.under + rng.over * ratio.over))
    / (e.under * (rng.under * ratio.under))

-- `computeBackoff(attemptsMade, options)` where `rng()` returns the given fraction.
unfoldable pub compute_backoff : ℕ → BackoffOptions → Fraction → ℕ
unfolding exponential jittered
compute_backoff attempts_made o rng = elim o.retry_after_ms [
  | some ms ↦ ms
  | none ↦ min o.cap_ms (jittered (exponential o attempts_made) rng o.jitter_ratio)
]
