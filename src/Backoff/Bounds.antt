-- ===== src/Backoff/Bounds.antt =====
-- Bounds of the delay.
use native.Mathlib.Nat.{
  div-mul-le_self, le_of_mul-le-mul_left, mul-le-mul_left, one-mul, mul-div_cancel, mul-le-mul,
}
use shiplog_prototype.Prelude.{ℕ, suc, ◌+◌, ◌*◌, ◌/◌, ◌^◌, ◌≤◌, ◌<◌, ◌≡◌, none, min, arith, ap, ◌∙◌}
use shiplog_prototype.Backoff.{
  Fraction, BackoffOptions, default_options, exponential, jittered, compute_backoff,
}

-- What `Math.random` may return.
pub record IsRandom (r : Fraction) : Type 0 where
  pub below_one : r.over < r.under

jittered-ge :
    (e : ℕ) (rng ratio : Fraction)
    → 0 < rng.under * ratio.under
    → e ≤ jittered (record { over = e; under = 1 }) rng ratio
unfolding jittered
jittered-ge e rng ratio h = grind arith

-- The floor of `e * (1 + j / d)` for a `j` of at most a quarter of `d`.
quarter_more : (e d j : ℕ) → 0 < d → 4 * j ≤ d → 4 * (e * (d + j) / d) ≤ 5 * e
quarter_more e d j pos small =
    le_of_mul-le-mul_left (omega (arith, div-mul-le_self (e * (d + j)) d, mul-le-mul_left e small))
      pos

-- With a random number below one and a jitter ratio of at most a quarter.
jitter_small :
    (rng ratio : Fraction)
    → IsRandom rng
    → 4 * ratio.over ≤ ratio.under
    → 4 * (rng.over * ratio.over) ≤ rng.under * ratio.under
jitter_small rng ratio r small =
    omega (arith, mul-le-mul {n₁ = rng.over} {n₂ = rng.under} (omega arith) small)

jittered-le :
    (e : ℕ) (rng ratio : Fraction)
    → IsRandom rng
    → 0 < ratio.under
    → 4 * ratio.over ≤ ratio.under
    → 4 * jittered (record { over = e; under = 1 }) rng ratio ≤ 5 * e
unfolding jittered
jittered-le e rng ratio r pos small = simp one-mul (
    quarter_more e (rng.under * ratio.under) (rng.over * ratio.over) (grind arith)
      (jitter_small rng ratio r small))

-- The options are such that jitter adds at most a quarter.
pub record IsQuarter (o : BackoffOptions) : Type 0 where
  pub proper : 0 < o.jitter_ratio.under
  pub small : 4 * o.jitter_ratio.over ≤ o.jitter_ratio.under

-- Without a Retry-After, attempt n + 1 waits at least `base * factor ^ n` (or the cap, if that is
-- less), at most a quarter more than that, and never more than the cap.
pub compute_backoff_bounds :
    (n : ℕ) (o : BackoffOptions) (rng : Fraction)
    → IsRandom rng
    → IsQuarter o
    → o.retry_after_ms ≡ none
    → let delay = compute_backoff (suc n) o rng in
      (min o.cap_ms (o.base_ms * o.factor ^ n) ≤ delay)
      × (4 * delay ≤ 5 * (o.base_ms * o.factor ^ n))
      × (delay ≤ o.cap_ms)
unfolding compute_backoff exponential
compute_backoff_bounds n o rng r q none_given =
    let e = o.base_ms * o.factor ^ n in
    let low = jittered-ge e rng o.jitter_ratio (grind arith) in
    let high = jittered-le e rng o.jitter_ratio r q.proper q.small in
    rw none_given (omega arith, omega arith, omega arith)

-- With the default options and no jitter the waits double from one second up to the cap.
compute_backoff_doubles :
    (n : ℕ) (rng : Fraction)
    → rng.over ≡ 0
    → 0 < rng.under
    → compute_backoff (suc n) default_options rng ≡ min 30000 (1000 * 2 ^ n)
unfolding compute_backoff exponential jittered
compute_backoff_doubles n rng zero_drawn pos = rw zero_drawn (
    ap (min 30000) (
      ap (λ k. 1000 * 2 ^ n * k / (1 * (rng.under * 4))) (omega arith)
      ∙ mul-div_cancel (1000 * 2 ^ n) {n = 1 * (rng.under * 4)} (omega arith)))
