-- ===== src/Errors/Classifier.antt =====
-- `classifyError` against an independent description of the errors that are worth a retry.
use shiplog_prototype.Prelude.{
  ℕ, ◌≤◌, String, true, Option, none, some, ◌≡◌, ◌≢◌, ◌↔◌, inl, inr, refl, arith, eq_iff, any, ◌==◌,
  nat_eq, Bool-cases,
}
use shiplog_prototype.Host.{Host}
use shiplog_prototype.Errors.{
  ErrorKind, transient, logical, ErrorCode, code_text, code_number, network_codes, Thrown,
  option_or, is_network_code, classify_status, classify_untagged, classify_tagged, classify_error,
}

-- The HTTP status of the error, `statusCode` before `status`.
abbrev pub status_of : Thrown → Option ℕ
status_of e = option_or e.status_code e.status

-- An error that no class of the pipeline has tagged, and that is not about the payload.
abbrev pub IsForeign : Thrown → Type 0
IsForeign e = (e.kind ≡ none) × (e.name ≢ "ZodError")

-- The errors after which the same job may succeed.
pub data IsRetryable (e : Thrown) : Type 0 where
  tagged : e.kind ≡ some transient → IsRetryable e
  network :
      (c : String)
      → IsForeign e
      → e.code ≡ some (code_text c)
      → any (λ n. n == c) network_codes ≡ true
      → IsRetryable e
  rate_limited : IsForeign e → status_of e ≡ some 429 → IsRetryable e
  server : (s : ℕ) → IsForeign e → status_of e ≡ some s → 500 ≤ s → s ≤ 599 → IsRetryable e

classify_status_sound :
    (host : Host) (now : ℕ) (e : Thrown) (o : Option ℕ)
    → status_of e ≡ o
    → IsForeign e
    → (classify_status host now e o).kind ≡ transient
    → IsRetryable e
unfolding classify_status
classify_status_sound host now e none same foreign h = cc
classify_status_sound host now e (some s) same foreign h = elim (Bool-cases (nat_eq s 429)) [
  | inl limited ↦ rate_limited foreign (ground arith)
  | inr other ↦ server s foreign same (ground arith) (ground arith)
]

is_network_code_sound :
    (o : Option ErrorCode)
    → is_network_code o ≡ true
    → (c : String) × (o ≡ some (code_text c)) × (any (λ n. n == c) network_codes ≡ true)
unfolding is_network_code
is_network_code_sound (some (code_text c)) h = (c, refl, h)
is_network_code_sound (some (code_number n)) h = cc
is_network_code_sound none h = cc

classify_untagged_sound :
    (host : Host) (now : ℕ) (e : Thrown)
    → e.kind ≡ none
    → (classify_untagged host now e).kind ≡ transient
    → IsRetryable e
unfolding classify_untagged
classify_untagged_sound host now e untagged h = elim (Bool-cases (e.name == "ZodError")) [
  | inl zod ↦ ground arith
  | inr other ↦
      let foreign : IsForeign e = (untagged, λ same. ground (arith, eq_iff e.name "ZodError")) in
      elim (Bool-cases (is_network_code e.code)) [
        | inl blip ↦
            let (c, is_code, listed) = is_network_code_sound e.code blip in
            network c foreign is_code listed
        | inr no_code ↦ classify_status_sound host now e (status_of e) refl foreign (ground arith)
      ]
]

classify_tagged_sound :
    (host : Host) (now : ℕ) (e : Thrown) (tag : Option ErrorKind)
    → e.kind ≡ tag
    → (classify_tagged host now e tag).kind ≡ transient
    → IsRetryable e
unfolding classify_tagged
classify_tagged_sound host now e (some transient) same h = tagged same
classify_tagged_sound host now e (some logical) same h = cc
classify_tagged_sound host now e none same h = classify_untagged_sound host now e same h

classify_error_complete :
    (host : Host) (now : ℕ) (e : Thrown)
    → IsRetryable e
    → (classify_error host now (some e)).kind ≡ transient
unfolding classify_error
classify_error_complete host now e (tagged t) = ground arith
classify_error_complete host now e (network c (untagged, not_zod) is_code listed) =
    ground (arith, eq_iff e.name "ZodError")
classify_error_complete host now e (rate_limited (untagged, not_zod) is_status) =
    ground (arith, eq_iff e.name "ZodError")
classify_error_complete host now e (server s (untagged, not_zod) is_status low high) =
    ground (arith, eq_iff e.name "ZodError")

-- An error is classified as transient exactly when it is retryable: tagged so by the pipeline's own
-- class, or untagged, no ZodError, and a listed network code, status 429 or a status from 500 to 599.
pub classify_error-transient_iff :
    (host : Host) (now : ℕ) (e : Thrown)
    → ((classify_error host now (some e)).kind ≡ transient) ↔ IsRetryable e
unfolding classify_error
classify_error-transient_iff host now e =
    (classify_tagged_sound host now e e.kind refl, classify_error_complete host now e)
