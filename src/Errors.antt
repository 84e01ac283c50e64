-- ===== src/Errors.antt =====
-- src/queue/errors.ts: the error taxonomy, `parseRetryAfter` and `classifyError`.
pub mod Classifier
pub mod RetryAfter
use mathlib.Core.Option
use shiplog_prototype.Prelude.{
  ℕ, ◌-◌, ◌*◌, String, Bool, true, false, ◌&&◌, ◌||◌, Option, none, some, leb, nat_eq, ◌==◌, List,
  [], ◌∷◌, any, if◌then◌else◌,
}
use shiplog_prototype.Text.{trim, is_decimal, number_of}
use shiplog_prototype.Value.{Value, undefined, null, num, str, get}
use shiplog_prototype.Host.{Host}

pub data ErrorKind : Type 0 where
  transient logical : ErrorKind

pub record ClassifiedError : Type 0 where
  pub kind : ErrorKind
  pub retry_after_ms : Option ℕ

-- Node's errors carry a text as their code, the driver's a number.
pub data ErrorCode : Type 0 where
  code_text : String → ErrorCode
  code_number : ℕ → ErrorCode

-- What may be thrown: the fields that `classifyError` and the workers look at, `none` where the
-- object has no such field. `headers` is the object of the response's headers, or `undefined`.
pub record Thrown : Type 0 where
  pub name : String
  pub message : String
  pub stack : Option String
  pub kind : Option ErrorKind
  pub code : Option ErrorCode
  pub status_code : Option ℕ
  pub status : Option ℕ
  pub retry_after_ms : Option ℕ
  pub headers : Value

-- `new Error(message)`, of a class with the given name. The trace that the JavaScript engine gives such
-- an error is left out; an error that comes from outside may have one.
abbrev pub plain_error : String → String → Thrown
plain_error name message = record {
  name = name;
  message = message;
  stack = none;
  kind = none;
  code = none;
  status_code = none;
  status = none;
  retry_after_ms = none;
  headers = undefined;
}

-- `new TransientError(message, { statusCode })`.
abbrev pub transient_error : String → Option ℕ → Thrown
transient_error message status_code = record (plain_error "TransientError" message) {
  kind = some transient;
  status_code = status_code;
}

-- `new LogicalError(message)`.
abbrev pub logical_error : String → Thrown
logical_error message = record (plain_error "LogicalError" message) { kind = some logical }

-- `NETWORK_CODES`.
abbrev pub network_codes : List String
network_codes =
    "ECONNRESET" ∷ "ETIMEDOUT" ∷ "ENOTFOUND" ∷ "ECONNREFUSED" ∷ "EAI_AGAIN" ∷ "EPIPE"
    ∷ "ECONNABORTED" ∷ []

unfoldable pub is_network_code : Option ErrorCode → Bool
is_network_code (some (code_text c)) = any (λ n. n == c) network_codes
is_network_code _ = false

-- `a ?? b` on optional values.
abbrev pub option_or {ℓ} : {A : Type ℓ} → Option A → Option A → Option A
option_or (some a) b = some a
option_or none b = b

module _ (host : Host) (now : ℕ) where
  -- The case of a text: seconds, or the time until a date that may be over.
  unfoldable pub retry_after_text : String → Option ℕ
  retry_after_text s =
      if is_decimal s
      then some (number_of s * 1000)
      else Option.map (λ t. t - now) (host.parse_date s)

  unfoldable pub parse_retry_after : Value → Option ℕ
  unfolding retry_after_text
  parse_retry_after (num n) = some (n * 1000)
  parse_retry_after (str s) = retry_after_text (trim s)
  parse_retry_after _ = none

  unfoldable pub classify_status : Thrown → Option ℕ → ClassifiedError
  classify_status e none = record { kind = logical; retry_after_ms = none }
  classify_status e (some s) =
      if nat_eq s 429
      then record {
        kind = transient;
        retry_after_ms =
            option_or e.retry_after_ms (parse_retry_after (get "retry-after" e.headers));
      }
      else if leb 500 s && leb s 599
      then record { kind = transient; retry_after_ms = e.retry_after_ms }
      else record { kind = logical; retry_after_ms = none }

  unfoldable pub classify_untagged : Thrown → ClassifiedError
  classify_untagged e =
      if e.name == "ZodError"
      then record { kind = logical; retry_after_ms = none }
      else if is_network_code e.code
      then record { kind = transient; retry_after_ms = none }
      else classify_status e (option_or e.status_code e.status)

  unfoldable pub classify_tagged : Thrown → Option ErrorKind → ClassifiedError
  classify_tagged e (some transient) = record {
    kind = transient;
    retry_after_ms = e.retry_after_ms;
  }
  classify_tagged e (some logical) = record { kind = logical; retry_after_ms = none }
  classify_tagged e none = classify_untagged e

  -- `none` stands for a thrown value that counts as false.
  unfoldable pub classify_error : Option Thrown → ClassifiedError
  unfolding classify_tagged classify_untagged classify_status is_network_code
  classify_error none = record { kind = logical; retry_after_ms = none }
  classify_error (some e) = classify_tagged e e.kind
