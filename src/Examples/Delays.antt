-- ===== src/Examples/Delays.antt =====
-- Delays and attempts at concrete inputs.
use shiplog_prototype.Prelude.{some, ◌≡◌, refl}
use shiplog_prototype.Errors.{Thrown, plain_error, is_network_code, classify_error}
use shiplog_prototype.Text.{trim, is_decimal}
use shiplog_prototype.Value.{obj, field, str, end, get}
use shiplog_prototype.Host.{Host}
use shiplog_prototype.Backoff.{Fraction}
use shiplog_prototype.Queue.Processor.{policy}
use shiplog_prototype.Queue.Workers.{backoff_strategy}
use shiplog_prototype.Queue.Workers.Delays.{
  IsRateLimit, Asks, until_date, backoff_strategy-rate_limited,
}
use shiplog_prototype.Examples.{test_host}

abbrev dated_host : Host
dated_host = record test_host { parse_date = λ s. some 9000 }

abbrev half : Fraction
half = record { over = 1; under = 2 }

-- An error of an API with a date in its Retry-After header, which the test host reads as 9000.
abbrev rate_limited : Thrown
rate_limited = record (plain_error "Error" "rate limited") {
  status_code = some 429;
  headers = obj (field "retry-after" (str " Wed, 21 Oct 2015 07:28:00 GMT ") end);
}

rate_limited-IsRateLimit : IsRateLimit rate_limited " Wed, 21 Oct 2015 07:28:00 GMT "
unfolding is_network_code get
rate_limited-IsRateLimit = record {
  untagged = refl;
  no_schema = refl;
  no_network = refl;
  status = refl;
  asks_by_header = refl;
  header_is = refl;
}

rate_limited-Asks : Asks dated_host 4000 " Wed, 21 Oct 2015 07:28:00 GMT " 5000
unfolding trim is_decimal
rate_limited-Asks = until_date 9000 refl refl refl

backoff_strategy-rate_limited_example :
    backoff_strategy 1000 half 3
      (some (policy rate_limited (classify_error dated_host 4000 (some rate_limited))))
    ≡ 5000
backoff_strategy-rate_limited_example =
    backoff_strategy-rate_limited dated_host 4000 1000 3 half rate_limited
      " Wed, 21 Oct 2015 07:28:00 GMT " 5000 rate_limited-IsRateLimit rate_limited-Asks
