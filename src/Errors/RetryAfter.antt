-- ===== src/Errors/RetryAfter.antt =====
-- `parseRetryAfter` reads back what a server sends.
use shiplog_prototype.Prelude.{ℕ, ◌*◌, some, ◌≡◌, refl}
use shiplog_prototype.Text.{decimal}
use shiplog_prototype.Text.Laws.{trim-decimal, is_decimal-decimal, number_of-decimal}
use shiplog_prototype.Value.{str, num}
use shiplog_prototype.Host.{Host}
use shiplog_prototype.Errors.{parse_retry_after}

-- A delay in seconds means the same as a number and as its decimal text: that many seconds, in
-- milliseconds.
pub parse_retry_after-decimal :
    (host : Host) (now n : ℕ)
    → (parse_retry_after host now (str (decimal n)) ≡ some (n * 1000))
      × (parse_retry_after host now (num n) ≡ some (n * 1000))
unfolding parse_retry_after
parse_retry_after-decimal host now n =
    (rw (trim-decimal n, is_decimal-decimal n, number_of-decimal n), refl)
