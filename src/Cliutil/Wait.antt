-- ===== src/Cliutil/Wait.antt =====
-- internal/cliutil/ratelimit.go: RetryAfter and Backoff, in nanoseconds.
use iconify_cli.Base.{
  ℕ, ◌*◌, ◌^◌, ◌≤◌, ◌<◌, ltb, leb, ◌==◌, Option, none, some, [], ◌∷◌, arith, inl, inr, Bool-cases,
  if◌then◌else◌,
}
use iconify_cli.Base.Strings.{Str, is_empty}
use iconify_cli.Base.Int.{ℤ, pos, negsuc}
use iconify_cli.Platform.RateLimit.{second, to_int64}

abbrev pub max_retry_wait : ℕ
max_retry_wait = 60 * second

abbrev pub default_retry_wait : ℕ
default_retry_wait = 5 * second

abbrev pub max_backoff : ℕ
max_backoff = 30 * second

-- if wait > MaxRetryWait { return MaxRetryWait }
unfoldable pub at_most_wait : ℕ → ℕ
at_most_wait wait = if ltb max_retry_wait wait then max_retry_wait else wait

-- The time until a moment: time.Until of a number of milliseconds or of seconds since 1970.
pub record Clock : Type 0 where
  pub until_milli : ℕ → ℤ
  pub until_unix : ℕ → ℤ

unfoldable pub retry_after_epoch_wait : Clock → ℕ → ℤ
retry_after_epoch_wait clock value =
    if leb 1000000000000 value
    then clock.until_milli value
    else if leb 1000000000 value
    then clock.until_unix value
    else pos 0

-- A wait that is positive, capped, or else another one.
unfoldable pub positive_or : ℤ → ℕ → ℕ
positive_or (pos wait) other = if ltb 0 wait then at_most_wait wait else other
positive_or (negsuc n) other = other

unfoldable pub retry_after_from_number : Clock → ℤ → ℕ
retry_after_from_number clock (negsuc n) = default_retry_wait
retry_after_from_number clock (pos value) =
    if value == 0
    then default_retry_wait
    else if ltb 60 value
    then positive_or (retry_after_epoch_wait clock value) max_retry_wait
    else value * second

-- RetryAfter: `header` is none without a response and trimmed otherwise, `number` what
-- strconv.ParseInt reads from it, and `until` the time until the date that http.ParseTime reads.
unfoldable pub after_date : Option ℤ → ℕ
after_date none = default_retry_wait
after_date (some until) = positive_or until default_retry_wait

unfoldable pub after_header : Clock → Option ℤ → Option ℤ → ℕ
after_header clock (some value) until = retry_after_from_number clock value
after_header clock none until = after_date until

unfoldable pub retry_after : Clock → Option Str → Option ℤ → Option ℤ → ℕ
retry_after clock none number until = default_retry_wait
retry_after clock (some header) number until =
    if is_empty header then default_retry_wait else after_header clock number until

-- if attempt < 0 { attempt = 0 }
unfoldable pub exponent : ℤ → ℕ
exponent (pos n) = n
exponent (negsuc n) = 0

-- if wait > MaxBackoff { return MaxBackoff }
unfoldable pub at_most_backoff : ℤ → ℤ
at_most_backoff (pos n) = if ltb max_backoff n then pos max_backoff else pos n
at_most_backoff (negsuc n) = negsuc n

-- Backoff, for attempts below 63: the float of 2^attempt is exact, and the product wraps.
unfoldable pub backoff : ℤ → ℤ
backoff attempt = at_most_backoff (to_int64 (2 ^ exponent attempt * second))

-- Positive, and at most a minute.
abbrev pub IsWait : ℕ → Type 0
IsWait wait = (0 < wait) × (wait ≤ max_retry_wait)

positive_or-IsWait : (z : ℤ) (other : ℕ) → IsWait other → IsWait (positive_or z other)
unfolding positive_or at_most_wait
positive_or-IsWait (pos n) other h = (ground arith, ground arith)
positive_or-IsWait (negsuc n) other h = h

from_number-IsWait : (clock : Clock) (z : ℤ) → IsWait (retry_after_from_number clock z)
unfolding retry_after_from_number
from_number-IsWait clock (negsuc n) = omega arith
from_number-IsWait clock (pos value) = elim (Bool-cases (value == 0)) [
  | inl e ↦ rw (e, retry_after_from_number) (omega arith)
  | inr e ↦ elim (Bool-cases (ltb 60 value)) [
    | inl k ↦
        rw (e, retry_after_from_number) (rw k (positive_or-IsWait _ max_retry_wait (omega arith)))
    | inr k ↦ rw (e, retry_after_from_number) (rw k (ground arith, ground arith))
  ]
]

-- Whatever the response and the clock say, RetryAfter waits for some time and at most a minute.
pub retry_after-IsWait :
    (clock : Clock) (header : Option Str) (number until : Option ℤ)
    → IsWait (retry_after clock header number until)
unfolding retry_after after_header after_date
retry_after-IsWait clock none number until = omega arith
retry_after-IsWait clock (some []) number until = omega arith
retry_after-IsWait clock (some (c ∷ s)) (some value) until = from_number-IsWait clock value
retry_after-IsWait clock (some (c ∷ s)) none none = omega arith
retry_after-IsWait clock (some (c ∷ s)) none (some until) =
    positive_or-IsWait until default_retry_wait (omega arith)
