-- ===== src/Platform/RateLimit.antt =====
-- internal/platform/ratelimit.go: endpoint budgets, the delay before a retry, and which requests may
-- be sent again. Durations are counted in nanoseconds.
pub mod Delay
use mathlib.Core.List.{map}
use iconify_cli.Base.{
  ℕ, ◌+◌, ◌-◌, ◌*◌, ◌%◌, ◌^◌, min, Bool, true, false, not, ◌&&◌, ◌||◌, ltb, leb, ◌==◌, Option, none,
  some, List, [], ◌∷◌, if◌then◌else◌,
}
use iconify_cli.Base.Strings.{Str, str, str_eq, is_empty, trim_space}
use iconify_cli.Base.Int.{ℤ, pos, negsuc, is_negative}

pub record EndpointBudget : Type 0 where
  pub class : Str
  pub steady : ℤ
  pub interval : ℤ
  pub burst : ℤ
  pub max_attempts : ℤ
  pub retry_budget : ℤ

pub data BudgetError : Type 0 where
  class_required pacing_not_positive burst_not_positive retries_not_positive : BudgetError

-- a > 0; for an integer this is a >= 1 too
abbrev pub is_positive : ℤ → Bool
is_positive (pos n) = ltb 0 n
is_positive (negsuc n) = false

-- Validate; `none` is no error.
unfoldable pub validate : EndpointBudget → Option BudgetError
validate b =
    if is_empty (trim_space b.class)
    then some class_required
    else if not (is_positive b.steady) || not (is_positive b.interval)
    then some pacing_not_positive
    else if not (is_positive b.burst)
    then some burst_not_positive
    else if not (is_positive b.max_attempts) || not (is_positive b.retry_budget)
    then some retries_not_positive
    else none

abbrev pub second : ℕ
second = 1000000000

abbrev pub max_retry_after : ℕ
max_retry_after = 60 * second

-- The value of 64 bits as an int64.
unfoldable pub to_int64 : ℕ → ℤ
to_int64 n = let m = n % 2 ^ 64 in if ltb m (2 ^ 63) then pos m else negsuc (2 ^ 64 - m - 1)

-- minDuration(d, MaxRetryAfter)
unfoldable pub capped : ℤ → ℤ
capped (pos n) = if ltb n max_retry_after then pos n else pos max_retry_after
capped (negsuc n) = negsuc n

-- if attempt < 0 { attempt = 0 }; min(attempt, 6)
unfoldable pub shift_of : ℤ → ℕ
shift_of (pos n) = min n 6
shift_of (negsuc n) = 0

-- The jitter; `random n` is Int63n(n), a number below n.
unfoldable pub jitter : (ℕ → ℕ) → ℤ → ℤ
jitter random attempt = capped (pos (random (second * 2 ^ shift_of attempt + 1)))

-- The wait until a date, if it is in the future.
unfoldable pub dated : (ℕ → ℕ) → ℤ → Option ℤ → ℤ
dated random attempt none = jitter random attempt
dated random attempt (some wait) = if is_positive wait then capped wait else jitter random attempt

-- RetryAfterDelay. `seconds` is what strconv.ParseInt reads from the trimmed header, and `until` what
-- http.ParseTime reads, less the time now. `time.Duration(seconds) * time.Second` wraps.
unfoldable pub retry_after_delay : Option ℤ → Option ℤ → ℤ → (ℕ → ℕ) → ℤ
retry_after_delay (some (pos n)) until attempt random = capped (to_int64 (n * second))
retry_after_delay (some (negsuc n)) until attempt random = dated random attempt until
retry_after_delay none until attempt random = dated random attempt until

-- strings.ToUpper as far as the method names can see it: a to z, and the two letters outside ASCII
-- whose upper case lies in it (U+0131 and U+017F).
unfoldable pub upper : ℕ → ℕ
upper c =
    if leb b'a' c && leb c b'z'
    then c - 32
    else if c == 0x131
    then b'I'
    else if c == 0x17f
    then b'S'
    else c

-- The methods that may be sent again, and those that need a key for it.
unfoldable pub is_idempotent : Str → Bool
is_idempotent m =
    str_eq m (str "GET")
    || (str_eq m (str "HEAD")
        || (str_eq m (str "OPTIONS") || (str_eq m (str "PUT") || str_eq m (str "DELETE"))))

unfoldable pub needs_key : Str → Bool
needs_key m = str_eq m (str "POST") || str_eq m (str "PATCH")

unfoldable pub can_retry_request : Str → Str → Bool
can_retry_request method key =
    let m = map upper (trim_space method) in
    if is_idempotent m then true else if needs_key m then not (is_empty (trim_space key)) else false
