-- ===== src/Platform/RateLimit/Delay.antt =====
-- How long RetryAfterDelay makes a request wait.
use native.Mathlib.Nat.{mod-eq_of_lt}
use iconify_cli.Base.{
  ℕ, ◌*◌, ◌%◌, ◌^◌, ◌≤◌, ◌<◌, ◌≡◌, ltb, Option, none, some, arith, true, inl, inr, Bool-cases,
}
use iconify_cli.Base.Int.{ℤ, pos, negsuc, is_negative}
use iconify_cli.Platform.RateLimit.{
  second, max_retry_after, to_int64, capped, jitter, dated, retry_after_delay,
}

-- Not negative, and at most a minute.
abbrev pub IsDelay : ℤ → Type 0
IsDelay (pos n) = n ≤ max_retry_after
IsDelay (negsuc n) = ⊥

-- A number of seconds that an int64 of nanoseconds holds.
abbrev pub IsHeld : Option ℤ → Type 0
IsHeld (some (pos n)) = n * second < 2 ^ 63
IsHeld _ = Unit {0}

capped-IsDelay : (n : ℕ) → IsDelay (capped (pos n))
unfolding capped
capped-IsDelay n = elim (Bool-cases (ltb n max_retry_after)) [
  | inl e ↦ rw e (ground arith)
  | inr e ↦ rw e (omega arith)
]

dated-IsDelay :
    (random : ℕ → ℕ) (attempt : ℤ) (until : Option ℤ) → IsDelay (dated random attempt until)
unfolding dated jitter
dated-IsDelay random attempt none = capped-IsDelay _
dated-IsDelay random attempt (some (negsuc m)) = capped-IsDelay _
dated-IsDelay random attempt (some (pos m)) = elim (Bool-cases (ltb 0 m)) [
  | inl e ↦ rw e (capped-IsDelay m)
  | inr e ↦ rw e (capped-IsDelay _)
]

to_int64-held : (n : ℕ) → n < 2 ^ 63 → to_int64 n ≡ pos n
unfolding to_int64
to_int64-held n h = let e : n % 2 ^ 64 ≡ n = mod-eq_of_lt (omega arith) in rw e (ground arith)

-- Whatever the header says, the delay is neither negative nor above a minute, if the seconds that it
-- may give are held by an int64 of nanoseconds.
pub retry_after_delay-IsDelay :
    (seconds until : Option ℤ) (attempt : ℤ) (random : ℕ → ℕ)
    → IsHeld seconds
    → IsDelay (retry_after_delay seconds until attempt random)
unfolding retry_after_delay
retry_after_delay-IsDelay (some (pos n)) until attempt random h =
    rw (to_int64-held (n * second) h) (capped-IsDelay (n * second))
retry_after_delay-IsDelay (some (negsuc n)) until attempt random h =
    dated-IsDelay random attempt until
retry_after_delay-IsDelay none until attempt random h = dated-IsDelay random attempt until

-- A header of so many seconds that they wrap below zero gives a negative delay, which is no wait at
-- all: this is so from 9223372037 seconds up to 18446744073.
pub retry_after_delay-wrapped :
    (n : ℕ) (until : Option ℤ) (attempt : ℤ) (random : ℕ → ℕ)
    → 2 ^ 63 ≤ n * second
    → n * second < 2 ^ 64
    → is_negative (retry_after_delay (some (pos n)) until attempt random) ≡ true
unfolding retry_after_delay to_int64 capped
retry_after_delay-wrapped n until attempt random h k = ground (arith)
