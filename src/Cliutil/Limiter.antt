-- ===== src/Cliutil/Limiter.antt =====
-- internal/cliutil/ratelimit.go: AdaptiveLimiter, how many requests a second the client allows itself.
-- The rates are float64; what the limiter does with them are the operations of `Rates`.
pub mod Range
use iconify_cli.Base.{
  ℕ, suc, ◌+◌, ◌≡◌, Bool, true, false, not, ◌&&◌, leb, ltb, Option, none, some, if◌then◌else◌,
}
use iconify_cli.Base.Int.{ℤ, pos, negsuc, is_negative}

-- Floating-point rates: the order, and the arithmetic of the limiter. `of_int n` is float64(n), and
-- `per n s` is float64(n) / s.
pub record Rates : Type 1 where
  pub Rate : Type 0
  pub Seconds : Type 0
  pub lt : Rate → Rate → Bool
  pub zero : Rate
  pub half : Rate
  pub grown : Rate → Rate
  pub lowered : Rate → Rate
  pub halved : Rate → Rate
  pub twice : Rate → Rate
  pub of_int : ℤ → Rate
  pub per : ℤ → Seconds → Rate
  pub is_positive : Seconds → Bool

module _ (f : Rates) where
  open f use {Rate, Seconds}

  -- The fields that decide the rate; `ceiling` is 0 until a 429, `max_rate` 0 for no limit.
  pub record AdaptiveLimiter : Type 0 where
    pub rate : Rate
    pub floor : Rate
    pub ceiling : Rate
    pub max_rate : Rate
    pub budget_rate : Rate
    pub successes : ℕ
    pub ramp_after : ℕ
    pub header_driven : Bool

  -- if b < a { a = b }
  abbrev pub at_most : Rate → Rate → Rate
  at_most a b = if f.lt b a then b else a

  -- if a < b { a = b }
  abbrev pub at_least : Rate → Rate → Rate
  at_least a b = if f.lt a b then b else a

  -- l.maxRate > 0 && a > l.maxRate
  abbrev pub under_max : Rate → Rate → Rate
  under_max a max_rate = if f.lt f.zero max_rate then at_most a max_rate else a

  -- The limiter that newAdaptiveLimiter builds.
  unfoldable pub started : Rate → Rate → AdaptiveLimiter
  started start_rate max_rate = record {
    rate = start_rate;
    floor = at_most f.half start_rate;
    ceiling = f.zero;
    max_rate = max_rate;
    budget_rate = f.zero;
    successes = 0;
    ramp_after = 10;
    header_driven = false;
  }

  -- newAdaptiveLimiter; `none` is the nil limiter, on which every method does nothing.
  unfoldable pub new_adaptive_limiter : Rate → Rate → Option AdaptiveLimiter
  new_adaptive_limiter start_rate max_rate =
      if f.lt f.zero start_rate then some (started start_rate max_rate) else none

  -- NewAdaptiveLimiter and NewAdaptiveLimiterAuto
  unfoldable pub fixed : Rate → Option AdaptiveLimiter
  fixed rate_per_sec = new_adaptive_limiter rate_per_sec rate_per_sec

  unfoldable pub auto : Rate → Option AdaptiveLimiter
  auto start_rate = new_adaptive_limiter start_rate f.zero

  -- The low-remaining brake.
  unfoldable pub braked : ℤ → Rate → Rate
  braked remaining target =
      if f.lt (f.of_int remaining) (f.twice target) then f.halved (f.of_int remaining) else target

  -- ObserveHeaders; `none` is a zero reset time, otherwise the seconds until it.
  unfoldable pub observe_headers : ℤ → Option Seconds → AdaptiveLimiter → AdaptiveLimiter
  observe_headers remaining none l = l
  observe_headers remaining (some secs) l =
      if not (f.is_positive secs)
      then l
      else if is_negative remaining
      then l
      else (let budget = at_least l.budget_rate (f.per remaining secs) in
          record l {
            budget_rate = budget;
            rate = at_least (under_max (braked remaining budget) l.max_rate) l.floor;
            header_driven = true;
            successes = 0;
          })

  -- The rate after a ramp.
  unfoldable pub ramped : AdaptiveLimiter → Rate
  ramped l =
      let grown = f.grown l.rate in
      let below = if f.lt f.zero l.ceiling then at_most grown (f.lowered l.ceiling) else grown in
      at_least (under_max below l.max_rate) l.floor

  -- OnSuccess
  unfoldable pub on_success : AdaptiveLimiter → AdaptiveLimiter
  on_success l =
      if l.header_driven
      then record l { successes = 0 }
      else if leb l.ramp_after (l.successes + 1)
      then record l { rate = ramped l; successes = 0 }
      else record l { successes = l.successes + 1 }

  -- OnRateLimit
  unfoldable pub on_rate_limit : AdaptiveLimiter → AdaptiveLimiter
  on_rate_limit l = record l {
    ceiling = l.rate;
    rate = at_least (f.halved l.rate) l.floor;
    budget_rate = if l.header_driven then l.budget_rate else f.halved l.budget_rate;
    successes = 0;
  }
