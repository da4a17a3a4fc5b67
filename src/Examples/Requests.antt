-- ===== src/Examples/Requests.antt =====
-- The theorems of internal/client, internal/platform and internal/cliutil at concrete inputs.
use iconify_cli.Base.{
  ℕ, zero, suc, ◌*◌, ◌/◌, ◌≤◌, ◌<◌, ◌≡◌, ◌↔◌, refl, true, false, ltb, none, some, List, [], ◌∷◌,
  arith,
}
use iconify_cli.Base.Strings.{str}
use iconify_cli.Base.Int.{ℤ, pos, negsuc, is_negative}
use iconify_cli.Platform.RateLimit.{second, retry_after_delay}
use iconify_cli.Platform.RateLimit.Delay.{
  IsDelay, retry_after_delay-IsDelay, retry_after_delay-wrapped,
}
use iconify_cli.Cliutil.Limiter.{Rates, AdaptiveLimiter, started, fixed, at_most}
use iconify_cli.Cliutil.Limiter.Range.{
  IsOrdered, Event, headers, success, rate_limit, handle_all, handle_all-fixed,
}
use iconify_cli.Cliutil.Wait.{Clock, IsWait, retry_after, retry_after-IsWait}
use iconify_cli.Client.Request.{
  Call, RetryPolicy, Settings, Response, dropped, answered, Round, synthetic, do_internal, ended,
  is_mutating_verb, platform_retry_policy, can_replay,
}
use iconify_cli.Client.Request.Budget.{
  Counts, requests-do_internal, requests-do_internal_unsafe, backed_off-do_internal,
}
use iconify_cli.Client.Request.Writes.{IsWrite, Succeeds, invalidated-do_internal}

abbrev post : Call
post = record {
  method = str "POST";
  path = str "/a";
  read_only_intent = false;
  mutation_intent = true;
  key = [];
}

abbrev get : Call
get = record {
  method = str "GET";
  path = str "/a";
  read_only_intent = false;
  mutation_intent = false;
  key = [];
}

abbrev busy : Response
busy = record { status = 503; retry_after = pos 0; binary = false; wraps = true; paced = false }

abbrev fine : Response
fine = record { status = 200; retry_after = pos 0; binary = false; wraps = true; paced = true }

abbrev round : Response → Round
round r = record {
  platform_wait = 0;
  admitted = true;
  limiter_wait = second;
  built = true;
  reply = answered r;
  interrupted = false;
  elapsed = λ w. w;
}

-- The server is busy once, and then answers.
abbrev recovers : ℕ → Round
recovers zero = round busy
recovers (suc n) = round fine

-- The server answers at once.
abbrev answers : ℕ → Round
answers n = round fine

abbrev settings : Settings
settings = record {
  verify_env = false;
  verify_live_http = false;
  dogfood_env = false;
  body_marshals = true;
  has_auth = true;
  dry_run = false;
  session = false;
  policy = none;
}

requests-do_internal_unsafe_example : (do_internal post recovers settings).trace.requests ≤ 1
requests-do_internal_unsafe_example =
    requests-do_internal_unsafe post recovers settings (unfold can_replay in refl)

requests-do_internal_example :
    ((do_internal get recovers settings).trace.requests ≤ 4)
    × ((b : ℤ) (n : ℕ)
        → platform_retry_policy settings
          ≡ some (record { max_attempts = pos (suc n); retry_budget = b })
        → (do_internal get recovers settings).trace.requests ≤ suc n)
requests-do_internal_example = requests-do_internal get recovers settings

counts : Counts recovers
counts zero w = omega arith
counts (suc n) w = omega arith

abbrev policy : RetryPolicy
policy = record { max_attempts = pos 4; retry_budget = pos (60 * second) }

backed_off-do_internal_example : (do_internal get recovers settings).trace.backed_off ≤ 60 * second
backed_off-do_internal_example =
    backed_off-do_internal get recovers settings policy (60 * second)
      (unfold platform_retry_policy iconify_cli.Client.Request.client_max_retries in refl) refl
      counts

invalidated-do_internal_example :
    let t = (do_internal post answers settings).trace in
    (t.invalidated ≡ true)
    ↔ (IsWrite post × ((k : ℕ) × (k < t.requests) × Succeeds (answers k).reply))
invalidated-do_internal_example = invalidated-do_internal post answers settings

retry_after_delay-IsDelay_example :
    IsDelay (retry_after_delay (some (pos 120)) none (pos 0) (λ n. 0))
retry_after_delay-IsDelay_example =
    retry_after_delay-IsDelay (some (pos 120)) none (pos 0) (λ n. 0) (omega arith)

retry_after_delay-wrapped_example :
    is_negative (retry_after_delay (some (pos 10000000000)) none (pos 0) (λ n. 0)) ≡ true
retry_after_delay-wrapped_example =
    retry_after_delay-wrapped 10000000000 none (pos 0) (λ n. 0) (omega arith) (omega arith)

-- Rates in quarters of a request a second.
abbrev quarters : Rates
quarters = record {
  Rate = ℕ;
  Seconds = ℕ;
  lt = ltb;
  zero = 0;
  half = 2;
  grown = λ r. r * 5 / 4;
  lowered = λ r. r * 9 / 10;
  halved = λ r. r / 2;
  twice = λ r. r * 2;
  of_int = λ z. elim z as (λ _. ℕ) [ pos n ↦ n * 4 | negsuc n ↦ 0 ];
  per = λ z s. elim z as (λ _. ℕ) [ pos n ↦ n * 4 / s | negsuc n ↦ 0 ];
  is_positive = λ s. ltb 0 s;
}

ordered : IsOrdered quarters
ordered = record {
  irrefl = λ a. ground arith;
  asym = λ a b h. ground arith;
  neg_trans = λ a b c h k. ground arith;
  halves = λ a h. ground arith;
  half_positive = refl;
}

abbrev events : List (Event quarters ordered)
events = headers (pos 100) (some 10) ∷ rate_limit ∷ success ∷ []

handle_all-fixed_example :
    (ltb 8 (handle_all quarters ordered events (started quarters 8 8)).rate ≡ false)
    × (ltb (handle_all quarters ordered events (started quarters 8 8)).rate (at_most quarters 2 8)
        ≡ false)
handle_all-fixed_example =
    handle_all-fixed quarters ordered 8 (started quarters 8 8) events
      (unfold fixed iconify_cli.Cliutil.Limiter.new_adaptive_limiter in refl)

abbrev clock : Clock
clock = record { until_milli = λ n. pos 5; until_unix = λ n. negsuc 3 }

retry_after-IsWait_example :
    IsWait (retry_after clock (some (str "1700000000")) (some (pos 1700000000)) none)
retry_after-IsWait_example =
    retry_after-IsWait clock (some (str "1700000000")) (some (pos 1700000000)) none
