-- ===== src/Client/Request.antt =====
-- internal/client/client.go: doInternal, one call with its attempts. What the network, the clock and
-- the limiters do in an attempt is given; the requests that go out, the back-off sleeps and the waits
-- in the two limiters, what the limiter is told and the clearing of the cache are recorded.
pub mod Attempts
pub mod Budget
pub mod Writes
use iconify_cli.Base.{
  ℕ, zero, suc, ◌+◌, ◌-◌, ◌*◌, ◌^◌, Bool, true, false, not, ◌&&◌, ◌||◌, ltb, leb, ◌==◌, Option,
  none, some, List, [], ◌∷◌, if◌then◌else◌,
}
use iconify_cli.Base.Strings.{Str, str, str_eq}
use iconify_cli.Base.Int.{ℤ, pos, negsuc}
use iconify_cli.Platform.RateLimit.{can_retry_request, second, is_positive}
use iconify_cli.Client.Path.{reject_unresolved_path_params}

-- The call: its method, its path, and what the caller says of it. `key` is the idempotency key in
-- its headers.
pub record Call : Type 0 where
  pub method : Str
  pub path : Str
  pub read_only_intent : Bool
  pub mutation_intent : Bool
  pub key : Str

-- MaxAttempts and RetryBudget of an endpoint's budget.
pub record RetryPolicy : Type 0 where
  pub max_attempts : ℤ
  pub retry_budget : ℤ

-- The client and its environment, for one call. `policy` is `none` where no budget is declared.
pub record Settings : Type 0 where
  pub verify_env : Bool
  pub verify_live_http : Bool
  pub dogfood_env : Bool
  pub body_marshals : Bool
  pub has_auth : Bool
  pub dry_run : Bool
  pub session : Bool
  pub policy : Option RetryPolicy

-- A response: its status, the delay that RetryAfterDelay gives, whether the body is binary and
-- could be wrapped, and whether it has rate-limit headers.
pub record Response : Type 0 where
  pub status : ℕ
  pub retry_after : ℤ
  pub binary : Bool
  pub wraps : Bool
  pub paced : Bool

-- What comes of sending a request: the context has ended, the transport fails (perhaps for good), the
-- body cannot be read, or there is a response.
pub data Reply : Type 0 where
  cancelled unreadable : Reply
  dropped : Bool → Reply
  answered : Response → Reply

-- An attempt's surroundings: how long waitForPlatformBudget takes and whether it lets the attempt
-- pass, how long limiter.Wait takes, whether the request can be built, the reply, and whether the
-- sleep after it is cut short. `elapsed w` is the time since retryStarted when `w` has been spent in
-- sleeps and in the two limiters.
pub record Round : Type 0 where
  pub platform_wait : ℕ
  pub admitted : Bool
  pub limiter_wait : ℕ
  pub built : Bool
  pub reply : Reply
  pub interrupted : Bool
  pub elapsed : ℕ → ℕ

pub data DoError : Type 0 where
  unresolved marshaling no_auth no_budget not_admitted creating context_ended : DoError
  network reading wrapping : DoError
  api : ℕ → DoError
  -- How many attempts were made.
  rate_limited : ℕ → DoError

pub data DoResult : Type 0 where
  synthetic shown : DoResult
  succeeded : ℕ → DoResult
  failed : DoError → DoResult

pub data LimiterCall : Type 0 where
  observe_headers on_success on_rate_limit : LimiterCall

-- What a call has done: the requests sent, the time of its back-off sleeps (sleepContext), the time
-- spent in waitForPlatformBudget and limiter.Wait, the calls of the limiter, newest first, and
-- whether the cache has been cleared.
pub record Trace : Type 0 where
  pub requests : ℕ
  pub backed_off : ℕ
  pub paced : ℕ
  pub limiter : List LimiterCall
  pub invalidated : Bool

pub record Done : Type 0 where
  pub result : DoResult
  pub trace : Trace

abbrev pub no_trace : Trace
no_trace = record { requests = 0; backed_off = 0; paced = 0; limiter = []; invalidated = false }

-- After a reply: return, or sleep and go on with the error as the last one.
pub data Next : Type 0 where
  stop : DoResult → Next
  again : ℤ → DoError → Next

unfoldable pub is_mutating_verb : Str → Bool
is_mutating_verb m =
    str_eq m (str "DELETE")
    || (str_eq m (str "POST") || (str_eq m (str "PUT") || str_eq m (str "PATCH")))

unfoldable pub client_max_retries : Settings → ℕ
client_max_retries s = if s.verify_env || s.dogfood_env then 0 else 3

-- platformRetryPolicy
unfoldable pub platform_retry_policy : Settings → Option RetryPolicy
platform_retry_policy s =
    if s.session
    then s.policy
    else some
        (record { max_attempts = pos (client_max_retries s + 1); retry_budget = pos (60 * second) })

-- retryPolicy.MaxAttempts > 0 && maxRetries > retryPolicy.MaxAttempts-1
unfoldable pub lowered : ℕ → ℤ → ℕ
lowered retries (pos n) = if ltb 0 n && ltb (n - 1) retries then n - 1 else retries
lowered retries (negsuc n) = retries

unfoldable pub max_retries : Settings → RetryPolicy → ℕ
max_retries s p = lowered (client_max_retries s) p.max_attempts

-- canRetryAmbiguousFailure
unfoldable pub can_replay : Call → Bool
can_replay c = c.read_only_intent || (not c.mutation_intent && can_retry_request c.method c.key)

-- elapsed + wait <= budget
unfoldable pub sum_le : ℕ → ℤ → ℕ → Bool
sum_le elapsed (pos wait) budget = leb (elapsed + wait) budget
sum_le elapsed (negsuc n) budget = leb elapsed (budget + n + 1)

-- retryWithinBudget
unfoldable pub within : ℤ → ℕ → ℤ → Bool
within (negsuc n) elapsed wait = false
within (pos budget) elapsed wait = ltb 0 budget && sum_le elapsed wait budget

abbrev pub backoff : ℕ → ℤ
backoff attempt = pos (2 ^ attempt * second)

-- The loop of doInternal, for a call with these bounds.
pub record Limits : Type 0 where
  pub call : Call
  pub retries : ℕ
  pub retry_budget : ℤ

-- attempt < maxRetries && canRetryAmbiguousFailure
unfoldable pub may_retry : Limits → ℕ → Bool
may_retry l attempt = ltb attempt l.retries && can_replay l.call

-- if !retryWithinBudget(wait) { return }
unfoldable pub back_off : Limits → ℕ → ℕ → DoError → Next
back_off l attempt elapsed e =
    if within l.retry_budget elapsed (backoff attempt)
    then again (backoff attempt) e
    else stop (failed e)

-- After a response.
unfoldable pub after_response : Limits → ℕ → ℕ → Response → Next
after_response l attempt elapsed r =
    if ltb r.status 400
    then stop (if r.binary && not r.wraps then failed wrapping else succeeded r.status)
    else if r.status == 429
    then (if may_retry l attempt && within l.retry_budget elapsed r.retry_after
        then again r.retry_after (api r.status)
        else stop (failed (rate_limited (attempt + 1))))
    else if leb 500 r.status && may_retry l attempt
    then back_off l attempt elapsed (api r.status)
    else stop (failed (api r.status))

unfoldable pub after_reply : Limits → ℕ → ℕ → Reply → Next
after_reply l attempt elapsed cancelled = stop (failed context_ended)
after_reply l attempt elapsed unreadable = stop (failed reading)
after_reply l attempt elapsed (dropped permanent) =
    if may_retry l attempt && not permanent
    then back_off l attempt elapsed network
    else stop (failed network)
after_reply l attempt elapsed (answered r) = after_response l attempt elapsed r

-- !readOnlyIntent && (mutationIntent || method != http.MethodGet)
unfoldable pub invalidates : Call → Bool
invalidates c = not c.read_only_intent && (c.mutation_intent || not (str_eq c.method (str "GET")))

-- What a response makes the client note.
unfoldable pub note_response : Call → Response → Trace → Trace
note_response c r t =
    let seen = if r.paced then record t { limiter = observe_headers ∷ t.limiter } else t in
    if ltb r.status 400
    then record seen {
      limiter = on_success ∷ seen.limiter;
      invalidated = seen.invalidated || invalidates c;
    }
    else if r.status == 429
    then record seen { limiter = on_rate_limit ∷ seen.limiter }
    else seen

unfoldable pub note_reply : Call → Reply → Trace → Trace
note_reply c (answered r) t = note_response c r t
note_reply c _ t = t

-- A back-off sleep; one of a negative duration ends at once.
unfoldable pub slept : ℤ → Trace → Trace
slept (pos wait) t = record t { backed_off = t.backed_off + wait }
slept (negsuc n) t = t

-- A wait in a limiter, at the start of an attempt.
unfoldable pub limited : ℕ → Trace → Trace
limited wait t = record t { paced = t.paced + wait }

-- All the time that the call has waited.
abbrev pub waited : Trace → ℕ
waited t = t.backed_off + t.paced

-- The attempts from one on; `left` of them may be made. Past the last the loop returns `last`.
unfoldable pub attempts : Limits → (ℕ → Round) → ℕ → ℕ → DoError → Trace → Done
attempts l rounds zero attempt last t = record { result = failed last; trace = t }
attempts l rounds (suc left) attempt last t =
    let round = rounds attempt in
    let budgeted = limited round.platform_wait t in
    let ready = limited round.limiter_wait budgeted in
    let sent = note_reply l.call round.reply (record ready { requests = ready.requests + 1 }) in
    elim round.admitted [
      | false ↦ record { result = failed not_admitted; trace = budgeted }
      | true ↦ elim round.built [
        | false ↦ record { result = failed creating; trace = ready }
        | true ↦ elim (after_reply l attempt (round.elapsed (waited sent)) round.reply) [
          | stop r ↦ record { result = r; trace = sent }
          | again wait e ↦ elim round.interrupted [
            | true ↦ record { result = failed context_ended; trace = slept wait sent }
            | false ↦ attempts l rounds left (attempt + 1) e (slept wait sent)
          ]
        ]
      ]
    ]

-- The verify-mode gate.
unfoldable pub gated : Settings → Call → Bool
gated s c =
    not c.read_only_intent
    && ((c.mutation_intent || is_mutating_verb c.method)
        && (s.verify_env && not s.verify_live_http))

-- A call that ends before any attempt.
unfoldable pub ended : DoResult → Done
ended r = record { result = r; trace = no_trace }

unfoldable pub with_policy : Call → (ℕ → Round) → Settings → Option RetryPolicy → Done
with_policy c rounds s none = ended (failed no_budget)
with_policy c rounds s (some p) =
    let n = max_retries s p in
    attempts (record { call = c; retries = n; retry_budget = p.retry_budget }) rounds (suc n) 0
      no_budget no_trace

unfoldable pub do_internal : Call → (ℕ → Round) → Settings → Done
do_internal c rounds s =
    if gated s c then ended synthetic else elim (reject_unresolved_path_params c.path) [
      | some name ↦ ended (failed unresolved)
      | none ↦
          if not s.body_marshals
          then ended (failed marshaling)
          else if not s.has_auth
          then ended (failed no_auth)
          else if s.dry_run
          then ended shown
          else with_policy c rounds s (platform_retry_policy s)
    ]
