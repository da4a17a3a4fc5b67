-- ===== src/Client/Request/Budget.antt =====
-- How many requests a call sends, and how long it sleeps between them (not counting the limiters).
use iconify_cli.Base.{
  ℕ, zero, suc, ◌+◌, ◌≤◌, ◌≡◌, refl, sym, ◌∙◌, subst, true, false, ◌||◌, some, arith, ◌⊎◌,
  if◌then◌else◌, Bool-cases, Option-cases, some-inj, inl, inr,
}
use iconify_cli.Base.Int.{ℤ, pos, negsuc}
use iconify_cli.Client.Path.{reject_unresolved_path_params}
use iconify_cli.Client.Request.{
  DoResult, synthetic, shown, failed, unresolved, marshaling, no_auth, is_mutating_verb, again,
  Call, RetryPolicy, Settings, Reply, cancelled, unreadable, dropped, answered, Round, DoError,
  Trace, Done, Limits, no_trace, no_budget, client_max_retries, platform_retry_policy, lowered,
  max_retries, can_replay, within, sum_le, may_retry, note_response, note_reply, slept, limited,
  waited, attempts, gated, ended, with_policy, do_internal,
}
use iconify_cli.Client.Request.Attempts.{
  after_reply-again, requests-note_reply, requests-slept, next_at, ready_at, sent_at, Unsent,
  attempts-cases,
}

backed_off-note_reply :
    (c : Call) (r : Reply) (t : Trace) → (note_reply c r t).backed_off ≡ t.backed_off
unfolding note_reply note_response
backed_off-note_reply c cancelled t = refl
backed_off-note_reply c unreadable t = refl
backed_off-note_reply c (dropped p) t = refl
backed_off-note_reply c (answered r) t = ground arith

module _ (l : Limits) (rounds : ℕ → Round) where
  pub requests-sent_at :
      (attempt : ℕ) (t : Trace) → (sent_at l rounds attempt t).requests ≡ t.requests + 1
  unfolding limited
  requests-sent_at attempt t =
      let ready = ready_at l rounds attempt t in
      requests-note_reply l.call (rounds attempt).reply
        (record ready { requests = ready.requests + 1 })

  backed_off-sent_at :
      (attempt : ℕ) (t : Trace) → (sent_at l rounds attempt t).backed_off ≡ t.backed_off
  unfolding limited
  backed_off-sent_at attempt t =
      let ready = ready_at l rounds attempt t in
      backed_off-note_reply l.call (rounds attempt).reply
        (record ready { requests = ready.requests + 1 })

  -- An attempt that is not sent only waits in the limiters.
  pub Unsent-eq :
      (attempt : ℕ) (t : Trace) (d : Done)
      → Unsent l rounds attempt t d
      → (d.trace.requests ≡ t.requests)
        × (d.trace.backed_off ≡ t.backed_off)
        × (d.trace.invalidated ≡ t.invalidated)
  unfolding limited
  Unsent-eq attempt t d (inl (_, e)) = rw e (refl, refl, refl)
  Unsent-eq attempt t d (inr (_, e)) = rw e (refl, refl, refl)

  requests-attempts :
      (left attempt : ℕ) (last : DoError) (t : Trace)
      → (attempts l rounds left attempt last t).trace.requests ≤ t.requests + left
  requests-attempts zero attempt last t = unfold attempts in omega arith
  requests-attempts (suc left) attempt last t =
      let s = sent_at l rounds attempt t in
      let q = requests-sent_at attempt t in
      elim (attempts-cases l rounds left attempt last t) [
        | inl u ↦ omega (arith, Unsent-eq attempt t _ u)
        | inr (inl (_, e)) ↦ rw e (omega (arith, q))
        | inr (inr (inl (w, x, _, _, e))) ↦ rw e (omega (arith, q, requests-slept w s))
        | inr (inr (inr (w, x, _, e))) ↦ rw e (
            omega
              (arith, q, requests-slept w s, requests-attempts left (attempt + 1) x (slept w s)))
      ]

  -- A call that may not be replayed ends with its first attempt.
  requests-unsafe :
      (left attempt : ℕ) (last : DoError) (t : Trace)
      → can_replay l.call ≡ false
      → (attempts l rounds (suc left) attempt last t).trace.requests ≤ t.requests + 1
  requests-unsafe left attempt last t h =
      let s = sent_at l rounds attempt t in
      let q = requests-sent_at attempt t in
      elim (attempts-cases l rounds left attempt last t) [
        | inl u ↦ omega (arith, Unsent-eq attempt t _ u)
        | inr (inl (_, e)) ↦ rw e (omega (arith, q))
        | inr (inr (inl (w, x, _, _, e))) ↦ rw e (omega (arith, q, requests-slept w s))
        | inr (inr (inr (w, x, n, _))) ↦
            let m : may_retry l attempt ≡ true = (after_reply-again l attempt _ _ w x n).0 in
            absurd (unfold may_retry in ground (arith, m, h))
      ]

-- The clock counts the time that is spent in sleeps and limiters.
abbrev pub Counts : (ℕ → Round) → Type 0
Counts rounds = (attempt w : ℕ) → w ≤ (rounds attempt).elapsed w

within-slept :
    (b elapsed : ℕ) (w : ℤ) (t : Trace)
    → waited t ≤ elapsed
    → t.backed_off ≤ b
    → within (pos b) elapsed w ≡ true
    → (slept w t).backed_off ≤ b
unfolding within sum_le slept
within-slept b elapsed (pos n) t h k e = ground arith
within-slept b elapsed (negsuc n) t h k e = k

module _ (l : Limits) (rounds : ℕ → Round) (b : ℕ) (budget : l.retry_budget ≡ pos b)
    (c : Counts rounds) where
  slept-le :
      (attempt : ℕ) (t : Trace) (w : ℤ) (e : DoError)
      → t.backed_off ≤ b
      → next_at l rounds attempt t ≡ again w e
      → (slept w (sent_at l rounds attempt t)).backed_off ≤ b
  slept-le attempt t w e h n =
      let s = sent_at l rounds attempt t in
      let q = backed_off-sent_at l rounds attempt t in
      within-slept b ((rounds attempt).elapsed (waited s)) w s (c attempt (waited s))
        (omega (arith, q))
        (subst (λ r. within r ((rounds attempt).elapsed (waited s)) w ≡ true) budget
          (after_reply-again l attempt _ _ w e n).1)

  backed_off-attempts :
      (left attempt : ℕ) (last : DoError) (t : Trace)
      → t.backed_off ≤ b
      → (attempts l rounds left attempt last t).trace.backed_off ≤ b
  backed_off-attempts zero attempt last t h = unfold attempts in h
  backed_off-attempts (suc left) attempt last t h =
      let s = sent_at l rounds attempt t in
      let q = backed_off-sent_at l rounds attempt t in
      elim (attempts-cases l rounds left attempt last t) [
        | inl u ↦ omega (arith, Unsent-eq l rounds attempt t _ u)
        | inr (inl (_, e)) ↦ rw e (omega (arith, q))
        | inr (inr (inl (w, x, n, _, e))) ↦ rw e (slept-le attempt t w x h n)
        | inr (inr (inr (w, x, n, e))) ↦
            rw e (backed_off-attempts left (attempt + 1) x (slept w s) (slept-le attempt t w x h n))
      ]

lowered-le : (r : ℕ) (z : ℤ) → r ≤ 3 → lowered r z ≤ 3
unfolding lowered
lowered-le r (pos n) h = ground arith
lowered-le r (negsuc n) h = h

lowered-le_attempts : (r n : ℕ) → lowered r (pos (suc n)) ≤ n
unfolding lowered
lowered-le_attempts r n = ground arith

max_retries-le : (s : Settings) (p : RetryPolicy) → max_retries s p ≤ 3
unfolding max_retries client_max_retries
max_retries-le s p =
    lowered-le (if s.verify_env || s.dogfood_env then 0 else 3) p.max_attempts (ground arith)

max_retries-le_policy :
    (s : Settings) (p : RetryPolicy) (b : ℤ) (n : ℕ)
    → p ≡ record { max_attempts = pos (suc n); retry_budget = b }
    → max_retries s p ≤ n
unfolding max_retries
max_retries-le_policy s p b n e = rw e (lowered-le_attempts (client_max_retries s) n)

module _ (c : Call) (rounds : ℕ → Round) (s : Settings) where
  -- A call ends before any attempt, or makes its attempts under a policy.
  abbrev pub Early : Done → Type 0
  Early d = (r : DoResult) × (d ≡ ended r)

  abbrev pub Tries : Done → Type 0
  Tries d =
      (p : RetryPolicy) × (gated s c ≡ false)
      × (platform_retry_policy s ≡ some p)
      × (d ≡ with_policy c rounds s (some p))

  pub do_internal-cases : Early (do_internal c rounds s) ⊎ Tries (do_internal c rounds s)
  unfolding do_internal with_policy ended platform_retry_policy client_max_retries attempts
  do_internal-cases = elim (Bool-cases (gated s c)) [
    | inl g ↦ rw (g, do_internal) (inl (synthetic, refl))
    | inr g ↦ elim (Option-cases (reject_unresolved_path_params c.path)) [
      | inr (name, e) ↦ rw (g, do_internal) (rw e (inl (failed unresolved, refl)))
      | inl e ↦ elim (Bool-cases s.body_marshals) [
        | inr b ↦ rw (g, do_internal) (rw e (rw b (inl (failed marshaling, refl))))
        | inl b ↦ elim (Bool-cases s.has_auth) [
          | inr a ↦ rw (g, do_internal) (rw e (rw b (rw a (inl (failed no_auth, refl)))))
          | inl a ↦ elim (Bool-cases s.dry_run) [
            | inl d ↦ rw (g, do_internal) (rw e (rw b (rw a (rw d (inl (shown, refl))))))
            | inr d ↦ elim (Option-cases (platform_retry_policy s)) [
              | inl p ↦
                  rw (g, do_internal)
                    (rw e (
                      rw b
                        (rw a (rw d (rw p (unfold with_policy in inl (failed no_budget, refl)))))))
              | inr (p, q) ↦
                  rw (g, do_internal) (rw e (rw b (rw a (rw d (rw q (inr (p, refl, refl, refl)))))))
            ]
          ]
        ]
      ]
    ]
  ]

  -- A call that may not be sent again, such as a write without a key, goes out at most once, whatever
  -- happens to it.
  pub requests-do_internal_unsafe :
      can_replay c ≡ false → (do_internal c rounds s).trace.requests ≤ 1
  unfolding ended
  requests-do_internal_unsafe h = elim do_internal-cases [
    | inl (r, e) ↦ rw e (omega arith)
    | inr (p, _, _, e) ↦
        let n = max_retries s p in
        let l : Limits = record { call = c; retries = n; retry_budget = p.retry_budget } in
        rw e (unfold with_policy in requests-unsafe l rounds n 0 no_budget no_trace h)
  ]

  -- No call goes out more than four times, nor more often than its policy's attempts.
  pub requests-do_internal :
      ((do_internal c rounds s).trace.requests ≤ 4)
      × ((b : ℤ) (n : ℕ)
          → platform_retry_policy s ≡ some (record { max_attempts = pos (suc n); retry_budget = b })
          → (do_internal c rounds s).trace.requests ≤ suc n)
  unfolding ended
  requests-do_internal = elim do_internal-cases [
    | inl (r, e) ↦ rw e (omega arith, λ b n q. omega arith)
    | inr (p, _, f, e) ↦
        let m = max_retries s p in
        let l : Limits = record { call = c; retries = m; retry_budget = p.retry_budget } in
        let q = requests-attempts l rounds (suc m) 0 no_budget no_trace in
        rw e (
          unfold with_policy in
          (
            omega (arith, q, max_retries-le s p),
            λ b n g. omega (arith, q, max_retries-le_policy s p b n (some-inj (sym f ∙ g))),
          ))
  ]

  -- Under a policy with a retry budget that is not negative, the back-off sleeps of a call, those
  -- between its attempts, add up to no more than the budget, if the clock counts them and the waits in
  -- the two limiters. The waits in the limiters themselves are not bounded by it.
  pub backed_off-do_internal :
      (p : RetryPolicy) (b : ℕ)
      → platform_retry_policy s ≡ some p
      → p.retry_budget ≡ pos b
      → Counts rounds
      → (do_internal c rounds s).trace.backed_off ≤ b
  unfolding ended
  backed_off-do_internal p b f k t = elim do_internal-cases [
    | inl (r, e) ↦ rw e (omega arith)
    | inr (p', _, f', e) ↦
        let n = max_retries s p' in
        let l : Limits = record { call = c; retries = n; retry_budget = p'.retry_budget } in
        let k' : p'.retry_budget ≡ pos b =
          subst (λ (r : RetryPolicy). r.retry_budget ≡ pos b) (some-inj (sym f ∙ f')) k in
        rw e (
          unfold with_policy in
          backed_off-attempts l rounds b k' t (suc n) 0 no_budget no_trace (omega arith))
  ]

  -- In verify mode no writing call is sent, unless live requests are allowed.
  pub requests-do_internal_verify :
      s.verify_env ≡ true
      → s.verify_live_http ≡ false
      → c.read_only_intent ≡ false
      → (c.mutation_intent || is_mutating_verb c.method) ≡ true
      → do_internal c rounds s ≡ ended synthetic
  unfolding do_internal gated
  requests-do_internal_verify v w r m = ground (arith, v, w, r, m)
