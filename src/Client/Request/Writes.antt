-- ===== src/Client/Request/Writes.antt =====
-- When a call clears the cache.
use iconify_cli.Base.{
  ℕ, zero, suc, ◌+◌, ◌≤◌, ◌<◌, ◌≡◌, refl, ◌≢◌, sym, ◌∙◌, ◌↔◌, ◌⊎◌, Bool, true, false, ◌&&◌, ◌||◌,
  ltb, ◌==◌, ==_iff, arith, Bool-cases, ap, subst, inl, inr,
}
use iconify_cli.Base.Strings.{str, str_eq, str_eq_iff}
use iconify_cli.Base.Int.{ℤ, pos, negsuc}
use iconify_cli.Client.Request.{
  Call, Settings, Response, Reply, cancelled, unreadable, dropped, answered, Round, DoError, again,
  Trace, Limits, no_trace, no_budget, max_retries, after_response, after_reply, invalidates,
  note_response, note_reply, slept, limited, attempts, ended, with_policy, do_internal,
}
use iconify_cli.Client.Request.Attempts.{ready_at, sent_at, requests-slept, attempts-cases}
use iconify_cli.Client.Request.Budget.{requests-sent_at, Unsent-eq, do_internal-cases}

-- The caller does not declare the call a read, and means to change something or uses another method
-- than GET.
abbrev pub IsWrite : Call → Type 0
IsWrite c = (c.read_only_intent ≡ false) × ((c.mutation_intent ≡ true) ⊎ (c.method ≢ str "GET"))

-- A response below 400.
abbrev pub Succeeds : Reply → Type 0
Succeeds r = (a : Response) × (r ≡ answered a) × (a.status < 400)

invalidates→IsWrite : (c : Call) → invalidates c ≡ true → IsWrite c
unfolding invalidates
invalidates→IsWrite c h = elim (Bool-cases c.mutation_intent) [
  | inl m ↦ (ground arith, inl m)
  | inr m ↦ (ground arith, inr (λ e. ground (arith, m, str_eq_iff c.method (str "GET"))))
]

IsWrite→invalidates : (c : Call) → IsWrite c → invalidates c ≡ true
unfolding invalidates
IsWrite→invalidates c (r, inl m) = ground (arith, r, m)
IsWrite→invalidates c (r, inr n) = elim (Bool-cases (str_eq c.method (str "GET"))) [
  | inl e ↦ absurd (n ((str_eq_iff c.method (str "GET")).0 e))
  | inr e ↦ ground (arith, r, e)
]

is_success : Reply → Bool
is_success (answered r) = ltb r.status 400
is_success _ = false

is_success→Succeeds : (r : Reply) → is_success r ≡ true → Succeeds r
unfolding is_success
is_success→Succeeds cancelled h = absurd (cc)
is_success→Succeeds unreadable h = absurd (cc)
is_success→Succeeds (dropped p) h = absurd (cc)
is_success→Succeeds (answered r) h = (r, refl, ground arith)

Succeeds→is_success : (r : Reply) → Succeeds r → is_success r ≡ true
unfolding is_success
Succeeds→is_success r (a, e, h) = rw e (ground arith)

invalidated-note_reply :
    (c : Call) (r : Reply) (t : Trace)
    → (note_reply c r t).invalidated ≡ (t.invalidated || (is_success r && invalidates c))
unfolding note_reply note_response is_success
invalidated-note_reply c cancelled t = ground arith
invalidated-note_reply c unreadable t = ground arith
invalidated-note_reply c (dropped p) t = ground arith
invalidated-note_reply c (answered r) t = ground arith

invalidated-slept : (w : ℤ) (t : Trace) → (slept w t).invalidated ≡ t.invalidated
unfolding slept
invalidated-slept (pos w) t = refl
invalidated-slept (negsuc n) t = refl

-- After a response below 400 the call is not tried again.
is_success-again :
    (l : Limits) (attempt elapsed : ℕ) (r : Reply) (w : ℤ) (e : DoError)
    → after_reply l attempt elapsed r ≡ again w e
    → is_success r ≡ false
unfolding after_reply after_response is_success
is_success-again l attempt elapsed cancelled w e h = refl
is_success-again l attempt elapsed unreadable w e h = refl
is_success-again l attempt elapsed (dropped p) w e h = refl
is_success-again l attempt elapsed (answered r) w e h = ground arith

module _ (c : Call) (rounds : ℕ → Round) where
  -- The cache is cleared exactly if the call is a write and one of its requests, from one on, got a
  -- response below 400.
  abbrev Clears : ℕ → Trace → Type 0
  Clears from t =
      (t.invalidated ≡ true)
      ↔ (IsWrite c × ((k : ℕ) × (from ≤ k) × (k < t.requests) × Succeeds (rounds k).reply))

  Clears-none : (from : ℕ) (t : Trace) → t.invalidated ≡ false → t.requests ≡ from → Clears from t
  Clears-none from t i q =
      (λ h. absurd (cc (h, i)), λ (_, (k, a, b, _)). absurd (omega (arith, a, b, q)))

  Clears-one :
      (from : ℕ) (t : Trace)
      → t.invalidated ≡ (is_success (rounds from).reply && invalidates c)
      → t.requests ≡ from + 1
      → Clears from t
  Clears-one from t i q = (
    λ h.
        let s : is_success (rounds from).reply ≡ true = ground (arith, i, h) in
        let w : invalidates c ≡ true = ground (arith, i, h) in
        (
          invalidates→IsWrite c w,
          (from, omega arith, omega (arith, q), is_success→Succeeds (rounds from).reply s),
        ),
    λ (w, (k, a, b, s)).
        let e : k ≡ from = omega (arith, a, b, q) in
        let s' = Succeeds→is_success (rounds k).reply s in
        let f : is_success (rounds from).reply ≡ true =
          subst (λ j. is_success (rounds j).reply ≡ true) e s' in
        let v = IsWrite→invalidates c w in ground (arith, i, f, v),
  )

  Clears-later :
      (from : ℕ) (t : Trace)
      → is_success (rounds from).reply ≡ false
      → Clears (from + 1) t
      → Clears from t
  Clears-later from t n h = (
    λ i. let (w, (k, a, b, s)) = h.0 i in (w, (k, omega (arith, a), b, s)),
    λ (w, (k, a, b, s)). elim (Bool-cases (k == from)) [
      | inl e ↦
          let e' : k ≡ from = (==_iff k from).0 e in
          let s' : is_success (rounds from).reply ≡ true =
            subst (λ j. is_success (rounds j).reply ≡ true) e'
              (Succeeds→is_success (rounds k).reply s) in
          absurd (cc (s', n))
      | inr e ↦ h.1 (w, (k, ground (arith, a, e), b, s))
    ],
  )

module _ (l : Limits) (rounds : ℕ → Round) where
  invalidated-sent_at :
      (attempt : ℕ) (t : Trace)
      → t.invalidated ≡ false
      → (sent_at l rounds attempt t).invalidated
        ≡ (is_success (rounds attempt).reply && invalidates l.call)
  unfolding limited
  invalidated-sent_at attempt t i =
      let ready = ready_at l rounds attempt t in
      ground (
        arith,
        i,
        invalidated-note_reply l.call (rounds attempt).reply
            (record ready { requests = ready.requests + 1 }),
      )

  -- The trace after an attempt that is followed by a sleep.
  invalidated-slept_at :
      (attempt : ℕ) (t : Trace) (w : ℤ)
      → t.invalidated ≡ false
      → is_success (rounds attempt).reply ≡ false
      → (slept w (sent_at l rounds attempt t)).invalidated ≡ false
  invalidated-slept_at attempt t w i n =
      let s = sent_at l rounds attempt t in
      invalidated-slept w s ∙ ground (arith, n, invalidated-sent_at attempt t i)

  Clears-attempts :
      (left attempt : ℕ) (last : DoError) (t : Trace)
      → t.invalidated ≡ false
      → t.requests ≡ attempt
      → Clears l.call rounds attempt (attempts l rounds left attempt last t).trace
  Clears-attempts zero attempt last t i q =
      unfold attempts in Clears-none l.call rounds attempt t i q
  Clears-attempts (suc left) attempt last t i q =
      let s = sent_at l rounds attempt t in
      let p = requests-sent_at l rounds attempt t in
      elim (attempts-cases l rounds left attempt last t) [
        | inl u ↦
            let d = attempts l rounds (suc left) attempt last t in
            let f = Unsent-eq l rounds attempt t d u in
            Clears-none l.call rounds attempt d.trace (f.2 ∙ i) (f.0 ∙ q)
        | inr (inl (_, e)) ↦ rw e (
            Clears-one l.call rounds attempt s (invalidated-sent_at attempt t i)
              (omega (arith, p, q)))
        | inr (inr (inl (w, x, n, _, e))) ↦
            let m = is_success-again l attempt _ _ w x n in
            rw e (
              Clears-one l.call rounds attempt (slept w s)
                (invalidated-slept_at attempt t w i m ∙ sym (ap (λ b. b && invalidates l.call) m))
                (omega (arith, p, q, requests-slept w s)))
        | inr (inr (inr (w, x, n, e))) ↦
            let m = is_success-again l attempt _ _ w x n in
            rw e (
              Clears-later l.call rounds attempt
                (attempts l rounds left (attempt + 1) x (slept w s)).trace m
                (Clears-attempts left (attempt + 1) x (slept w s)
                  (invalidated-slept_at attempt t w i m) (omega (arith, p, q, requests-slept w s))))
      ]

-- A call clears the cache exactly if it is a write (no read-only intent, and an intent to change or a
-- method other than GET) and one of the requests that it sends gets a response below 400, even where
-- its binary body could not be wrapped. Requests are counted in the order of the attempts.
pub invalidated-do_internal :
    (c : Call) (rounds : ℕ → Round) (s : Settings)
    → let t = (do_internal c rounds s).trace in
      (t.invalidated ≡ true)
      ↔ (IsWrite c × ((k : ℕ) × (k < t.requests) × Succeeds (rounds k).reply))
unfolding ended
invalidated-do_internal c rounds s = elim (do_internal-cases c rounds s) [
  | inl (r, e) ↦ rw e ((λ h. absurd (cc), λ (_, (k, b, _)). absurd (omega arith)))
  | inr (p, _, _, e) ↦
      let n = max_retries s p in
      let l : Limits = record { call = c; retries = n; retry_budget = p.retry_budget } in
      let h = Clears-attempts l rounds (suc n) 0 no_budget no_trace refl refl in
      rw e (
        unfold with_policy in
        (
          λ i. let (w, (k, _, b, a)) = h.0 i in (w, (k, b, a)),
          λ (w, (k, b, a)). h.1 (w, (k, omega arith, b, a)),
        ))
]
