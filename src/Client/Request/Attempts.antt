-- ===== src/Client/Request/Attempts.antt =====
-- How often a call goes out.
use iconify_cli.Base.{ℕ, suc, ◌+◌, ◌≡◌, refl, true, arith, ◌⊎◌, Bool-cases, inl, inr}
use iconify_cli.Base.Int.{ℤ, pos, negsuc}
use iconify_cli.Client.Request.{
  network, api, not_admitted, creating, context_ended, Call, Reply, cancelled, unreadable, dropped,
  answered, Round, DoError, DoResult, failed, Trace, Done, Next, stop, again, Limits, within,
  may_retry, back_off, after_response, after_reply, note_response, note_reply, slept, limited,
  waited, attempts,
}

back_off-again :
    (l : Limits) (attempt elapsed : ℕ) (e : DoError) (w : ℤ) (e' : DoError)
    → back_off l attempt elapsed e ≡ again w e'
    → within l.retry_budget elapsed w ≡ true
unfolding back_off
back_off-again l attempt elapsed e w e' h = ground arith

-- The call is tried again only where that is allowed, and the wait is within the budget.
pub after_reply-again :
    (l : Limits) (attempt elapsed : ℕ) (r : Reply) (w : ℤ) (e : DoError)
    → after_reply l attempt elapsed r ≡ again w e
    → (may_retry l attempt ≡ true) × (within l.retry_budget elapsed w ≡ true)
unfolding after_reply after_response
after_reply-again l attempt elapsed cancelled w e h = (ground arith, ground arith)
after_reply-again l attempt elapsed unreadable w e h = (ground arith, ground arith)
after_reply-again l attempt elapsed (dropped p) w e h =
    (ground arith, ground (arith, back_off-again l attempt elapsed network w e))
after_reply-again l attempt elapsed (answered r) w e h =
    (ground arith, ground (arith, back_off-again l attempt elapsed (api r.status) w e))

pub requests-note_reply :
    (c : Call) (r : Reply) (t : Trace) → (note_reply c r t).requests ≡ t.requests
unfolding note_reply note_response
requests-note_reply c cancelled t = refl
requests-note_reply c unreadable t = refl
requests-note_reply c (dropped p) t = refl
requests-note_reply c (answered r) t = ground arith

pub requests-slept : (w : ℤ) (t : Trace) → (slept w t).requests ≡ t.requests
unfolding slept
requests-slept (pos w) t = refl
requests-slept (negsuc n) t = refl

module _ (l : Limits) (rounds : ℕ → Round) where
  -- The trace after the first limiter, when an attempt may be sent, and after it has been.
  abbrev pub budgeted_at : ℕ → Trace → Trace
  budgeted_at attempt t = limited (rounds attempt).platform_wait t

  abbrev pub ready_at : ℕ → Trace → Trace
  ready_at attempt t = limited (rounds attempt).limiter_wait (budgeted_at attempt t)

  abbrev pub sent_at : ℕ → Trace → Trace
  sent_at attempt t =
      let ready = ready_at attempt t in
      note_reply l.call (rounds attempt).reply (record ready { requests = ready.requests + 1 })

  -- An attempt ends the call, or is followed by a sleep and by another one.
  abbrev pub next_at : ℕ → Trace → Next
  next_at attempt t =
      after_reply l attempt ((rounds attempt).elapsed (waited (sent_at attempt t)))
        (rounds attempt).reply

  -- What one attempt gives: it is not sent, it ends the call, its sleep is cut short, or it is
  -- followed by another one.
  abbrev pub Unsent : ℕ → Trace → Done → Type 0
  Unsent attempt t d =
      ((d.result ≡ failed not_admitted) × (d.trace ≡ budgeted_at attempt t))
      ⊎ ((d.result ≡ failed creating) × (d.trace ≡ ready_at attempt t))

  abbrev pub Ends : ℕ → Trace → Done → Type 0
  Ends attempt t d = (next_at attempt t ≡ stop d.result) × (d.trace ≡ sent_at attempt t)

  abbrev pub CutShort : ℕ → Trace → Done → Type 0
  CutShort attempt t d =
      (w : ℤ) × (e : DoError) × (next_at attempt t ≡ again w e)
      × (d.result ≡ failed context_ended)
      × (d.trace ≡ slept w (sent_at attempt t))

  abbrev pub GoesOn : ℕ → ℕ → Trace → Done → Type 0
  GoesOn left attempt t d =
      (w : ℤ) × (e : DoError) × (next_at attempt t ≡ again w e)
      × (d ≡ attempts l rounds left (attempt + 1) e (slept w (sent_at attempt t)))

  Next-cases :
      (n : Next) → ((r : DoResult) × (n ≡ stop r)) ⊎ ((w : ℤ) × (e : DoError) × (n ≡ again w e))
  Next-cases (stop r) = inl (r, refl)
  Next-cases (again w e) = inr (w, e, refl)

  pub attempts-cases :
      (left attempt : ℕ) (last : DoError) (t : Trace)
      → let d = attempts l rounds (suc left) attempt last t in
        Unsent attempt t d ⊎ (Ends attempt t d ⊎ (CutShort attempt t d ⊎ GoesOn left attempt t d))
  unfolding attempts
  attempts-cases left attempt last t = elim (Bool-cases (rounds attempt).admitted) [
    | inr a ↦ rw (a, attempts) (inl (inl (refl, refl)))
    | inl a ↦ elim (Bool-cases (rounds attempt).built) [
      | inr b ↦ rw (a, attempts) (rw b (inl (inr (refl, refl))))
      | inl b ↦ elim (Next-cases (next_at attempt t)) [
        | inl (r, n) ↦ rw (a, attempts) (rw b (rw n (inr (inl (refl, refl)))))
        | inr (w, e, n) ↦ elim (Bool-cases (rounds attempt).interrupted) [
          | inl i ↦ rw (a, attempts) (rw b (rw n (rw i (inr (inr (inl (w, e, refl, refl, refl)))))))
          | inr i ↦ rw (a, attempts) (rw b (rw n (rw i (inr (inr (inr (w, e, refl, refl)))))))
        ]
      ]
    ]
  ]
