-- ===== src/Cliutil/Limiter/Range.antt =====
-- The rate stays between the floor and the user's limit, whatever the server says.
use iconify_cli.Base.{
  ◌+◌, ◌≡◌, refl, subst, ◌∙◌, true, false, leb, Option, none, some, List, [], ◌∷◌, arith,
  Bool-cases, inl, inr, if◌then◌else◌,
}
use iconify_cli.Base.Int.{ℤ, is_negative}
use iconify_cli.Cliutil.Limiter.{
  at_least, at_most, started, under_max, fixed, Rates, AdaptiveLimiter, new_adaptive_limiter,
  observe_headers, ramped, on_success, on_rate_limit,
}

-- What is relied on of the order of floats that are no NaN, and of halving: a positive rate falls.
pub record IsOrdered (f : Rates) : Type 0 where
  pub irrefl : (a : f.Rate) → f.lt a a ≡ false
  pub asym : (a b : f.Rate) → f.lt a b ≡ true → f.lt b a ≡ false
  pub neg_trans : (a b c : f.Rate) → f.lt a b ≡ false → f.lt b c ≡ false → f.lt a c ≡ false
  pub halves : (a : f.Rate) → f.lt f.zero a ≡ true → f.lt a (f.halved a) ≡ false
  pub half_positive : f.lt f.zero f.half ≡ true

module _ (f : Rates) (o : IsOrdered f) where
  -- The floor is positive, the rate is at least the floor, and at most the user's limit if there is one.
  pub record InRange (l : AdaptiveLimiter f) : Type 0 where
    pub positive : f.lt f.zero l.floor ≡ true
    pub above : f.lt l.rate l.floor ≡ false
    pub below : f.lt f.zero l.max_rate ≡ true → f.lt l.max_rate l.rate ≡ false
    pub room : f.lt f.zero l.max_rate ≡ true → f.lt l.max_rate l.floor ≡ false

  -- An event that the limiter is told of.
  pub data Event : Type 0 where
    headers : ℤ → Option f.Seconds → Event
    success rate_limit : Event

  unfoldable pub handle : Event → AdaptiveLimiter f → AdaptiveLimiter f
  handle (headers remaining secs) l = observe_headers f remaining secs l
  handle success l = on_success f l
  handle rate_limit l = on_rate_limit f l

  unfoldable pub handle_all : List Event → AdaptiveLimiter f → AdaptiveLimiter f
  handle_all [] l = l
  handle_all (e ∷ es) l = handle_all es (handle e l)

  -- A rate that is clamped is in the range.
  clamped-floor : (a floor : f.Rate) → f.lt (at_least f a floor) floor ≡ false
  clamped-floor a floor = ground (arith, o.irrefl floor)

  clamped-max :
      (a floor max_rate : f.Rate)
      → f.lt max_rate floor ≡ false
      → f.lt max_rate (at_least f (at_most f a max_rate) floor) ≡ false
  clamped-max a floor max_rate h = ground (arith, h, o.irrefl max_rate)

  -- The same limiter at a clamped rate.
  abbrev at_rate : AdaptiveLimiter f → f.Rate → f.Rate
  at_rate l a = at_least f (under_max f a l.max_rate) l.floor

  at_rate-max :
      (l : AdaptiveLimiter f) (a : f.Rate)
      → InRange l
      → f.lt f.zero l.max_rate ≡ true
      → f.lt l.max_rate (at_rate l a) ≡ false
  at_rate-max l a r m = rw m (clamped-max a l.floor l.max_rate (r.room m))

  on_success-InRange : (l : AdaptiveLimiter f) → InRange l → InRange (on_success f l)
  unfolding on_success ramped
  on_success-InRange l r = elim (Bool-cases l.header_driven) [
    | inl h ↦
        simp h (record { positive = r.positive; above = r.above; below = r.below; room = r.room })
    | inr h ↦ elim (Bool-cases (leb l.ramp_after (l.successes + 1))) [
      | inl k ↦
          simp (h, k)
            (record {
              positive = r.positive;
              above = clamped-floor _ l.floor;
              below = at_rate-max l _ r;
              room = r.room;
            })
      | inr k ↦
          simp (h, k)
            (record { positive = r.positive; above = r.above; below = r.below; room = r.room })
    ]
  ]

  rate-positive : (l : AdaptiveLimiter f) → InRange l → f.lt f.zero l.rate ≡ true
  rate-positive l r = elim (Bool-cases (f.lt f.zero l.rate)) [
    | inl e ↦ e
    | inr e ↦
        let no_floor = o.neg_trans f.zero l.rate l.floor e r.above in let floor = r.positive in cc
  ]

  on_rate_limit-InRange : (l : AdaptiveLimiter f) → InRange l → InRange (on_rate_limit f l)
  unfolding on_rate_limit
  on_rate_limit-InRange l r = record {
    positive = r.positive;
    above = clamped-floor (f.halved l.rate) l.floor;
    below = λ m. elim (Bool-cases (f.lt (f.halved l.rate) l.floor)) [
      | inl e ↦ rw e (r.room m)
      | inr e ↦ rw e (
          o.neg_trans l.max_rate l.rate (f.halved l.rate) (r.below m)
            (o.halves l.rate (rate-positive l r)))
    ];
    room = r.room;
  }

  observe_headers-InRange :
      (remaining : ℤ) (secs : Option f.Seconds) (l : AdaptiveLimiter f)
      → InRange l
      → InRange (observe_headers f remaining secs l)
  unfolding observe_headers
  observe_headers-InRange remaining none l r = r
  observe_headers-InRange remaining (some s) l r = elim (Bool-cases (f.is_positive s)) [
    | inr e ↦ rw e r
    | inl e ↦ elim (Bool-cases (is_negative remaining)) [
      | inl n ↦ rw (e, n) r
      | inr n ↦
          rw (e, n)
            (record {
              positive = r.positive;
              above = clamped-floor _ l.floor;
              below = at_rate-max l _ r;
              room = r.room;
            })
    ]
  ]

  pub handle_all-InRange :
      (es : List Event) (l : AdaptiveLimiter f) → InRange l → InRange (handle_all es l)
  unfolding handle_all handle
  handle_all-InRange [] l r = r
  handle_all-InRange (headers n s ∷ es) l r =
      handle_all-InRange es _ (observe_headers-InRange n s l r)
  handle_all-InRange (success ∷ es) l r = handle_all-InRange es _ (on_success-InRange l r)
  handle_all-InRange (rate_limit ∷ es) l r = handle_all-InRange es _ (on_rate_limit-InRange l r)

  started-InRange : (a : f.Rate) → f.lt f.zero a ≡ true → InRange (started f a a)
  unfolding started
  started-InRange a p = record {
    positive = ground (arith, p, o.half_positive);
    above = ground (arith, o.irrefl a);
    below = λ m. o.irrefl a;
    room = λ m. ground (arith, o.irrefl a);
  }

  fixed-started :
      (a : f.Rate) (l : AdaptiveLimiter f)
      → fixed f a ≡ some l
      → (f.lt f.zero a ≡ true) × (l ≡ started f a a)
  unfolding fixed new_adaptive_limiter
  fixed-started a l h = elim (Bool-cases (f.lt f.zero a)) [
    | inl p ↦ (
      p,
      let q : some (started f a a) ≡ some l =
            subst (λ b. (if b then some (started f a a) else none) ≡ some l) p h in
          cc,
    )
    | inr p ↦
        let q : ◌≡◌ {A = Option (AdaptiveLimiter f)} none (some l) =
          subst (λ b. (if b then some (started f a a) else none) ≡ some l) p h in
        cc
  ]

  handle-bounds :
      (e : Event) (l : AdaptiveLimiter f)
      → ((handle e l).max_rate ≡ l.max_rate) × ((handle e l).floor ≡ l.floor)
  unfolding handle observe_headers on_success on_rate_limit
  handle-bounds (headers n none) l = (refl, refl)
  handle-bounds (headers n (some s)) l = (ground arith, ground arith)
  handle-bounds success l = (ground arith, ground arith)
  handle-bounds rate_limit l = (refl, refl)

  handle_all-bounds :
      (es : List Event) (l : AdaptiveLimiter f)
      → ((handle_all es l).max_rate ≡ l.max_rate) × ((handle_all es l).floor ≡ l.floor)
  unfolding handle_all
  handle_all-bounds [] l = (refl, refl)
  handle_all-bounds (e ∷ es) l =
      let (m, b) = handle_all-bounds es (handle e l) in
      let (m', b') = handle-bounds e l in (m ∙ m', b ∙ b')

  -- A limiter at the user's rate never paces above that rate, nor below its floor, half a request a
  -- second or the rate where that is lower, after any sequence of responses, with or without headers.
  pub handle_all-fixed :
      (a : f.Rate) (l : AdaptiveLimiter f) (es : List Event)
      → fixed f a ≡ some l
      → (f.lt a (handle_all es l).rate ≡ false)
        × (f.lt (handle_all es l).rate (at_most f f.half a) ≡ false)
  handle_all-fixed a l es h =
      let (p, e) = fixed-started a l h in
      let r = handle_all-InRange es (started f a a) (started-InRange a p) in
      let (m, b) = handle_all-bounds es (started f a a) in
      unfold started in
      rw e (
        subst (λ x. f.lt x (handle_all es (started f a a)).rate ≡ false) m (r.below (rw m p)),
        subst (λ x. f.lt (handle_all es (started f a a)).rate x ≡ false) b r.above,
      )
