-- ===== src/Cliutil/Fanout/Ending.antt =====
-- FanoutRun ends: there is a next step of its own until it is done, and there are not many.
use iconify_cli.Base.{
  ℕ, suc, ◌+◌, ◌-◌, ◌*◌, ◌≤◌, ◌<◌, ◌≡◌, refl, ap, ◌⊎◌, inl, inr, Bool, true, false, leb, List, [],
  ◌∷◌, ◌++◌, length, arith, Bool-cases, length-append,
}
use iconify_cli.Cliutil.Fanout.{
  Outcome, State, IsDone, Step, ends, feeds, stops, closes, pulls, skips, calls, returns, Run,
  start, later,
}

module _ {V E : Type 0} (n workers : ℕ) (fn : ℕ → Outcome V E) where
  abbrev pending : Bool → ℕ
  pending true = 0
  pending false = 1

  -- How many steps there can still be.
  abbrev steps_left : State V E → ℕ
  steps_left s =
      4 * (n - s.next)
      + 3 * length s.jobs
      + 2 * length s.pulled
      + length s.running
      + pending s.closed
      + pending s.done

  length-taken :
      (i : ℕ) (xs before after : List ℕ)
      → xs ≡ before ++ i ∷ after
      → length xs ≡ suc (length (before ++ after))
  length-taken i xs before after e =
      let h : length xs ≡ length (before ++ i ∷ after) = ap length e in
      omega (arith, h, length-append before (i ∷ after), length-append before after)

  Step-lt : (s t : State V E) → Step n workers fn s t → steps_left t < steps_left s
  Step-lt s t (ends d) = ground (arith, d)
  Step-lt s t (feeds c h r) = omega (arith, length-append s.jobs (s.next ∷ []))
  Step-lt s t (stops c h d) = ground (arith, c)
  Step-lt s t (closes c h) = ground (arith, c)
  Step-lt s t (pulls i rest e w) = omega (arith, ap length e)
  Step-lt s t (skips before after i e d) = omega (arith, length-taken i s.pulled before after e)
  Step-lt s t (calls before after i e d) = omega (arith, length-taken i s.pulled before after e)
  Step-lt s t (returns before after i e) = omega (arith, length-taken i s.running before after e)

  Step-next : (s t : State V E) → Step n workers fn s t → s.next ≤ n → t.next ≤ n
  Step-next s t (ends d) h = h
  Step-next s t (feeds c l r) h = omega arith
  Step-next s t (stops c l d) h = omega arith
  Step-next s t (closes c l) h = h
  Step-next s t (pulls i rest e w) h = h
  Step-next s t (skips before after i e d) h = h
  Step-next s t (calls before after i e d) h = h
  Step-next s t (returns before after i e) h = h

  Run-bound :
      (k : ℕ) (s : State V E) → Run n workers fn k s → (k + steps_left s ≤ 4 * n + 2) × (s.next ≤ n)
  Run-bound k s start = (omega arith, omega arith)
  Run-bound k t (later {s = s} r st) =
      let (b, h) = Run-bound _ s r in (omega (arith, b, Step-lt s t st), Step-next s t st h)

  -- A next step of the feeder or of a worker: it leaves the context as it is.
  abbrev pub Goes : State V E → Type 0
  Goes s = (t : State V E) × Step n workers fn s t × (t.done ≡ s.done)

  Goes-pulled : (s : State V E) (i : ℕ) (xs : List ℕ) → s.pulled ≡ i ∷ xs → Goes s
  Goes-pulled s i xs e = elim (Bool-cases s.done) [
    | inl d ↦ (_, skips [] xs i e d, refl)
    | inr d ↦ (_, calls [] xs i e d, refl)
  ]

  List-cases : (xs : List ℕ) → (xs ≡ []) ⊎ ((i : ℕ) × (ys : List ℕ) × (xs ≡ i ∷ ys))
  List-cases [] = inl refl
  List-cases (i ∷ ys) = inr (i, ys, refl)

  -- The workers have something to do, or none has a job.
  worker_cases : (s : State V E) → Goes s ⊎ ((s.pulled ≡ []) × (s.running ≡ []))
  worker_cases s = elim (List-cases s.pulled) [
    | inr (i, xs, e) ↦ inl (Goes-pulled s i xs e)
    | inl e ↦ elim (List-cases s.running) [
      | inr (i, xs, f) ↦ inl (_, returns [] xs i f, refl)
      | inl f ↦ inr (e, f)
    ]
  ]

  Goes-jobs : (s : State V E) (i : ℕ) (rest : List ℕ) → 0 < workers → s.jobs ≡ i ∷ rest → Goes s
  Goes-jobs s i rest w e = elim (worker_cases s) [
    | inl g ↦ g
    | inr (p, r) ↦ (_, pulls i rest e (omega (arith, ap length p, ap length r)), refl)
  ]

  Goes-open : (s : State V E) → 0 < workers → s.next ≤ n → s.closed ≡ false → Goes s
  Goes-open s w h c = elim (Bool-cases (leb n s.next)) [
    | inl e ↦ (_, closes c (ground (arith, h, e)), refl)
    | inr e ↦ elim (List-cases s.jobs) [
      | inl j ↦ (_, feeds c (ground (arith, e)) (omega (arith, ap length j)), refl)
      | inr (i, rest, j) ↦ Goes-jobs s i rest w j
    ]
  ]

  -- A run of FanoutRun over n sources takes at most 4 n + 2 steps, the end of the context counted, and
  -- until it is done the feeder or a worker has a next one, if there is a worker: a step other than the
  -- end of the context. So it ends, however they interleave, also if the context never ends.
  pub fanout_run-ends :
      (k : ℕ) (s : State V E)
      → 0 < workers
      → Run n workers fn k s
      → (k ≤ 4 * n + 2) × (IsDone s ⊎ Goes s)
  fanout_run-ends k s w r =
      let (b, h) = Run-bound k s r in
      (
        omega (arith, b),
        elim (Bool-cases s.closed) [
          | inr c ↦ inr (Goes-open s w h c)
          | inl c ↦ elim (List-cases s.jobs) [
            | inr (i, rest, j) ↦ inr (Goes-jobs s i rest w j)
            | inl j ↦ elim (worker_cases s) [
              | inl g ↦ inr g
              | inr (p, q) ↦ inl (record { closed = c; jobs = j; pulled = p; running = q })
            ]
          ]
        ],
      )
