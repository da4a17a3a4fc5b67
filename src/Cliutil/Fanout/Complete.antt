-- ===== src/Cliutil/Fanout/Complete.antt =====
-- Every source has one outcome in the end, and without a cancellation it is that of fn.
use iconify_cli.Base.{
  ℕ, zero, suc, ◌+◌, ◌≤◌, ◌<◌, ◌≡◌, refl, sym, ap, ◌∙◌, subst, ◌⊎◌, inl, inr, Bool, true, false,
  leb, ◌==◌, Option, none, some, List, [], ◌∷◌, ◌++◌, length, arith, if◌then◌else◌, Bool-cases,
  Option-cases, ==_iff,
}
use iconify_cli.Base.Strings.{Str}
use iconify_cli.Cliutil.Fanout.{
  Outcome, value, failure, panicked, cancelled, State, put, put_from, started, with_result,
  with_error, results, errors, IsDone, Step, ends, feeds, stops, closes, pulls, skips, calls,
  returns, Run, start, later,
}

-- How often a position stands in a list.
abbrev count : ℕ → List ℕ → ℕ
count i [] = 0
count i (j ∷ js) = if i == j then suc (count i js) else count i js

count-append : (i : ℕ) (xs ys : List ℕ) → count i (xs ++ ys) ≡ count i xs + count i ys
count-append i [] ys = omega arith
count-append i (x ∷ xs) ys = ground (arith, count-append i xs ys)

module _ {V E : Type 0} (n workers : ℕ) (fn : ℕ → Outcome V E) where
  abbrev filled : Option (Outcome V E) → ℕ
  filled none = 0
  filled (some o) = 1

  abbrev ahead : ℕ → ℕ → ℕ
  ahead next i = if leb next i then 1 else 0

  -- Where a source is: not fed, in the channel, pulled, running, or in its slot.
  abbrev places : State V E → ℕ → ℕ
  places s i =
      ahead s.next i + count i s.jobs + count i s.pulled + count i s.running + filled (s.slots i)

  -- An outcome is that of fn, or a cancellation.
  abbrev IsOutcome : Bool → ℕ → Option (Outcome V E) → Type 0
  IsOutcome done i none = Unit {0}
  IsOutcome done i (some o) = (o ≡ fn i) ⊎ (done ≡ true)

  record Inv (s : State V E) : Type 0 where
    once : (i : ℕ) → i < n → places s i ≡ 1
    fair : (i : ℕ) → IsOutcome s.done i (s.slots i)
    fed : s.closed ≡ true → s.next ≡ n

  Inv-started : Inv started
  Inv-started = record { once = λ i h. ground arith; fair = λ i. tt; fed = λ h. absurd (cc) }

  IsOutcome-put :
      (done : Bool) (i j : ℕ) (o : Outcome V E) (f : ℕ → Option (Outcome V E))
      → (o ≡ fn i) ⊎ (done ≡ true)
      → IsOutcome done j (f j)
      → IsOutcome done j (put i o f j)
  IsOutcome-put done i j o f h k = elim (Bool-cases (i == j)) [
    | inl e ↦
        let q : i ≡ j = (==_iff i j).0 e in simp e (subst (λ t. (o ≡ fn t) ⊎ (done ≡ true)) q h)
    | inr e ↦ simp e k
  ]

  IsOutcome-put_from :
      (done : Bool) (i j : ℕ) (f : ℕ → Option (Outcome V E))
      → done ≡ true
      → IsOutcome done j (f j)
      → IsOutcome done j (put_from i f j)
  IsOutcome-put_from done i j f h k = elim (Bool-cases (leb i j)) [
    | inl e ↦ simp e (inr h)
    | inr e ↦ simp e k
  ]

  IsOutcome-done :
      (done : Bool) (i : ℕ) (o : Option (Outcome V E)) → IsOutcome done i o → IsOutcome true i o
  IsOutcome-done done i none h = tt
  IsOutcome-done done i (some o) (inl h) = inl h
  IsOutcome-done done i (some o) (inr h) = inr refl

  filled-put :
      (i j : ℕ) (o : Outcome V E) (f : ℕ → Option (Outcome V E))
      → filled (f j) + (if j == i then 1 else 0) ≡ 1
      → filled (put i o f j) ≡ 1
  filled-put i j o f h = ground arith

  -- A pulled or running source is moved to its slot, or from the one list to the other.
  count-taken :
      (i j : ℕ) (xs before after : List ℕ)
      → xs ≡ before ++ i ∷ after
      → count j xs ≡ count j (before ++ after) + (if j == i then 1 else 0)
  count-taken i j xs before after e =
      ap (count j) e
      ∙ count-append j before (i ∷ after)
      ∙ ground (arith, count-append j before after)

  slot_places :
      (i j rest taken other : ℕ) (o : Outcome V E) (f : ℕ → Option (Outcome V E))
      → rest + taken + filled (f j) ≡ 1
      → taken ≡ other + (if j == i then 1 else 0)
      → rest + other + filled (put i o f j) ≡ 1
  slot_places i j rest taken other o f h e = ground arith

  Step-Inv : (s t : State V E) → Step n workers fn s t → Inv s → Inv t
  Step-Inv s t (ends d) inv = record {
    once = inv.once;
    fair = λ i. IsOutcome-done s.done i (s.slots i) (inv.fair i);
    fed = inv.fed;
  }
  Step-Inv s t (feeds c h r) inv = record {
    once = λ i l. ground (arith, inv.once i l, count-append i s.jobs (s.next ∷ []));
    fair = inv.fair;
    fed = λ e. absurd (cc (c, e));
  }
  Step-Inv s t (stops c h d) inv = record {
    once = λ i l. ground (arith, inv.once i l);
    fair = λ i. IsOutcome-put_from s.done s.next i s.slots d (inv.fair i);
    fed = λ e. refl;
  }
  Step-Inv s t (closes c h) inv = record { once = inv.once; fair = inv.fair; fed = λ e. h }
  Step-Inv s t (pulls i rest e w) inv = record {
    once = λ j l. ground (arith, inv.once j l, ap (count j) e);
    fair = inv.fair;
    fed = inv.fed;
  }
  Step-Inv s t (skips before after i e d) inv = record {
    once = λ j l.
        let q = inv.once j l in
        let p =
          slot_places i j (ahead s.next j + count j s.jobs + count j s.running) (count j s.pulled)
            (count j (before ++ after)) cancelled s.slots (omega (arith, q))
            (count-taken i j s.pulled before after e) in
        omega (arith, p);
    fair = λ j. IsOutcome-put s.done i j cancelled s.slots (inr d) (inv.fair j);
    fed = inv.fed;
  }
  Step-Inv s t (calls before after i e d) inv = record {
    once = λ j l. ground (arith, inv.once j l, count-taken i j s.pulled before after e);
    fair = inv.fair;
    fed = inv.fed;
  }
  Step-Inv s t (returns before after i e) inv = record {
    once = λ j l.
        let q = inv.once j l in
        let p =
          slot_places i j (ahead s.next j + count j s.jobs + count j s.pulled) (count j s.running)
            (count j (before ++ after)) (fn i) s.slots (omega (arith, q))
            (count-taken i j s.running before after e) in
        omega (arith, p);
    fair = λ j. IsOutcome-put s.done i j (fn i) s.slots (inl refl) (inv.fair j);
    fed = inv.fed;
  }

  Run-Inv : (k : ℕ) (s : State V E) → Run n workers fn k s → Inv s
  Run-Inv k s start = Inv-started
  Run-Inv k t (later {s = s} r st) = Step-Inv s t st (Run-Inv _ s r)

  -- The outcome of every source, when all is done.
  done_slot :
      (k : ℕ) (s : State V E)
      → Run n workers fn k s
      → IsDone s
      → (i : ℕ) → i < n
      → (o : Outcome V E) × (s.slots i ≡ some o)
  done_slot k s r d i l =
      let inv = Run-Inv k s r in
      let q = inv.once i l in
      let p = inv.fed d.closed in
      let f : filled (s.slots i) ≡ 1 =
        ground (arith, q, p, ap (count i) d.jobs, ap (count i) d.pulled, ap (count i) d.running) in
      elim (Option-cases (s.slots i)) [
        | inl e ↦ absurd (let z : 0 ≡ 1 = sym (ap filled e) ∙ f in omega (arith, z))
        | inr (o, e) ↦ (o, e)
      ]

  fn_slot :
      (k : ℕ) (s : State V E)
      → Run n workers fn k s
      → IsDone s
      → s.done ≡ false
      → (i : ℕ) → i < n
      → s.slots i ≡ some (fn i)
  fn_slot k s r d c i l =
      let (o, e) = done_slot k s r d i l in
      let h : (o ≡ fn i) ⊎ (s.done ≡ true) =
        subst (IsOutcome s.done i) e ((Run-Inv k s r).fair i) in
      elim h [ inl q ↦ e ∙ ap (λ x. some x) q | inr q ↦ absurd (cc (c, q)) ]

  module _ (name : ℕ → Str) where
    length-with :
        (m : Str) (o : Outcome V E) (rs : List (Str × V)) (es : List (Str × Outcome V E))
        → length (with_result m (some o) rs) + length (with_error m (some o) es)
          ≡ suc (length rs + length es)
    unfolding with_result with_error
    length-with m (value v) rs es = omega arith
    length-with m (failure x) rs es = omega arith
    length-with m panicked rs es = omega arith
    length-with m cancelled rs es = omega arith

    lengths :
        (slots : ℕ → Option (Outcome V E)) (left i : ℕ)
        → ((j : ℕ) → i ≤ j → j < i + left → (o : Outcome V E) × (slots j ≡ some o))
        → length (results name left i slots) + length (errors name left i slots) ≡ left
    unfolding results errors
    lengths slots zero i h = omega arith
    lengths slots (suc left) i h =
        let r = lengths slots left (i + 1) (λ j a b. h j (omega arith) (omega arith)) in
        let (o, e) = h i (omega arith) (omega arith) in
        let w =
          length-with (name i) o (results name left (i + 1) slots)
            (errors name left (i + 1) slots) in
        subst
          (λ x.
            length (with_result (name i) x (results name left (i + 1) slots))
              + length (with_error (name i) x (errors name left (i + 1) slots))
            ≡ suc left)
          (sym e) (omega (arith, r, w))

    results-ext :
        (f g : ℕ → Option (Outcome V E)) (left i : ℕ)
        → ((j : ℕ) → i ≤ j → j < i + left → f j ≡ g j)
        → (results name left i f ≡ results name left i g)
          × (errors name left i f ≡ errors name left i g)
    unfolding results errors
    results-ext f g zero i h = (refl, refl)
    results-ext f g (suc left) i h =
        let (a, b) = results-ext f g left (i + 1) (λ j l m. h j (omega arith) (omega arith)) in
        let e = h i (omega arith) (omega arith) in
        (
          ap (λ x. with_result (name i) x (results name left (i + 1) f)) e
              ∙ ap (with_result (name i) (g i)) a,
          ap (λ x. with_error (name i) x (errors name left (i + 1) f)) e
              ∙ ap (with_error (name i) (g i)) b,
        )

    -- However feeder and workers interleave, and whenever the context ends: once FanoutRun returns,
    -- every source is in the results or in the errors, and if the context did not end, both are those
    -- of calling fn on one source after the other.
    pub fanout_run-sequential :
        (k : ℕ) (s : State V E)
        → Run n workers fn k s
        → IsDone s
        → (length (results name n 0 s.slots) + length (errors name n 0 s.slots) ≡ n)
          × (s.done ≡ false
              → (results name n 0 s.slots ≡ results name n 0 (λ i. some (fn i)))
                × (errors name n 0 s.slots ≡ errors name n 0 (λ i. some (fn i))))
    fanout_run-sequential k s r d = (
      lengths s.slots n 0 (λ j a b. done_slot k s r d j (omega arith)),
      λ c. results-ext s.slots (λ i. some (fn i)) n 0 (λ j a b. fn_slot k s r d c j (omega arith)),
    )
