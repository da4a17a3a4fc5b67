-- ===== src/Examples/Fanout.antt =====
-- The theorems of internal/cliutil/fanout.go at a concrete run.
use iconify_cli.Base.{
  ℕ, zero, suc, ◌+◌, ◌*◌, ◌≤◌, ◌≡◌, refl, ◌⊎◌, Bool, true, false, Option, none, some, List, [], ◌∷◌,
  arith, length,
}
use iconify_cli.Base.Strings.{Str}
use iconify_cli.Cliutil.Fanout.{
  Outcome, value, failure, State, put, results, errors, IsDone, feeds, closes, pulls, calls,
  returns, Run, start, later,
}
use iconify_cli.Cliutil.Fanout.Complete.{fanout_run-sequential}
use iconify_cli.Cliutil.Fanout.Ending.{Goes, fanout_run-ends}

abbrev Answer : Type 0
Answer = Outcome ℕ Bool

abbrev name : ℕ → Str
name i = i ∷ []

-- The second source fails.
abbrev fn : ℕ → Answer
fn i = elim i as (λ _. Answer) [ zero ↦ value 7 | suc j ↦ failure true ]

abbrev S : Type 0
S = State ℕ Bool

abbrev at : ℕ → Bool → List ℕ → List ℕ → List ℕ → (ℕ → Option Answer) → S
at next closed jobs pulled running slots = record {
  next = next;
  closed = closed;
  jobs = jobs;
  pulled = pulled;
  running = running;
  slots = slots;
  done = false;
}

abbrev nothing : ℕ → Option Answer
nothing i = none

abbrev finished : S
finished = at 2 true [] [] [] (put 0 (fn 0) (put 1 (fn 1) nothing))

-- Two workers; the second source returns before the first.
run : Run 2 2 fn 9 finished
run =
    later
      (later
        (later
          (later
            (later
              (later
                (later
                  (later (later start (feeds refl (omega arith) (omega arith)))
                    (pulls 0 [] refl (omega arith)))
                  (calls [] [] 0 refl refl))
                (feeds refl (omega arith) (omega arith)))
              (pulls 1 [] refl (omega arith)))
            (calls [] [] 1 refl refl))
          (closes refl refl))
        (returns [] (0 ∷ []) 1 refl))
      (returns [] [] 0 refl)

finished-IsDone : IsDone finished
finished-IsDone = record { closed = refl; jobs = refl; pulled = refl; running = refl }

fanout_run-sequential_example :
    (length (results name 2 0 finished.slots) + length (errors name 2 0 finished.slots) ≡ 2)
    × (finished.done ≡ false
        → (results name 2 0 finished.slots ≡ results name 2 0 (λ i. some (fn i)))
          × (errors name 2 0 finished.slots ≡ errors name 2 0 (λ i. some (fn i))))
fanout_run-sequential_example = fanout_run-sequential 2 2 fn name 9 finished run finished-IsDone

fanout_run-ends_example : (9 ≤ 4 * 2 + 2) × (IsDone finished ⊎ Goes 2 2 fn finished)
fanout_run-ends_example = fanout_run-ends 2 2 fn 9 finished (omega arith) run
