-- ===== src/Cliutil/Fanout.antt =====
-- internal/cliutil/fanout.go: FanoutRun, with its feeder and its workers in any interleaving. Sources
-- are known by their positions.
pub mod Complete
pub mod Ending
use iconify_cli.Base.{
  ℕ, zero, suc, ◌+◌, ◌-◌, ◌*◌, ◌≤◌, ◌<◌, ◌≡◌, Bool, true, false, not, ltb, leb, ◌==◌, Option, none,
  some, List, [], ◌∷◌, ◌++◌, length, if◌then◌else◌,
}
use iconify_cli.Base.Int.{ℤ, pos, negsuc}
use iconify_cli.Base.Strings.{Str}

-- What comes of a source: a value, an error of fn, a panic that is recovered, or ctx.Err().
pub data Outcome (V E : Type 0) : Type 0 where
  value : V → Outcome V E
  failure : E → Outcome V E
  panicked cancelled : Outcome V E

-- if n < 1 { n = 1 }; without an option, 4
unfoldable pub workers_of : Option ℤ → ℕ
workers_of none = 4
workers_of (some (pos n)) = if ltb n 1 then 1 else n
workers_of (some (negsuc n)) = 1

-- What is shared: the feeder's next source and whether it has closed the channel, the channel, the jobs
-- that workers have pulled, those whose fn runs, the slots, and whether the context is done.
pub record State (V E : Type 0) : Type 0 where
  pub next : ℕ
  pub closed : Bool
  pub jobs : List ℕ
  pub pulled : List ℕ
  pub running : List ℕ
  pub slots : ℕ → Option (Outcome V E)
  pub done : Bool

module _ {V E : Type 0} where
  -- slots[i] = o
  abbrev pub put : ℕ → Outcome V E → (ℕ → Option (Outcome V E)) → ℕ → Option (Outcome V E)
  put i o f j = if i == j then some o else f j

  -- for j := i; j < len(sources); j++ { slots[j].err = ctx.Err() }
  abbrev pub put_from : ℕ → (ℕ → Option (Outcome V E)) → ℕ → Option (Outcome V E)
  put_from i f j = if leb i j then some cancelled else f j

  abbrev pub started : State V E
  started = record {
    next = 0;
    closed = false;
    jobs = [];
    pulled = [];
    running = [];
    slots = λ i. none;
    done = false;
  }

  -- if s.result != nil { ... append ... }
  unfoldable pub with_result : Str → Option (Outcome V E) → List (Str × V) → List (Str × V)
  with_result name (some (value v)) rest = (name, v) ∷ rest
  with_result name _ rest = rest

  -- if s.err != nil { ... append ... }
  unfoldable pub with_error :
      Str → Option (Outcome V E) → List (Str × Outcome V E) → List (Str × Outcome V E)
  with_error name none rest = rest
  with_error name (some (value v)) rest = rest
  with_error name (some o) rest = (name, o) ∷ rest

  -- The values and the errors, in the order of the slots: `left` of them, from one on.
  unfoldable pub results : (ℕ → Str) → ℕ → ℕ → (ℕ → Option (Outcome V E)) → List (Str × V)
  results name zero i slots = []
  results name (suc left) i slots = with_result (name i) (slots i) (results name left (i + 1) slots)

  unfoldable pub errors : (ℕ → Str) → ℕ → ℕ → (ℕ → Option (Outcome V E)) → List (Str × Outcome V E)
  errors name zero i slots = []
  errors name (suc left) i slots = with_error (name i) (slots i) (errors name left (i + 1) slots)

  -- Every goroutine has returned, and the channel is closed.
  pub record IsDone (s : State V E) : Type 0 where
    pub closed : s.closed ≡ true
    pub jobs : s.jobs ≡ []
    pub pulled : s.pulled ≡ []
    pub running : s.running ≡ []

  -- One step of the feeder, of a worker or of the context, for `n` sources.
  module _ (n workers : ℕ) (fn : ℕ → Outcome V E) where
    pub data Step (s : State V E) : State V E → Type 0 where
      -- The context ends.
      ends : s.done ≡ false → Step s (record s { done = true })
      -- jobs <- job{idx: i}
      feeds :
          s.closed ≡ false
          → s.next < n
          → length s.jobs < 2 * workers
          → Step s (record s { next = s.next + 1; jobs = s.jobs ++ s.next ∷ [] })
      -- <-ctx.Done(): this source and all that remain are cancelled.
      stops :
          s.closed ≡ false
          → s.next < n
          → s.done ≡ true
          → Step s (record s { next = n; closed = true; slots = put_from s.next s.slots })
      -- close(jobs)
      closes : s.closed ≡ false → s.next ≡ n → Step s (record s { closed = true })
      -- j := <-jobs, by a worker that is free
      pulls :
          (i : ℕ) (rest : List ℕ)
          → s.jobs ≡ i ∷ rest
          → length s.pulled + length s.running < workers
          → Step s (record s { jobs = rest; pulled = i ∷ s.pulled })
      -- ctx.Err() != nil
      skips :
          (before after : List ℕ) (i : ℕ)
          → s.pulled ≡ before ++ i ∷ after
          → s.done ≡ true
          → Step s (record s { pulled = before ++ after; slots = put i cancelled s.slots })
      -- ctx.Err() == nil: fn is called.
      calls :
          (before after : List ℕ) (i : ℕ)
          → s.pulled ≡ before ++ i ∷ after
          → s.done ≡ false
          → Step s (record s { pulled = before ++ after; running = i ∷ s.running })
      -- fn returns or panics.
      returns :
          (before after : List ℕ) (i : ℕ)
          → s.running ≡ before ++ i ∷ after
          → Step s (record s { running = before ++ after; slots = put i (fn i) s.slots })

    -- Steps in a row, counted.
    pub data Run : ℕ → State V E → Type 0 where
      start : Run 0 started
      later : {k : ℕ} {s t : State V E} → Run k s → Step s t → Run (suc k) t
