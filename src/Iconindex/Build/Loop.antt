-- ===== src/Iconindex/Build/Loop.antt =====
-- One turn of the loop over the fetched sets, and what the loop keeps track of.
use iconify_cli.Base.{
  ℕ, ◌+◌, ◌≡◌, refl, sym, ap, ◌∙◌, subst, ◌⊎◌, inl, inr, ◌≢◌, ◌||◌, Option, none, some, List, [],
  ◌∷◌, ◌++◌, arith, length, length-append, All, Option-cases,
}
use iconify_cli.Base.Strings.{Str, has}
use iconify_cli.Iconindex.Collection.{IconRow}
use iconify_cli.Iconindex.Db.{Ran}
use iconify_cli.Iconindex.Replace.{replace_icons}
use iconify_cli.Iconindex.Replace.Effect.{replaced}
use iconify_cli.Iconindex.Replace.Atomic.{AllOrNothing, replace_icons_atomic}
use iconify_cli.Iconindex.Build.{
  BuildError, writing, fetching, Arrival, Progress, first, fail, written, arrived, drain,
}

-- The set of the arrival has been written.
pub record Refreshes (now : ℕ) (a : Arrival) (p q : Progress) : Type 0 where
  pub rows : List IconRow
  pub fetched : a.rows ≡ some rows
  pub db : q.db ≡ replaced now a.prefix rows a.lm p.db
  pub refreshed : q.result.refreshed ≡ p.result.refreshed ++ a.prefix ∷ []
  pub failed : q.result.failed ≡ p.result.failed
  pub first_error : q.first_error ≡ p.first_error
  pub counts : (q.result.sets ≡ p.result.sets) × (q.result.skipped ≡ p.result.skipped)

-- The set of the arrival has failed, and nothing has been written.
pub record Fails (a : Arrival) (p q : Progress) : Type 0 where
  pub db : q.db ≡ p.db
  pub refreshed : q.result.refreshed ≡ p.result.refreshed
  pub failed : q.result.failed ≡ p.result.failed ++ a.prefix ∷ []
  pub first_error : q.first_error ≢ none
  pub counts : (q.result.sets ≡ p.result.sets) × (q.result.skipped ≡ p.result.skipped)

first-ne-none : (o : Option BuildError) (e : BuildError) → first o e ≢ none
unfolding first
first-ne-none none e h = ground arith
first-ne-none (some d) e h = ground arith

fail-Fails : (a : Arrival) (e : BuildError) (p : Progress) → Fails a p (fail a.prefix e p)
unfolding fail
fail-Fails a e p = record {
  db = refl;
  refreshed = refl;
  failed = refl;
  first_error = first-ne-none p.first_error e;
  counts = (refl, refl);
}

written-cases :
    (now : ℕ) (a : Arrival) (rows : List IconRow) (ran : Ran) (p : Progress)
    → a.rows ≡ some rows
    → AllOrNothing p.db (replaced now a.prefix rows a.lm p.db) ran
    → Refreshes now a p (written a.prefix rows ran p) ⊎ Fails a p (written a.prefix rows ran p)
unfolding written
written-cases now a rows ran p h (inl (e, d)) = inl (
    rw e (record {
      rows = rows;
      fetched = h;
      db = d;
      refreshed = refl;
      failed = refl;
      first_error = refl;
      counts = (refl, refl);
    }))
written-cases now a rows ran p h (inr (x, e, d)) = inr (
    rw e (
      unfold fail in
      record {
        db = d;
        refreshed = refl;
        failed = refl;
        first_error = first-ne-none p.first_error (writing a.prefix x);
        counts = (refl, refl);
      }))

arrived-none :
    (now : ℕ) (a : Arrival) (p : Progress)
    → a.rows ≡ none
    → arrived now a p ≡ fail a.prefix (fetching a.prefix) p
unfolding arrived
arrived-none now a p e = ground arith

arrived-some :
    (now : ℕ) (a : Arrival) (p : Progress) {rows : List IconRow}
    → a.rows ≡ some rows
    → arrived now a p ≡ written a.prefix rows (replace_icons now a.prefix rows a.lm p.db p.faults) p
unfolding arrived
arrived-some now a p e = ground arith

-- Each arrival is either written or failed.
pub arrived-cases :
    (now : ℕ) (a : Arrival) (p : Progress)
    → Refreshes now a p (arrived now a p) ⊎ Fails a p (arrived now a p)
arrived-cases now a p = elim (Option-cases a.rows) [
  | inl e ↦
      inr (subst (Fails a p) (sym (arrived-none now a p e)) (fail-Fails a (fetching a.prefix) p))
  | inr (rows, e) ↦
      subst (λ q. Refreshes now a p q ⊎ Fails a p q) (sym (arrived-some now a p e))
        (written-cases now a rows _ p e (replace_icons_atomic now a.prefix rows a.lm p.db p.faults))
]

-- A loop invariant: it is kept by a write and by a failure.
pub drain_inv {ℓ} :
    (P : Progress → Type ℓ) (Q : Arrival → Type 0) (now : ℕ)
    → ((a : Arrival) (p q : Progress) → Q a → Refreshes now a p q → P p → P q)
    → ((a : Arrival) (p q : Progress) → Q a → Fails a p q → P p → P q)
    → (arrivals : List Arrival) (p : Progress) → All Q arrivals
    → P p
    → P (drain now arrivals p)
unfolding drain
drain_inv P Q now keep_write keep_fail [] p qs h = h
drain_inv P Q now keep_write keep_fail (a ∷ arrivals) p qs h =
    drain_inv P Q now keep_write keep_fail arrivals (arrived now a p) qs.1
      (elim (arrived-cases now a p) [
        | inl w ↦ keep_write a p (arrived now a p) qs.0 w h
        | inr f ↦ keep_fail a p (arrived now a p) qs.0 f h
      ])

units_only : (arrivals : List Arrival) → All (λ _. Unit {0}) arrivals
units_only [] = tt
units_only (a ∷ arrivals) = (tt, units_only arrivals)

-- An error is remembered exactly if some set has failed.
abbrev pub Remembers : Progress → Type 0
Remembers p = p.first_error ≡ none → p.result.failed ≡ []

pub drain-Remembers :
    (now : ℕ) (arrivals : List Arrival) (p : Progress)
    → Remembers p
    → Remembers (drain now arrivals p)
drain-Remembers now arrivals p h =
    drain_inv Remembers (λ _. Unit {0}) now (λ a p q u w r e. w.failed ∙ r (sym w.first_error ∙ e))
      (λ a p q u f r e. absurd (f.first_error e)) arrivals p (units_only arrivals) h

pub drain-counts :
    (now : ℕ) (arrivals : List Arrival) (p : Progress)
    → ((drain now arrivals p).result.sets ≡ p.result.sets)
      × ((drain now arrivals p).result.skipped ≡ p.result.skipped)
drain-counts now arrivals p =
    drain_inv (λ q. (q.result.sets ≡ p.result.sets) × (q.result.skipped ≡ p.result.skipped))
      (λ _. Unit {0}) now (λ a q r u w h. (w.counts.0 ∙ h.0, w.counts.1 ∙ h.1))
      (λ a q r u f h. (f.counts.0 ∙ h.0, f.counts.1 ∙ h.1)) arrivals p (units_only arrivals)
      (refl, refl)

pub has-append : (k : Str) (xs ys : List Str) → has k (xs ++ ys) ≡ (has k xs || has k ys)
unfolding has
has-append k [] ys = refl
has-append k (x ∷ xs) ys = ground (arith, has-append k xs ys)

-- The prefixes of the arrivals.
unfoldable pub prefixes : List Arrival → List Str
prefixes [] = []
prefixes (a ∷ arrivals) = a.prefix ∷ prefixes arrivals

-- The number of sets that are accounted for.
abbrev pub accounted : Progress → ℕ
accounted p = length p.result.refreshed + length p.result.failed

pub accounted-drain :
    (now : ℕ) (arrivals : List Arrival) (p : Progress)
    → accounted (drain now arrivals p) ≡ accounted p + length arrivals
unfolding drain
accounted-drain now [] p = omega arith
accounted-drain now (a ∷ arrivals) p =
    let rest = accounted-drain now arrivals (arrived now a p) in
    elim (arrived-cases now a p) [
      | inl w ↦ omega (
        arith,
        rest,
        ap length w.refreshed,
        ap length w.failed,
        length-append p.result.refreshed (a.prefix ∷ []),
      )
      | inr f ↦ omega (
        arith,
        rest,
        ap length f.refreshed,
        ap length f.failed,
        length-append p.result.failed (a.prefix ∷ []),
      )
    ]

-- A prefix is refreshed or failed exactly if it was so before or has arrived.
pub settled-drain :
    (k : Str) (now : ℕ) (arrivals : List Arrival) (p : Progress)
    → (has k (drain now arrivals p).result.refreshed || has k (drain now arrivals p).result.failed)
      ≡ ((has k p.result.refreshed || has k p.result.failed) || has k (prefixes arrivals))
unfolding drain prefixes has
settled-drain k now [] p = ground arith
settled-drain k now (a ∷ arrivals) p =
    let rest = settled-drain k now arrivals (arrived now a p) in
    elim (arrived-cases now a p) [
      | inl w ↦
          ground
            (arith, rest, w.refreshed, w.failed, has-append k p.result.refreshed (a.prefix ∷ []))
      | inr f ↦
          ground (arith, rest, f.refreshed, f.failed, has-append k p.result.failed (a.prefix ∷ []))
    ]
