-- ===== src/Store/Quiet.antt =====
-- A chain of calls none of which fails from outside, and a transaction around it.
use iconify_cli.Base.{
  ◌≡◌, refl, sym, subst, Bool, true, false, ◌||◌, Option, none, some, [], ◌∷◌, arith,
}
use iconify_cli.Store.Db.{
  Db, Error, begin, commit, Faults, Result, ok, err, Ran, M, continue, ◌>>=◌, call, exec, apply,
  bracketed, transaction,
}

-- Some call to come fails.
unfoldable pub has_fault : Faults → Bool
has_fault [] = false
has_fault (f ∷ fs) = f || has_fault fs

-- The run succeeds, with a value and tables that are so, and no fault is to come.
abbrev pub Works : {A : Type 0} → (A → Db → Type 0) → Ran A → Type 0
Works {A} Q r = (a : A) × (r.result ≡ ok a) × Q a r.db × (has_fault r.faults ≡ false)

module _ {A : Type 0} where
  pub Works-call :
      (e : Error) (f : Db → A) (db : Db) (fs : Faults)
      → has_fault fs ≡ false
      → Works (λ a d. (a ≡ f db) × (d ≡ db)) (call e f db fs)
  unfolding call has_fault
  Works-call e f db [] h = (f db, refl, (refl, refl), refl)
  Works-call e f db (true ∷ fs) h = absurd (cc)
  Works-call e f db (false ∷ fs) h = (f db, refl, (refl, refl), h)

  Works-apply :
      (e : Error) (o : Option (A × Db)) (a : A) (d db : Db) (fs : Faults)
      → o ≡ some (a, d)
      → has_fault fs ≡ false
      → Works (λ _ _. Unit {0}) (apply e o db fs)
  Works-apply e none a d db fs h n = absurd (ground arith)
  Works-apply e (some (b, d')) a d db fs h n = (b, refl, tt, n)

  pub Works-exec :
      (e : Error) (f : Db → Option (A × Db)) (a : A) (d db : Db) (fs : Faults)
      → f db ≡ some (a, d)
      → has_fault fs ≡ false
      → Works (λ _ _. Unit {0}) (exec e f db fs)
  unfolding exec has_fault
  Works-exec e f a d db [] h n = Works-apply e (f db) a d db [] h refl
  Works-exec e f a d db (true ∷ fs) h n = absurd (cc)
  Works-exec e f a d db (false ∷ fs) h n = Works-apply e (f db) a d db fs h n

module _ {A B : Type 0} where
  Works-continue :
      (P : A → Db → Type 0) (Q : B → Db → Type 0) (r : Result A) (f : A → M B) (db : Db)
      (fs : Faults)
      → Works P (record { result = r; db = db; faults = fs })
      → ((a : A) (d : Db) (gs : Faults) → P a d → has_fault gs ≡ false → Works Q (f a d gs))
      → Works Q (continue r f db fs)
  Works-continue P Q (ok b) f db fs (a, e, p, n) k =
      let q : a ≡ b = cc in k b db fs (subst (λ c. P c db) q p) n
  Works-continue P Q (err x) f db fs (a, e, p, n) k = absurd (cc)

  pub Works-bind :
      (P : A → Db → Type 0) (Q : B → Db → Type 0) (m : M A) (f : A → M B) (db : Db) (fs : Faults)
      → Works P (m db fs)
      → ((a : A) (d : Db) (gs : Faults) → P a d → has_fault gs ≡ false → Works Q (f a d gs))
      → Works Q ((m >>= f) db fs)
  Works-bind P Q m f db fs w k =
      Works-continue P Q (m db fs).result f (m db fs).db (m db fs).faults w k

-- Where no call fails and its body works, a transaction succeeds.
pub transaction-Works :
    {A : Type 0} (m : M A) (db : Db) (fs : Faults)
    → has_fault fs ≡ false
    → ((gs : Faults) → has_fault gs ≡ false → Works (λ _ _. Unit {0}) (m db gs))
    → (a : A) × ((transaction m db fs).result ≡ ok a)
unfolding transaction
transaction-Works m db fs n w =
    let r : Works (λ _ _. Unit {0}) (bracketed m db fs) =
      Works-bind (λ _ d. d ≡ db) (λ _ _. Unit {0}) (call begin (λ _. tt)) _ db fs
        (let (a, e, q, g) = Works-call begin (λ _. tt) db fs n in (a, e, q.1, g))
        (λ _ d gs e g.
          Works-bind (λ _ _. Unit {0}) (λ _ _. Unit {0}) m _ d gs
            (subst (λ d. Works (λ _ _. Unit {0}) (m d gs)) (sym e) (w gs g))
            (λ a d' hs _ h.
              Works-bind (λ _ _. Unit {0}) (λ _ _. Unit {0}) (call commit (λ _. tt)) _ d' hs
                (let (u, e', _, k) = Works-call commit (λ _. tt) d' hs h in (u, e', tt, k))
                (λ _ d'' is _ k. (a, refl, tt, k)))) in
    (r.0, r.1)
