-- ===== src/Store/Ends.antt =====
-- What holds when a chain of calls succeeds, and what a transaction leaves.
use iconify_cli.Base.{
  ◌≡◌, refl, sym, subst, ◌⊎◌, inl, inr, true, false, Option, none, some, [], ◌∷◌, arith,
}
use iconify_cli.Store.Db.{
  Db, Error, begin, commit, Faults, Result, ok, err, Ran, M, continue, ◌>>=◌, pure, throw, call,
  exec, apply, kept, settle, bracketed, transaction,
}

pub Result-cases :
    {A : Type 0} (r : Result A) → ((a : A) × (r ≡ ok a)) ⊎ ((e : Error) × (r ≡ err e))
Result-cases (ok a) = inl (a, refl)
Result-cases (err e) = inr (e, refl)

-- If a run succeeds, its value and the tables it leaves are so.
abbrev pub Ends : {A : Type 0} → (A → Db → Type 0) → Ran A → Type 0
Ends {A} Q r = (a : A) → r.result ≡ ok a → Q a r.db

module _ {A : Type 0} where
  pub Ends-pure :
      (Q : A → Db → Type 0) (a : A) (db : Db) (fs : Faults) → Q a db → Ends Q (pure a db fs)
  Ends-pure Q a db fs q b h = let e : a ≡ b = cc in subst (λ c. Q c db) e q

  pub Ends-throw :
      (Q : A → Db → Type 0) (e : Error) (db : Db) (fs : Faults) → Ends Q (throw e db fs)
  Ends-throw Q e db fs b h = let q : err e ≡ ok b = h in absurd (cc)

  pub Ends-call :
      (e : Error) (f : Db → A) (db : Db) (fs : Faults)
      → Ends (λ a db'. (a ≡ f db) × (db' ≡ db)) (call e f db fs)
  unfolding call
  Ends-call e f db [] a h = ground arith
  Ends-call e f db (true ∷ fs) a h = ground arith
  Ends-call e f db (false ∷ fs) a h = ground arith

  Ends-apply :
      (e : Error) (o : Option (A × Db)) (db : Db) (fs : Faults)
      → Ends (λ a db'. o ≡ some (a, db')) (apply e o db fs)
  Ends-apply e none db fs a h = ground arith
  Ends-apply e (some (b, db')) db fs a h = ground arith

  pub Ends-exec :
      (e : Error) (f : Db → Option (A × Db)) (db : Db) (fs : Faults)
      → Ends (λ a db'. f db ≡ some (a, db')) (exec e f db fs)
  unfolding exec
  Ends-exec e f db [] a h = Ends-apply e (f db) db [] a h
  Ends-exec e f db (true ∷ fs) a h = ground arith
  Ends-exec e f db (false ∷ fs) a h = Ends-apply e (f db) db fs a h

module _ {A B : Type 0} where
  Ends-continue :
      (P : A → Db → Type 0) (Q : B → Db → Type 0) (r : Result A) (f : A → M B) (db : Db)
      (fs : Faults)
      → ((a : A) → r ≡ ok a → P a db)
      → ((a : A) → P a db → Ends Q (f a db fs))
      → Ends Q (continue r f db fs)
  Ends-continue P Q (ok a) f db fs p q b h = q a (p a refl) b h
  Ends-continue P Q (err e) f db fs p q b h = absurd (cc)

  -- A chain: what holds after the first call is there for the rest.
  pub Ends-bind :
      (P : A → Db → Type 0) (Q : B → Db → Type 0) (m : M A) (f : A → M B) (db : Db) (fs : Faults)
      → Ends P (m db fs)
      → ((a : A) (db' : Db) (fs' : Faults) → P a db' → Ends Q (f a db' fs'))
      → Ends Q ((m >>= f) db fs)
  Ends-bind P Q m f db fs p q =
      Ends-continue P Q (m db fs).result f (m db fs).db (m db fs).faults p
        (λ a. q a (m db fs).db (m db fs).faults)

-- A transaction fails and leaves the tables, or succeeds as its body does.
pub settled :
    {A : Type 0} (Q : A → Db → Type 0) (db : Db) (r : Ran A)
    → Ends Q r
    → ((e : Error) × ((settle db r).result ≡ err e) × ((settle db r).db ≡ db))
      ⊎ ((a : A) × ((settle db r).result ≡ ok a) × Q a (settle db r).db)
settled Q db r q = elim (Result-cases r.result) [
  | inl (a, e) ↦ inr (a, e, subst (λ x. Q a (kept x db r.db)) (sym e) (q a e))
  | inr (x, e) ↦ inl (x, e, subst (λ x. kept x db r.db ≡ db) (sym e) refl)
]

pub transaction-cases :
    {A : Type 0} (Q : A → Db → Type 0) (m : M A) (db : Db) (fs : Faults)
    → ((fs' : Faults) → Ends Q (m db fs'))
    → ((e : Error) × ((transaction m db fs).result ≡ err e) × ((transaction m db fs).db ≡ db))
      ⊎ ((a : A) × ((transaction m db fs).result ≡ ok a) × Q a (transaction m db fs).db)
unfolding transaction
transaction-cases Q m db fs q = settled Q db (bracketed m db fs) (
    Ends-bind (λ _ d. d ≡ db) Q (call begin (λ _. tt)) _ db fs
      (λ a h. (Ends-call begin (λ _. tt) db fs a h).1)
      (λ _ d fs' e.
        Ends-bind Q Q m _ d fs' (subst (λ d. Ends Q (m d fs')) (sym e) (q fs')) (λ a d' fs'' p.
          Ends-bind (λ _ d''. d'' ≡ d') Q (call commit (λ _. tt)) _ d' fs''
            (λ a h. (Ends-call commit (λ _. tt) d' fs'' a h).1)
            (λ _ d'' fs''' e. Ends-pure Q a d'' fs''' (subst (Q a) (sym e) p)))))
