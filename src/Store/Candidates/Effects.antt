-- ===== src/Store/Candidates/Effects.antt =====
-- What the confirmations and rejections change when they succeed.
use mathlib.Core.List.{map}
use iconify_cli.Base.{
  ℕ, ◌≡◌, refl, sym, ap, ◌∙◌, subst, ◌⊎◌, Bool, true, Option, none, some, arith, Bool-cases, inl,
  inr, if◌then◌else◌,
}
use iconify_cli.Store.Db.{
  Class, flag_alias, playbook_candidate, Status, opened, confirmed, rejected, expired, CandidateRow,
  Db, Error, confirming, wrong_class, Faults, Result, ok, err, M, ◌>>=◌, ◌>>◌, pure, throw, call,
  exec,
}
use iconify_cli.Store.Ends.{Ends, Ends-pure, Ends-call, Ends-exec, Ends-bind, transaction-cases}
use iconify_cli.Store.Candidates.{
  is_open, find_id, marked, set_status, checked_open, get_open_candidate, mark_confirmed,
  same_class, confirm_candidate, confirm_with,
}

opened_of : (s : Status) → is_open s ≡ true → s ≡ opened
opened_of opened h = refl
opened_of confirmed h = ground arith
opened_of rejected h = ground arith
opened_of expired h = ground arith

-- The open row with an id, and unchanged tables.
abbrev Opened : ℕ → Db → CandidateRow → Db → Type 0
Opened id db r db' = (find_id id db.candidates ≡ some r) × (r.status ≡ opened) × (db' ≡ db)

Ends-checked_open :
    (id : ℕ) (o : Option CandidateRow) (db : Db) (fs : Faults)
    → Ends (λ r db'. (o ≡ some r) × (r.status ≡ opened) × (db' ≡ db)) (checked_open id o db fs)
unfolding checked_open
Ends-checked_open id none db fs a h = ground arith
Ends-checked_open id (some r) db fs a h = ground (arith, opened_of r.status)

Ends-get_open_candidate :
    (id : ℕ) (db : Db) (fs : Faults) → Ends (Opened id db) (get_open_candidate id db fs)
unfolding get_open_candidate
Ends-get_open_candidate id db fs =
    Ends-bind (λ o d. (o ≡ find_id id db.candidates) × (d ≡ db)) (Opened id db)
      (call confirming (λ d. find_id id d.candidates)) (checked_open id) db fs
      (Ends-call confirming (λ d. find_id id d.candidates) db fs)
      (λ o d fs' (e, k) r h.
        let (p, q, s) = Ends-checked_open id o d fs' r h in (sym e ∙ p, q, s ∙ k))

-- One statement has set the status of the row with an id, and no other has touched the candidates.
abbrev pub Marks : ℕ → Status → ℕ → Db → Db → Type 0
Marks id status now db db' = db'.candidates ≡ map (marked id status now) db.candidates

pub set_status-Marks :
    (id : ℕ) (status : Status) (now : ℕ) (db db' : Db) (u : Unit {0})
    → set_status id status now db ≡ some (u, db')
    → db' ≡ record db { candidates = map (marked id status now) db.candidates }
unfolding set_status
set_status-Marks id status now db db' u h = cc

-- The row that a confirmation returns, and the tables it leaves.
abbrev pub Confirmed : CandidateRow → ℕ → Db → CandidateRow → Db → Type 0
Confirmed row now db r db' =
    (r ≡ record row { status = confirmed; updated_at = now })
    × (db' ≡ record db { candidates = map (marked row.id confirmed now) db.candidates })

pub Ends-mark_confirmed :
    (row : CandidateRow) (now : ℕ) (db : Db) (fs : Faults)
    → Ends (Confirmed row now db) (mark_confirmed row now db fs)
unfolding mark_confirmed
Ends-mark_confirmed row now db fs =
    let done : CandidateRow = record row { status = confirmed; updated_at = now } in
    Ends-bind (λ u d. set_status row.id confirmed now db ≡ some (u, d)) (Confirmed row now db)
      (exec confirming (set_status row.id confirmed now)) (λ _. pure done) db fs
      (Ends-exec confirming (set_status row.id confirmed now) db fs)
      (λ u d fs' e.
        Ends-pure (Confirmed row now db) done d fs'
          (refl, set_status-Marks row.id confirmed now db d u e))

-- A confirmation that writes only to the playbooks before, or nothing: it found an open row.
abbrev pub Confirms : ℕ → ℕ → (CandidateRow → Type 0) → Db → Db → Type 0
Confirms id now P db db' =
    (row : CandidateRow) × (find_id id db.candidates ≡ some row)
    × (row.status ≡ opened)
    × P row
    × (db'.candidates ≡ map (marked row.id confirmed now) db.candidates)

pub confirm_candidate-cases :
    (id now : ℕ) (db : Db) (fs : Faults)
    → let r = confirm_candidate id now db fs in
      ((e : Error) × (r.result ≡ err e) × (r.db ≡ db))
      ⊎ ((a : CandidateRow) × (r.result ≡ ok a) × Confirms id now (λ _. Unit {0}) db r.db)
unfolding confirm_candidate
confirm_candidate-cases id now db fs =
    transaction-cases (λ _ db'. Confirms id now (λ _. Unit {0}) db db')
      (do row ← get_open_candidate id; mark_confirmed row now) db fs
      (λ fs'.
        Ends-bind (Opened id db) (λ _ db'. Confirms id now (λ _. Unit {0}) db db')
          (get_open_candidate id) (λ row. mark_confirmed row now) db fs'
          (Ends-get_open_candidate id db fs')
          (λ row d fs'' (f, o, e) a h. (
            row,
            f,
            o,
            tt,
            let (_, k) = Ends-mark_confirmed row now d fs'' a h in
                ap (λ (x : Db). x.candidates) k
                ∙ ap (λ (x : Db). map (marked row.id confirmed now) x.candidates) e,
          )))

-- A write that succeeds leaves the candidates.
abbrev pub LeavesCandidates : {A : Type 0} → M A → Type 0
LeavesCandidates m =
    (db : Db) (fs : Faults) → Ends (λ _ db'. db'.candidates ≡ db.candidates) (m db fs)

same_class-eq : (a b : Class) → same_class a b ≡ true → a ≡ b
same_class-eq flag_alias flag_alias h = refl
same_class-eq flag_alias playbook_candidate h = ground arith
same_class-eq playbook_candidate flag_alias h = ground arith
same_class-eq playbook_candidate playbook_candidate h = refl

abbrev class_checked : Class → ℕ → CandidateRow → M (Unit {0})
class_checked c id row =
    if same_class row.class c then pure tt else throw (wrong_class id row.class)

Ends-class_checked :
    (c : Class) (id : ℕ) (row : CandidateRow) (db : Db) (fs : Faults)
    → Ends (λ _ d. (row.class ≡ c) × (d ≡ db)) (class_checked c id row db fs)
Ends-class_checked c id row db fs u h = elim (Bool-cases (same_class row.class c)) [
  | inl e ↦ (same_class-eq row.class c e, simp e refl)
  | inr e ↦
      let q : ◌≡◌ {A = Result (Unit {0})} (err (wrong_class id row.class)) (ok u) = simp e at h in
      absurd (cc)
]

module _ (c : Class) (id : ℕ) (write : M (ℕ × Bool)) (now : ℕ) (db : Db) where
  -- The open candidate of the class, the write of the playbook, and the candidate confirmed.
  abbrev pub ConfirmsWith : CandidateRow × ℕ × Bool → Db → Type 0
  ConfirmsWith (done, playbook, inserted) db' =
      (row : CandidateRow) × (find_id id db.candidates ≡ some row)
      × (row.status ≡ opened)
      × (row.class ≡ c)
      × (done ≡ record row { status = confirmed; updated_at = now })
      × (db'.candidates ≡ map (marked row.id confirmed now) db.candidates)
      × ((fs : Faults) × ((write db fs).result ≡ ok (playbook, inserted))
          × (db'.playbooks ≡ (write db fs).db.playbooks))

  abbrev with_write : CandidateRow → ℕ × Bool → M (CandidateRow × ℕ × Bool)
  with_write row (playbook, inserted) = do
    done ← mark_confirmed row now
    pure (done, playbook, inserted)

  module _ (leaves : LeavesCandidates write) where
    Ends-with_write :
        (row : CandidateRow) (w : ℕ × Bool) (d : Db) (fs fs' : Faults)
        → (find_id id db.candidates ≡ some row) × (row.status ≡ opened) × (row.class ≡ c)
        → ((write db fs).result ≡ ok w) × (d ≡ (write db fs).db)
        → Ends ConfirmsWith (with_write row w d fs')
    Ends-with_write row (playbook, inserted) d fs fs' (f, o, k) (e, s) =
        Ends-bind (Confirmed row now d) ConfirmsWith (mark_confirmed row now)
          (λ done. pure (done, playbook, inserted)) d fs' (Ends-mark_confirmed row now d fs')
          (λ done d' fs'' (r, m).
            Ends-pure ConfirmsWith (done, playbook, inserted) d' fs''
              (
                row,
                f,
                o,
                k,
                r,
                ap (λ (x : Db). x.candidates) m
                    ∙ ap (λ (x : Db). map (marked row.id confirmed now) x.candidates) s
                    ∙ ap (map (marked row.id confirmed now)) (leaves db fs (playbook, inserted) e),
                (fs, e, ap (λ (x : Db). x.playbooks) m ∙ ap (λ (x : Db). x.playbooks) s),
              ))

    abbrev checked : CandidateRow → M (CandidateRow × ℕ × Bool)
    checked row = do class_checked c id row; w ← write; with_write row w

    Ends-checked :
        (row : CandidateRow) (d : Db) (fs : Faults)
        → Opened id db row d
        → Ends ConfirmsWith (checked row d fs)
    Ends-checked row d fs (f, o, e) =
        Ends-bind (λ _ d'. (row.class ≡ c) × (d' ≡ d)) ConfirmsWith (class_checked c id row)
          (λ _. do w ← write; with_write row w) d fs (Ends-class_checked c id row d fs)
          (λ _ d' fs' (k, s).
            subst (λ x. Ends ConfirmsWith ((do w ← write; with_write row w) x fs')) (sym (s ∙ e))
              (Ends-bind (λ w d''. ((write db fs').result ≡ ok w) × (d'' ≡ (write db fs').db))
                ConfirmsWith write (with_write row) db fs' (λ w h. (h, refl))
                (λ w d'' fs'' p. Ends-with_write row w d'' fs' fs'' (f, o, k) p)))

    pub confirm_with-cases :
        (fs : Faults)
        → let r = confirm_with c id write now db fs in
          ((e : Error) × (r.result ≡ err e) × (r.db ≡ db))
          ⊎ ((a : CandidateRow × ℕ × Bool) × (r.result ≡ ok a) × ConfirmsWith a r.db)
    unfolding confirm_with
    confirm_with-cases fs =
        transaction-cases ConfirmsWith (do row ← get_open_candidate id; checked row) db fs
          (λ fs'.
            Ends-bind (Opened id db) ConfirmsWith (get_open_candidate id) checked db fs'
              (Ends-get_open_candidate id db fs') Ends-checked)
