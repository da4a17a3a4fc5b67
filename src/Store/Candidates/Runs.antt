-- ===== src/Store/Candidates/Runs.antt =====
-- Every call, whatever fails in it, changes the rows as it may.
use mathlib.Core.List.{map}
use iconify_cli.Base.{
  ℕ, ◌-◌, ◌≡◌, refl, sym, ap, subst, ◌⊎◌, true, false, not, Option, none, some, [], ◌∷◌, ◌++◌, keep,
  Bool-cases, Option-cases, inl, inr,
}
use iconify_cli.Base.Strings.{is_empty, trim_space}
use iconify_cli.Store.Db.{
  Class, flag_alias, playbook_candidate, CandidateRow, Db, Error, Faults, Result, ok, err,
  deriving_candidate, expiring, purging, Ran, M, continue, ◌>>=◌, call, exec, apply, stamp,
}
use iconify_cli.Store.Playbooks.{upsert_playbook_tx, append_playbook_notes_tx}
use iconify_cli.Store.Candidates.{
  Sighting, find_signature, find_id, new_row, bumped, at_signature, upserted, upsert_candidate,
  class_of, reported, derive_body, derive_candidate, confirm_candidate, confirm_with,
  confirm_candidate_with_playbook, confirm_candidate_with_playbook_note, reject_candidate, ttl_of,
  expired_at, expire_candidates, is_purged, purge_candidates,
}
use iconify_cli.Store.Candidates.Rows.{IsKeyed}
use iconify_cli.Store.Candidates.Effects.{confirm_candidate-cases, confirm_with-cases}
use iconify_cli.Store.Candidates.Writes.{
  reject_candidate-cases, upsert_playbook_tx-LeavesCandidates,
  append_playbook_notes_tx-LeavesCandidates,
}
use iconify_cli.Store.Candidates.Machine.{
  Op, derive, confirm, reject, confirm_playbook, confirm_note, expire, purge, run,
}
use iconify_cli.Store.Candidates.Changes.{
  Changes, Changes-same, Changes-confirmed, Changes-rejected,
}
use iconify_cli.Store.Candidates.Updates.{
  Changes-expired, Changes-purged, Changes-bumped, Changes-new,
}

apply-db :
    {A : Type 0} (R : Db → Type 0) (e : Error) (o : Option (A × Db)) (db : Db) (fs : Faults)
    → R db
    → ((a : A) (db' : Db) → o ≡ some (a, db') → R db')
    → R (apply e o db fs).db
apply-db R e none db fs r s = r
apply-db R e (some (a, db')) db fs r s = s a db' refl

-- What holds of the tables before and after a statement that may fail.
exec-db :
    {A : Type 0} (R : Db → Type 0) (e : Error) (f : Db → Option (A × Db)) (db : Db) (fs : Faults)
    → R db
    → ((a : A) (db' : Db) → f db ≡ some (a, db') → R db')
    → R (exec e f db fs).db
unfolding exec
exec-db R e f db [] r s = apply-db R e (f db) db [] r s
exec-db R e f db (true ∷ fs) r s = r
exec-db R e f db (false ∷ fs) r s = apply-db R e (f db) db fs r s

call-db : {A : Type 0} (e : Error) (f : Db → A) (db : Db) (fs : Faults) → (call e f db fs).db ≡ db
unfolding call
call-db e f db [] = refl
call-db e f db (true ∷ fs) = refl
call-db e f db (false ∷ fs) = refl

continue-db :
    {A B : Type 0} (R : Db → Type 0) (x : Result A) (f : A → M B) (db : Db) (fs : Faults)
    → R db
    → ((a : A) → R (f a db fs).db)
    → R (continue x f db fs).db
continue-db R (ok a) f db fs r s = s a
continue-db R (err e) f db fs r s = r

-- A chain whose later calls keep what holds.
bind-db :
    {A B : Type 0} (R : Db → Type 0) (m : M A) (f : A → M B) (db : Db) (fs : Faults)
    → R (m db fs).db
    → ((a : A) (d : Db) (fs' : Faults) → R d → R (f a d fs').db)
    → R ((m >>= f) db fs).db
bind-db R m f db fs r s =
    continue-db R (m db fs).result f (m db fs).db (m db fs).faults r
      (λ a. s a (m db fs).db (m db fs).faults r)

reported-db :
    (R : Db → Type 0) (n : ℕ) (o : Option CandidateRow) (d : Db) (fs : Faults)
    → R d
    → R (reported n o d fs).db
unfolding reported
reported-db R n none d fs r = r
reported-db R n (some t) d fs r = r

-- The tables are as they were, or as the sighting's statement leaves them.
upserted-Changes :
    (c : Class) (s : Sighting) (db : Db) (o other : Option CandidateRow) (n : ℕ) (db' : Db)
    → IsKeyed db.candidates
    → find_signature s.signature db.candidates ≡ o
    → find_id s.id db.candidates ≡ other
    → upserted c s db o other ≡ some (n, db')
    → Changes (derive s) db.candidates db'.candidates
unfolding upserted
upserted-Changes c s db (some old) other n db' k e i h =
    let p : record db { candidates = map (at_signature s.signature (bumped s.now)) db.candidates }
        ≡ db' =
      cc in
    subst (λ (x : Db). Changes (derive s) db.candidates x.candidates) p
      (Changes-bumped s db.candidates k)
upserted-Changes c s db none (some other) n db' k e i h = absurd (cc)
upserted-Changes c s db none none n db' k e i h =
    let p : record db { candidates = db.candidates ++ new_row c s ∷ [] } ≡ db' = cc in
    subst (λ (x : Db). Changes (derive s) db.candidates x.candidates) p
      (Changes-new c s db.candidates k e i)

derive_body-Changes :
    (c : Class) (s : Sighting) (db : Db) (fs : Faults)
    → IsKeyed db.candidates
    → Changes (derive s) db.candidates (derive_body c s db fs).db.candidates
unfolding derive_body
derive_body-Changes c s db fs k =
    let R : Db → Type 0 = λ d. Changes (derive s) db.candidates d.candidates in
    bind-db R (exec deriving_candidate (upsert_candidate c s))
      (λ n. do
        row ← call deriving_candidate (λ d. find_signature s.signature d.candidates)
        reported n row)
      db fs
      (exec-db R deriving_candidate (upsert_candidate c s) db fs
        (Changes-same (derive s) db.candidates db.candidates k refl)
        (λ n d e. unfold upsert_candidate in upserted-Changes c s db _ _ n d k refl refl e))
      (λ n d fs' r.
        bind-db R (call deriving_candidate (λ d. find_signature s.signature d.candidates))
          (reported n) d fs'
          (subst R
            (sym (call-db deriving_candidate (λ d. find_signature s.signature d.candidates) d fs'))
            r)
          (λ row d' fs'' r'. reported-db R n row d' fs'' r'))

derive_candidate-Changes :
    (s : Sighting) (db : Db) (fs : Faults)
    → IsKeyed db.candidates
    → Changes (derive s) db.candidates (derive_candidate s db fs).db.candidates
derive_candidate-Changes s db fs k =
    let nothing = Changes-same (derive s) db.candidates db.candidates k refl in
    elim (Option-cases (class_of s.class)) [
      | inl e ↦ unfold derive_candidate in rw (e, derive_candidate) nothing
      | inr (c, e) ↦ elim (Bool-cases (is_empty (trim_space s.payload))) [
        | inl p ↦ unfold derive_candidate in rw (e, derive_candidate) (rw p nothing)
        | inr p ↦ elim (Bool-cases (is_empty (trim_space s.signature))) [
          | inl q ↦ unfold derive_candidate in rw (e, derive_candidate) (rw p (rw q nothing))
          | inr q ↦
              unfold derive_candidate in
              rw (e, derive_candidate) (rw p (rw q (derive_body-Changes c s db fs k)))
        ]
      ]
    ]

-- A call that ends as a transaction does.
transaction-Changes :
    {A : Type 0} (op : Op) (db : Db) (r : Ran A) (Q : A → Type 0)
    → IsKeyed db.candidates
    → ((e : Error) × (r.result ≡ err e) × (r.db ≡ db)) ⊎ ((a : A) × (r.result ≡ ok a) × Q a)
    → ((a : A) → Q a → Changes op db.candidates r.db.candidates)
    → Changes op db.candidates r.db.candidates
transaction-Changes op db r Q k (inl (e, f, s)) g =
    Changes-same op db.candidates r.db.candidates k (ap (λ (x : Db). x.candidates) s)
transaction-Changes op db r Q k (inr (a, f, q)) g = g a q

-- Every call changes the row of every signature as it may, and keeps the keys, whatever fails.
pub run-Changes :
    (op : Op) (db : Db) (fs : Faults)
    → IsKeyed db.candidates
    → Changes op db.candidates (run op db fs).0.candidates
unfolding run confirm_candidate_with_playbook confirm_candidate_with_playbook_note expire_candidates
    purge_candidates
run-Changes (derive s) db fs k = derive_candidate-Changes s db fs k
run-Changes (confirm id now) db fs k =
    transaction-Changes (confirm id now) db (confirm_candidate id now db fs) _ k
      (confirm_candidate-cases id now db fs)
      (λ a (row, f, o, p, m).
        Changes-confirmed (confirm id now) db.candidates _ id now row refl k f o m)
run-Changes (confirm_playbook new id input now) db fs k =
    let op = confirm_playbook new id input now in
    transaction-Changes op db
      (confirm_with playbook_candidate id (upsert_playbook_tx new input now) now db fs) _ k
      (confirm_with-cases playbook_candidate id (upsert_playbook_tx new input now) now db
        (upsert_playbook_tx-LeavesCandidates new input now) fs)
      (λ (d, p, i) (row, f, o, c, e, m, w).
        Changes-confirmed op db.candidates _ id now row refl k f o m)
run-Changes (confirm_note new id family marker now) db fs k =
    let op = confirm_note new id family marker now in
    transaction-Changes op db
      (confirm_with flag_alias id (append_playbook_notes_tx new family marker now) now db fs) _ k
      (confirm_with-cases flag_alias id (append_playbook_notes_tx new family marker now) now db
        (append_playbook_notes_tx-LeavesCandidates new family marker now) fs)
      (λ (d, p, i) (row, f, o, c, e, m, w).
        Changes-confirmed op db.candidates _ id now row refl k f o m)
run-Changes (reject id now) db fs k =
    transaction-Changes (reject id now) db (reject_candidate id now db fs) _ k
      (reject_candidate-cases id now db fs)
      (λ a (row, f, o, m). Changes-rejected (reject id now) db.candidates _ id now row refl k f o m)
run-Changes (expire ttl now) db fs k =
    let cutoff = stamp (now - ttl_of ttl) in
    exec-db (λ d. Changes (expire ttl now) db.candidates d.candidates) expiring _ db fs
      (Changes-same (expire ttl now) db.candidates db.candidates k refl)
      (λ n d e.
        let p : record db { candidates = map (expired_at cutoff now) db.candidates } ≡ d = cc in
        subst (λ (x : Db). Changes (expire ttl now) db.candidates x.candidates) p
          (Changes-expired ttl cutoff now db.candidates k))
run-Changes (purge t) db fs k =
    exec-db (λ d. Changes (purge t) db.candidates d.candidates) purging _ db fs
      (Changes-same (purge t) db.candidates db.candidates k refl)
      (λ n d e.
        let p : record db { candidates = keep (λ r. not (is_purged t r.status)) db.candidates }
            ≡ d =
          cc in
        subst (λ (x : Db). Changes (purge t) db.candidates x.candidates) p
          (Changes-purged t db.candidates k))
