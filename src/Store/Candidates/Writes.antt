-- ===== src/Store/Candidates/Writes.antt =====
-- The writes of playbooks leave the candidates; what a rejection changes when it succeeds.
use mathlib.Core.List.{map}
use iconify_cli.Base.{
  ℕ, ◌≡◌, refl, sym, ap, ◌∙◌, Bool, true, false, Option, none, some, [], arith, ◌⊎◌,
}
use iconify_cli.Base.Strings.{Str, str, trim_space}
use iconify_cli.Store.Db.{
  rejected, CandidateRow, PlaybookRow, Db, Error, playbook_lookup, playbook_update, playbook_insert,
  rejecting, no_candidate, Faults, ok, err, M, ◌>>=◌, pure, throw, call, exec,
}
use iconify_cli.Store.Ends.{
  Ends, Ends-pure, Ends-throw, Ends-call, Ends-exec, Ends-bind, transaction-cases,
}
use iconify_cli.Store.Playbooks.{
  UpsertPlaybookInput, upsert_playbook_tx, append_playbook_notes_tx, save, input_error,
  append_error, insert_playbook, update_playbook, find_family, updated, appended, playbook_row,
  source_of, trim_newlines,
}
use iconify_cli.Store.Candidates.{
  find_id, marked, set_status, reject_error, mark_rejected, reject_row, reject_candidate,
}
use iconify_cli.Store.Candidates.Effects.{LeavesCandidates, set_status-Marks}

insert_playbook-candidates :
    (r : PlaybookRow) (db db' : Db) (id : ℕ)
    → insert_playbook r db ≡ some (id, db')
    → db'.candidates ≡ db.candidates
unfolding insert_playbook
insert_playbook-candidates r db db' id h = ground arith

update_playbook-candidates :
    (id : ℕ) (f : PlaybookRow → PlaybookRow) (db db' : Db) (u : Unit {0})
    → update_playbook id f db ≡ some (u, db')
    → db'.candidates ≡ db.candidates
unfolding update_playbook
update_playbook-candidates id f db db' u h = ground arith

abbrev Same : {A : Type 0} → Db → A → Db → Type 0
Same db _ db' = db'.candidates ≡ db.candidates

save-LeavesCandidates :
    (o : Option PlaybookRow) (f : PlaybookRow → PlaybookRow) (new : PlaybookRow)
    → LeavesCandidates (save o f new)
unfolding save
save-LeavesCandidates (some old) f new db fs =
    Ends-bind (Same db) (Same db) (exec playbook_update (update_playbook old.id f))
      (λ _. pure (old.id, false)) db fs
      (λ u h.
        update_playbook-candidates old.id f db _ u
          (Ends-exec playbook_update (update_playbook old.id f) db fs u h))
      (λ u d fs' e. Ends-pure (Same db) (old.id, false) d fs' e)
save-LeavesCandidates none f new db fs =
    Ends-bind (Same db) (Same db) (exec playbook_insert (insert_playbook new))
      (λ id. pure (id, true)) db fs
      (λ id h.
        insert_playbook-candidates new db _ id
          (Ends-exec playbook_insert (insert_playbook new) db fs id h))
      (λ id d fs' e. Ends-pure (Same db) (id, true) d fs' e)

-- A lookup of a family and a save.
saved-LeavesCandidates :
    (family : Str) (f : PlaybookRow → PlaybookRow) (new : PlaybookRow)
    → LeavesCandidates
        (do old ← call playbook_lookup (λ db. find_family family db.playbooks); save old f new)
saved-LeavesCandidates family f new db fs =
    let look : M (Option PlaybookRow) =
      call playbook_lookup (λ d. find_family family d.playbooks) in
    Ends-bind (λ _ d. d ≡ db) (Same db) look (λ old. save old f new) db fs
      (λ a h. (Ends-call playbook_lookup (λ d. find_family family d.playbooks) db fs a h).1)
      (λ old d fs' e a h.
        save-LeavesCandidates old f new d fs' a h ∙ ap (λ (x : Db). x.candidates) e)

guarded-LeavesCandidates :
    (o : Option Error) (m : M (ℕ × Bool))
    → LeavesCandidates m
    → LeavesCandidates (elim o as (λ _. M (ℕ × Bool)) [ some e ↦ throw e | none ↦ m ])
guarded-LeavesCandidates none m h db fs = h db fs
guarded-LeavesCandidates (some e) m h db fs = Ends-throw (Same db) e db fs

pub upsert_playbook_tx-LeavesCandidates :
    (id : ℕ) (input : UpsertPlaybookInput) (now : ℕ)
    → LeavesCandidates (upsert_playbook_tx id input now)
unfolding upsert_playbook_tx
upsert_playbook_tx-LeavesCandidates id input now =
    let family = trim_space input.query_family in
    guarded-LeavesCandidates (input_error input) _ (
      saved-LeavesCandidates family (updated input now)
        (playbook_row id family input.playbook_json input.notes_text (source_of input.source) now))

pub append_playbook_notes_tx-LeavesCandidates :
    (id : ℕ) (family marker : Str) (now : ℕ)
    → LeavesCandidates (append_playbook_notes_tx id family marker now)
unfolding append_playbook_notes_tx
append_playbook_notes_tx-LeavesCandidates id family marker now =
    let name = trim_space family in
    guarded-LeavesCandidates (append_error family marker) _ (
      saved-LeavesCandidates name (appended marker now)
        (playbook_row id name [] (trim_newlines marker) (str "taught") now))

-- A rejection found a row that may be rejected.
abbrev pub Rejects : ℕ → ℕ → Db → Db → Type 0
Rejects id now db db' =
    (row : CandidateRow) × (find_id id db.candidates ≡ some row)
    × (reject_error row ≡ none)
    × (db'.candidates ≡ map (marked id rejected now) db.candidates)

module _ (id now : ℕ) (db : Db) where
  Ends-mark_rejected :
      (r : CandidateRow) (o : Option Error) (d : Db) (fs : Faults)
      → find_id id db.candidates ≡ some r
      → reject_error r ≡ o
      → d ≡ db
      → Ends (λ _ db'. Rejects id now db db') (mark_rejected id now r o d fs)
  unfolding mark_rejected
  Ends-mark_rejected r (some x) d fs f g e = Ends-throw (λ _ db'. Rejects id now db db') x d fs
  Ends-mark_rejected r none d fs f g e =
      Ends-bind (λ u d'. set_status id rejected now d ≡ some (u, d'))
        (λ _ db'. Rejects id now db db') (exec rejecting (set_status id rejected now))
        (λ _. pure (record r { status = rejected; updated_at = now })) d fs
        (Ends-exec rejecting (set_status id rejected now) d fs)
        (λ u d' fs' k.
          Ends-pure (λ _ db'. Rejects id now db db')
            (record r { status = rejected; updated_at = now }) d' fs'
            (
              r,
              f,
              g,
              ap (λ (x : Db). x.candidates) (set_status-Marks id rejected now d d' u k)
                  ∙ ap (λ (x : Db). map (marked id rejected now) x.candidates) e,
            ))

  Ends-reject_row :
      (o : Option CandidateRow) (d : Db) (fs : Faults)
      → (o ≡ find_id id db.candidates) × (d ≡ db)
      → Ends (λ _ db'. Rejects id now db db') (reject_row id now o d fs)
  unfolding reject_row
  Ends-reject_row none d fs h = Ends-throw (λ _ db'. Rejects id now db db') (no_candidate id) d fs
  Ends-reject_row (some r) d fs (e, k) = Ends-mark_rejected r (reject_error r) d fs (sym e) refl k

  pub reject_candidate-cases :
      (fs : Faults)
      → let r = reject_candidate id now db fs in
        ((e : Error) × (r.result ≡ err e) × (r.db ≡ db))
        ⊎ ((a : CandidateRow) × (r.result ≡ ok a) × Rejects id now db r.db)
  unfolding reject_candidate
  reject_candidate-cases fs =
      let look : M (Option CandidateRow) = call rejecting (λ d. find_id id d.candidates) in
      transaction-cases (λ _ db'. Rejects id now db db') (do row ← look; reject_row id now row) db
        fs
        (λ fs'.
          Ends-bind (λ o d. (o ≡ find_id id db.candidates) × (d ≡ db))
            (λ _ db'. Rejects id now db db') look (reject_row id now) db fs'
            (Ends-call rejecting (λ d. find_id id d.candidates) db fs') Ends-reject_row)
