-- ===== src/Store/Candidates/Confirm.antt =====
-- A confirmation and the guidance that it writes come together.
use iconify_cli.Base.{ℕ, ◌≡◌, Bool, ◌⊎◌}
use iconify_cli.Base.Strings.{Str}
use iconify_cli.Store.Db.{flag_alias, playbook_candidate, CandidateRow, Db, Error, Faults, ok, err}
use iconify_cli.Store.Playbooks.{UpsertPlaybookInput, upsert_playbook_tx, append_playbook_notes_tx}
use iconify_cli.Store.Candidates.{
  confirm_candidate_with_playbook, confirm_candidate_with_playbook_note,
}
use iconify_cli.Store.Candidates.Effects.{ConfirmsWith, confirm_with-cases}
use iconify_cli.Store.Candidates.Writes.{
  upsert_playbook_tx-LeavesCandidates, append_playbook_notes_tx-LeavesCandidates,
}

-- ConfirmCandidateWithPlaybook and ConfirmCandidateWithPlaybookNote, whichever of their calls fail,
-- either return an error and leave both tables as they were, or find an open candidate of their class,
-- confirm it, and leave the playbooks as the upsert or the append does where it succeeds.
pub confirm_candidate_with_playbook_atomic :
    (new id now : ℕ) (input : UpsertPlaybookInput) (family marker : Str) (db : Db) (fs : Faults)
    → let r = confirm_candidate_with_playbook new id input now db fs in
      let t = confirm_candidate_with_playbook_note new id family marker now db fs in
      (((e : Error) × (r.result ≡ err e) × (r.db ≡ db))
        ⊎ ((a : CandidateRow × ℕ × Bool) × (r.result ≡ ok a)
            × ConfirmsWith playbook_candidate id (upsert_playbook_tx new input now) now db a r.db))
      × (((e : Error) × (t.result ≡ err e) × (t.db ≡ db))
          ⊎ ((a : CandidateRow × ℕ × Bool) × (t.result ≡ ok a)
              × ConfirmsWith flag_alias id
                  (append_playbook_notes_tx new family marker now)
                  now
                  db
                  a
                  t.db))
unfolding confirm_candidate_with_playbook confirm_candidate_with_playbook_note
confirm_candidate_with_playbook_atomic new id now input family marker db fs = (
  confirm_with-cases playbook_candidate id (upsert_playbook_tx new input now) now db
      (upsert_playbook_tx-LeavesCandidates new input now) fs,
  confirm_with-cases flag_alias id (append_playbook_notes_tx new family marker now) now db
      (append_playbook_notes_tx-LeavesCandidates new family marker now) fs,
)
