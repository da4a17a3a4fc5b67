-- ===== src/Examples/Store.antt =====
-- The theorems of internal/store at concrete inputs.
use iconify_cli.Base.{
  ℕ, ◌+◌, ◌*◌, ◌≡◌, refl, ◌≢◌, ◌⊎◌, Bool, true, false, Option, none, some, List, [], ◌∷◌, arith,
  All, map,
}
use iconify_cli.Base.Int.{pos}
use iconify_cli.Base.Strings.{Str, str}
use iconify_cli.Store.Db.{
  Class, flag_alias, playbook_candidate, opened, rejected, CandidateRow, PlaybookRow, Db, Error,
  Faults, ok, err, second,
}
use iconify_cli.Store.Playbooks.{
  UpsertPlaybookInput, playbook_row, upsert_playbook, upsert_playbook_tx, append_playbook_notes_tx,
}
use iconify_cli.Store.Playbooks.Accepts.{Cause}
use iconify_cli.Store.Playbooks.Upsert.{Writes, upsert_playbook-Writes}
use iconify_cli.Store.Candidates.{
  Sighting, find_signature, new_row, derive_candidate, confirm_candidate_with_playbook,
  confirm_candidate_with_playbook_note,
}
use iconify_cli.Store.Candidates.Effects.{ConfirmsWith}
use iconify_cli.Store.Candidates.Machine.{
  Op, derive, reject, expire, purge, run_all, state, kind_of, Steps,
}
use iconify_cli.Store.Candidates.Refinement.{run_all-Steps, run_all-rejected}
use iconify_cli.Store.Candidates.Derive.{is_none, derive_candidate-Answers}
use iconify_cli.Store.Candidates.Confirm.{confirm_candidate_with_playbook_atomic}

abbrev sighting : ℕ → Sighting
sighting now = record {
  class = str "playbook_candidate";
  payload = str "{}";
  signature = str "sig";
  query_family = str "icons";
  command_path = str "icons search";
  id = 1;
  now = now * second;
}

abbrev empty : Db
empty = record { candidates = []; playbooks = [] }

-- Seen, rejected, seen again while the second call fails, expired, purged.
abbrev calls : List Op
calls = derive (sighting 1) ∷ reject 1 2 ∷ derive (sighting 3) ∷ expire (pos 1) 4 ∷ purge false ∷ []

run_all-Steps_example :
    Steps
      (map kind_of calls)
      (state (str "sig") empty)
      (state (str "sig") (run_all calls empty (false ∷ false ∷ true ∷ [])))
run_all-Steps_example = run_all-Steps calls empty (false ∷ false ∷ true ∷ []) (str "sig") tt

abbrev tombstone : CandidateRow
tombstone = record {
  id = 1;
  class = flag_alias;
  payload = str "{}";
  signature = str "sig";
  sightings = 2;
  status = rejected;
  query_family = [];
  command_path = [];
  created_at = 0;
  updated_at = 0;
  last_seen_at = 0;
}

abbrev settled : Db
settled = record { candidates = tombstone ∷ []; playbooks = [] }

run_all-rejected_example :
    find_signature
      (str "sig")
      (run_all
        (derive (sighting 3) ∷ expire (pos 1) 4 ∷ purge false ∷ [])
        settled
        (true ∷ [])).candidates
    ≡ some tombstone
unfolding find_signature iconify_cli.Store.Candidates.find_id iconify_cli.Base.Strings.str_eq
run_all-rejected_example =
    run_all-rejected (derive (sighting 3) ∷ expire (pos 1) 4 ∷ purge false ∷ []) settled (true ∷ [])
      (str "sig") tombstone (refl, refl, tt) refl refl ((λ h. cc), ((λ h. cc), ((λ h. cc), tt)))

first_answer :
    (derive_candidate (sighting 1) empty []).result
    ≡ ok (new_row playbook_candidate (sighting 1), true)
unfolding derive_candidate iconify_cli.Store.Candidates.class_of iconify_cli.Base.Strings.str_eq
    iconify_cli.Base.Strings.trim_space iconify_cli.Store.Candidates.derive_body
    iconify_cli.Store.Db.exec iconify_cli.Store.Db.call
    iconify_cli.Store.Candidates.upsert_candidate iconify_cli.Store.Candidates.upserted
    iconify_cli.Store.Candidates.find_signature iconify_cli.Store.Candidates.find_id
    iconify_cli.Store.Candidates.reported iconify_cli.Store.Candidates.new_row
first_answer = refl

derive_candidate-Answers_example :
    (find_signature
        (str "sig")
        (derive_candidate (sighting 1) (run_all [] empty []) []).db.candidates
      ≡ some (new_row playbook_candidate (sighting 1)))
    × (true ≡ is_none (find_signature (str "sig") (run_all [] empty []).candidates))
derive_candidate-Answers_example =
    derive_candidate-Answers [] [] [] (sighting 1) (new_row playbook_candidate (sighting 1)) true
      (unfold run_all in first_answer)

abbrev input : UpsertPlaybookInput
input = record {
  query_family = str " icons ";
  playbook_json = str "[]";
  notes_text = [];
  source = [];
  preserve_existing_notes = false;
}

abbrev waiting : Db
waiting = record {
  candidates = record tombstone { class = playbook_candidate; status = opened } ∷ [];
  playbooks = playbook_row 7 (str "icons") [] (str "old notes") (str "taught") 5 ∷ [];
}

confirm_candidate_with_playbook_atomic_example :
    let r = confirm_candidate_with_playbook 8 1 input 9 waiting [] in
    let t = confirm_candidate_with_playbook_note 8 1 (str "icons") (str "note") 9 waiting [] in
    (((e : Error) × (r.result ≡ err e) × (r.db ≡ waiting))
      ⊎ ((a : CandidateRow × ℕ × Bool) × (r.result ≡ ok a)
          × ConfirmsWith playbook_candidate 1 (upsert_playbook_tx 8 input 9) 9 waiting a r.db))
    × (((e : Error) × (t.result ≡ err e) × (t.db ≡ waiting))
        ⊎ ((a : CandidateRow × ℕ × Bool) × (t.result ≡ ok a)
            × ConfirmsWith flag_alias 1
                (append_playbook_notes_tx 8 (str "icons") (str "note") 9)
                9
                waiting
                a
                t.db))
confirm_candidate_with_playbook_atomic_example =
    confirm_candidate_with_playbook_atomic 8 1 9 input (str "icons") (str "note") waiting []

upsert_playbook-Writes_example :
    let r = upsert_playbook 8 input 9 waiting [] in
    ((e : Error) × (r.result ≡ err e) × (r.db ≡ waiting) × Cause 8 input waiting [])
    ⊎ ((a : ℕ × Bool) × (r.result ≡ ok a) × Writes 8 input 9 waiting a r.db)
upsert_playbook-Writes_example =
    upsert_playbook-Writes 8 input 9 waiting []
      (unfold iconify_cli.Store.Playbooks.has_playbook in (refl, tt))
