-- ===== src/Store/Candidates.antt =====
-- internal/store/candidates.go: improvements that wait for a decision. A candidate is known by its
-- derivation signature.
pub mod Rows
pub mod Effects
pub mod Writes
pub mod Machine
pub mod Changes
pub mod Updates
pub mod Runs
pub mod Refinement
pub mod Derive
pub mod Confirm
use mathlib.Core.List.{map}
use iconify_cli.Base.{
  ℕ, ◌+◌, ◌-◌, ◌*◌, Bool, true, false, not, ◌&&◌, ◌||◌, ltb, ◌==◌, Option, none, some, List, [],
  ◌∷◌, ◌++◌, keep, take, length, if◌then◌else◌,
}
use iconify_cli.Base.Int.{ℤ, pos, negsuc}
use iconify_cli.Base.Strings.{Str, str, str_eq, is_empty, trim_space}
use iconify_cli.Base.Sort.{sort}
use iconify_cli.Store.Db.{
  Class, flag_alias, playbook_candidate, Status, opened, confirmed, rejected, expired, CandidateRow,
  Db, Error, unknown_class, payload_required, signature_required, deriving_candidate, missing_row,
  getting, listing, confirming, rejecting, expiring, purging, no_candidate, already_rejected,
  confirmed_flag_alias, not_open, wrong_class, M, ◌>>=◌, ◌>>◌, pure, throw, call, exec, transaction,
  second, stamp,
}
use iconify_cli.Store.Playbooks.{UpsertPlaybookInput, upsert_playbook_tx, append_playbook_notes_tx}

abbrev pub class_text : Class → Str
class_text flag_alias = str "flag_alias"
class_text playbook_candidate = str "playbook_candidate"

abbrev pub status_text : Status → Str
status_text opened = str "open"
status_text confirmed = str "confirmed"
status_text rejected = str "rejected"
status_text expired = str "expired"

abbrev pub is_rejected : Status → Bool
is_rejected rejected = true
is_rejected _ = false

abbrev pub is_open : Status → Bool
is_open opened = true
is_open _ = false

-- The class that a text names.
unfoldable pub class_of : Str → Option Class
class_of s =
    if str_eq s (str "flag_alias")
    then some flag_alias
    else if str_eq s (str "playbook_candidate")
    then some playbook_candidate
    else none

-- SELECT ... WHERE derivation_signature = ?, and WHERE id = ?
unfoldable pub find_signature : Str → List CandidateRow → Option CandidateRow
find_signature sig [] = none
find_signature sig (r ∷ rows) = if str_eq r.signature sig then some r else find_signature sig rows

unfoldable pub find_id : ℕ → List CandidateRow → Option CandidateRow
find_id id [] = none
find_id id (r ∷ rows) = if r.id == id then some r else find_id id rows

-- What DeriveCandidate is called with, the id that SQLite gives a new row, and the time.
pub record Sighting : Type 0 where
  pub class : Str
  pub payload : Str
  pub signature : Str
  pub query_family : Str
  pub command_path : Str
  pub id : ℕ
  pub now : ℕ

unfoldable pub new_row : Class → Sighting → CandidateRow
new_row c s = record {
  id = s.id;
  class = c;
  payload = s.payload;
  signature = s.signature;
  sightings = 1;
  status = opened;
  query_family = s.query_family;
  command_path = s.command_path;
  created_at = stamp s.now;
  updated_at = stamp s.now;
  last_seen_at = stamp s.now;
}

-- CASE WHEN status = 'expired' THEN 'open' ELSE status END
abbrev pub reopened : Status → Status
reopened expired = opened
reopened s = s

-- DO UPDATE SET ... WHERE status != 'rejected'
unfoldable pub bumped : ℕ → CandidateRow → CandidateRow
bumped now r = if is_rejected r.status then r else record r {
  sightings = r.sightings + 1;
  status = reopened r.status;
  updated_at = stamp now;
  last_seen_at = stamp now;
}

-- The row with a signature, changed.
unfoldable pub at_signature : Str → (CandidateRow → CandidateRow) → CandidateRow → CandidateRow
at_signature sig f r = if str_eq r.signature sig then f r else r

-- INSERT ... ON CONFLICT(derivation_signature) DO UPDATE: how many rows it changed.
unfoldable pub upserted :
    Class → Sighting → Db → Option CandidateRow → Option CandidateRow → Option (ℕ × Db)
upserted c s db (some old) other = some (
  if is_rejected old.status then 0 else 1,
  record db { candidates = map (at_signature s.signature (bumped s.now)) db.candidates },
)
upserted c s db none (some other) = none
upserted c s db none none = some (1, record db { candidates = db.candidates ++ new_row c s ∷ [] })

unfoldable pub upsert_candidate : Class → Sighting → Db → Option (ℕ × Db)
upsert_candidate c s db =
    upserted c s db (find_signature s.signature db.candidates) (find_id s.id db.candidates)

-- The row as stored, and affected == 1 && row.Sightings == 1
unfoldable pub reported : ℕ → Option CandidateRow → M (CandidateRow × Bool)
reported affected none = throw missing_row
reported affected (some r) = pure (r, (affected == 1) && (r.sightings == 1))

unfoldable pub derive_body : Class → Sighting → M (CandidateRow × Bool)
derive_body c s = do
  affected ← exec deriving_candidate (upsert_candidate c s)
  row ← call deriving_candidate (λ db. find_signature s.signature db.candidates)
  reported affected row

-- DeriveCandidate; the statement is on its own, so an error of the read after it leaves the write.
unfoldable pub derive_candidate : Sighting → M (CandidateRow × Bool)
derive_candidate s = elim (class_of s.class) as (λ _. M (CandidateRow × Bool)) [
  | none ↦ throw unknown_class
  | some c ↦
      if is_empty (trim_space s.payload)
      then throw payload_required
      else if is_empty (trim_space s.signature)
      then throw signature_required
      else derive_body c s
]

-- GetCandidate
unfoldable pub get_candidate : ℕ → M (Option CandidateRow)
get_candidate id = call getting (λ db. find_id id db.candidates)

pub record ListCandidatesFilter : Type 0 where
  pub status : Str
  pub class : Str
  pub query_family : Str
  pub limit : ℤ

-- if strings.TrimSpace(want) != "" { ... AND column = ? }
unfoldable pub matches : Str → Str → Bool
matches want column = is_empty (trim_space want) || str_eq column want

unfoldable pub passes : ListCandidatesFilter → CandidateRow → Bool
passes f r =
    matches f.status (status_text r.status)
    && (matches f.class (class_text r.class) && matches f.query_family r.query_family)

-- if limit <= 0 { limit = defaultCandidateListLimit }
unfoldable pub limit_of : ℤ → ℕ
limit_of (pos n) = if n == 0 then 50 else n
limit_of (negsuc n) = 50

-- ORDER BY sightings DESC, last_seen_at DESC
unfoldable pub listed_before : CandidateRow → CandidateRow → Bool
listed_before r t =
    ltb t.sightings r.sightings
    || ((t.sightings == r.sightings) && ltb t.last_seen_at r.last_seen_at)

-- ListCandidates; rows alike in both come in an order that the query leaves open.
unfoldable pub list_candidates : ListCandidatesFilter → M (List CandidateRow)
list_candidates f =
    call listing
      (λ db. take (limit_of f.limit) (sort listed_before (keep (passes f) db.candidates)))

-- SET status = ?, updated_at = ? WHERE id = ?
unfoldable pub marked : ℕ → Status → ℕ → CandidateRow → CandidateRow
marked id status now r =
    if r.id == id then record r { status = status; updated_at = stamp now } else r

unfoldable pub set_status : ℕ → Status → ℕ → Db → Option (Unit {0} × Db)
set_status id status now db =
    some (tt, record db { candidates = map (marked id status now) db.candidates })

unfoldable pub checked_open : ℕ → Option CandidateRow → M CandidateRow
checked_open id none = throw (no_candidate id)
checked_open id (some r) = if is_open r.status then pure r else throw (not_open id r.status)

-- getOpenCandidateForConfirmTx
unfoldable pub get_open_candidate : ℕ → M CandidateRow
get_open_candidate id = do
  row ← call confirming (λ db. find_id id db.candidates)
  checked_open id row

-- markCandidateConfirmedTx
unfoldable pub mark_confirmed : CandidateRow → ℕ → M CandidateRow
mark_confirmed row now = do
  exec confirming (set_status row.id confirmed now)
  pure (record row { status = confirmed; updated_at = now })

-- ConfirmCandidate, with confirmCandidateTx
unfoldable pub confirm_candidate : ℕ → ℕ → M CandidateRow
confirm_candidate id now = transaction (do row ← get_open_candidate id; mark_confirmed row now)

abbrev pub same_class : Class → Class → Bool
same_class flag_alias flag_alias = true
same_class playbook_candidate playbook_candidate = true
same_class _ _ = false

-- A confirmation that writes a playbook first; its id, and whether it was inserted.
unfoldable pub confirm_with : Class → ℕ → M (ℕ × Bool) → ℕ → M (CandidateRow × ℕ × Bool)
confirm_with c id write now = transaction (do
  row ← get_open_candidate id
  (if same_class row.class c then pure tt else throw (wrong_class id row.class))
  (playbook, inserted) ← write
  done ← mark_confirmed row now
  pure (done, playbook, inserted))

-- ConfirmCandidateWithPlaybook; the first number is the id of a new playbook.
unfoldable pub confirm_candidate_with_playbook :
    ℕ → ℕ → UpsertPlaybookInput → ℕ → M (CandidateRow × ℕ × Bool)
confirm_candidate_with_playbook new id input now =
    confirm_with playbook_candidate id (upsert_playbook_tx new input now) now

-- ConfirmCandidateWithPlaybookNote
unfoldable pub confirm_candidate_with_playbook_note :
    ℕ → ℕ → Str → Str → ℕ → M (CandidateRow × ℕ × Bool)
confirm_candidate_with_playbook_note new id family marker now =
    confirm_with flag_alias id (append_playbook_notes_tx new family marker now) now

-- Why a row cannot be rejected.
unfoldable pub reject_error_of : ℕ → Class → Status → Option Error
reject_error_of id c rejected = some (already_rejected id)
reject_error_of id c confirmed =
    if same_class c flag_alias then some (confirmed_flag_alias id) else none
reject_error_of id c opened = none
reject_error_of id c expired = none

unfoldable pub reject_error : CandidateRow → Option Error
reject_error r = reject_error_of r.id r.class r.status

unfoldable pub mark_rejected : ℕ → ℕ → CandidateRow → Option Error → M CandidateRow
mark_rejected id now r (some e) = throw e
mark_rejected id now r none = do
  exec rejecting (set_status id rejected now)
  pure (record r { status = rejected; updated_at = now })

unfoldable pub reject_row : ℕ → ℕ → Option CandidateRow → M CandidateRow
reject_row id now none = throw (no_candidate id)
reject_row id now (some r) = mark_rejected id now r (reject_error r)

-- RejectCandidate
unfoldable pub reject_candidate : ℕ → ℕ → M CandidateRow
reject_candidate id now =
    transaction (do row ← call rejecting (λ db. find_id id db.candidates); reject_row id now row)

-- if ttl <= 0 { ttl = DefaultCandidateTTL }, 30 days
unfoldable pub ttl_of : ℤ → ℕ
ttl_of (pos n) = if n == 0 then 2592000 * second else n
ttl_of (negsuc n) = 2592000 * second

-- UPDATE ... WHERE status = 'open' AND last_seen_at < ?
unfoldable pub is_stale : ℕ → CandidateRow → Bool
is_stale cutoff r = is_open r.status && ltb r.last_seen_at cutoff

unfoldable pub expired_at : ℕ → ℕ → CandidateRow → CandidateRow
expired_at cutoff now r =
    if is_stale cutoff r then record r { status = expired; updated_at = stamp now } else r

-- ExpireCandidates: how many rows it marks. The clock is past the first 293 years, the longest ttl.
unfoldable pub expire_candidates : ℤ → ℕ → M ℕ
expire_candidates ttl now =
    let cutoff = stamp (now - ttl_of ttl) in
    exec expiring (λ db. some (
      length (keep (is_stale cutoff) db.candidates),
      record db { candidates = map (expired_at cutoff now) db.candidates },
    ))

-- status IN (...)
unfoldable pub is_purged : Bool → Status → Bool
is_purged tombstones opened = false
is_purged tombstones rejected = tombstones
is_purged tombstones confirmed = true
is_purged tombstones expired = true

-- PurgeCandidates: how many rows it deletes.
unfoldable pub purge_candidates : Bool → M ℕ
purge_candidates tombstones = exec purging (λ db. some (
  length (keep (λ r. is_purged tombstones r.status) db.candidates),
  record db { candidates = keep (λ r. not (is_purged tombstones r.status)) db.candidates },
))

-- candidateFamily; `field` reads query_family of a payload.
unfoldable pub candidate_family : (Str → Option Str) → CandidateRow → Str
candidate_family field r =
    if is_empty (trim_space r.query_family)
    then elim (field r.payload) [ some family ↦ trim_space family | none ↦ [] ]
    else trim_space r.query_family
