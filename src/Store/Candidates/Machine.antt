-- ===== src/Store/Candidates/Machine.antt =====
-- The state machine of a signature, as the comment at the head of candidates.go gives it, and the
-- operations in any order.
use iconify_cli.Base.{ℕ, Bool, true, false, Option, none, some, List, [], ◌∷◌}
use iconify_cli.Base.Int.{ℤ}
use iconify_cli.Base.Strings.{Str}
use iconify_cli.Store.Db.{
  Class, playbook_candidate, Status, opened, confirmed, rejected, expired, CandidateRow, Db, Faults,
}
use iconify_cli.Store.Playbooks.{UpsertPlaybookInput}
use iconify_cli.Store.Candidates.{
  Sighting, find_signature, derive_candidate, confirm_candidate, confirm_candidate_with_playbook,
  confirm_candidate_with_playbook_note, reject_candidate, expire_candidates, purge_candidates,
}

-- A call of an operation.
pub data Op : Type 0 where
  derive : Sighting → Op
  confirm reject : ℕ → ℕ → Op
  confirm_playbook : ℕ → ℕ → UpsertPlaybookInput → ℕ → Op
  confirm_note : ℕ → ℕ → Str → Str → ℕ → Op
  expire : ℤ → ℕ → Op
  purge : Bool → Op

-- The tables after a call, and the faults to come.
unfoldable pub run : Op → Db → Faults → Db × Faults
run (derive s) db fs = let r = derive_candidate s db fs in (r.db, r.faults)
run (confirm id now) db fs = let r = confirm_candidate id now db fs in (r.db, r.faults)
run (reject id now) db fs = let r = reject_candidate id now db fs in (r.db, r.faults)
run (confirm_playbook new id input now) db fs =
    let r = confirm_candidate_with_playbook new id input now db fs in (r.db, r.faults)
run (confirm_note new id family marker now) db fs =
    let r = confirm_candidate_with_playbook_note new id family marker now db fs in (r.db, r.faults)
run (expire ttl now) db fs = let r = expire_candidates ttl now db fs in (r.db, r.faults)
run (purge tombstones) db fs = let r = purge_candidates tombstones db fs in (r.db, r.faults)

-- The tables after calls in a row.
unfoldable pub run_all : List Op → Db → Faults → Db
run_all [] db fs = db
run_all (op ∷ ops) db fs = let r = run op db fs in run_all ops r.0 r.1

-- The state of a signature: no candidate, or its class and status.
abbrev pub State : Type 0
State = Option (Class × Status)

abbrev pub state_of : Option CandidateRow → State
state_of none = none
state_of (some r) = some (r.class, r.status)

abbrev pub state : Str → Db → State
state sig db = state_of (find_signature sig db.candidates)

pub data Kind : Type 0 where
  derives confirms rejects expires purges purges_tombstones : Kind

abbrev pub kind_of : Op → Kind
kind_of (derive s) = derives
kind_of (confirm id now) = confirms
kind_of (confirm_playbook new id input now) = confirms
kind_of (confirm_note new id family marker now) = confirms
kind_of (reject id now) = rejects
kind_of (expire ttl now) = expires
kind_of (purge true) = purges_tombstones
kind_of (purge false) = purges

-- The moves. An operation that is refused, fails, or is about another signature moves nothing.
pub data Step : Kind → State → State → Type 0 where
  stays : (k : Kind) (s : State) → Step k s s
  appears : (c : Class) → Step derives none (some (c, opened))
  reopens : (c : Class) → Step derives (some (c, expired)) (some (c, opened))
  is_confirmed : (c : Class) → Step confirms (some (c, opened)) (some (c, confirmed))
  rejected_open : (c : Class) → Step rejects (some (c, opened)) (some (c, rejected))
  rejected_expired : (c : Class) → Step rejects (some (c, expired)) (some (c, rejected))
  rejected_confirmed :
      Step rejects (some (playbook_candidate, confirmed)) (some (playbook_candidate, rejected))
  expires_open : (c : Class) → Step expires (some (c, opened)) (some (c, expired))
  purged_expired : (c : Class) → Step purges (some (c, expired)) none
  purged_confirmed : (c : Class) → Step purges (some (c, confirmed)) none
  purged_too : {s t : State} → Step purges s t → Step purges_tombstones s t
  purged_tombstone : (c : Class) → Step purges_tombstones (some (c, rejected)) none

-- Moves in a row.
pub data Steps : List Kind → State → State → Type 0 where
  none_left : (s : State) → Steps [] s s
  one_more :
      {k : Kind} {ks : List Kind} {s t u : State} → Step k s t → Steps ks t u → Steps (k ∷ ks) s u
