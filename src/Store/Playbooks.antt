-- ===== src/Store/Playbooks.antt =====
-- internal/store/playbooks.go: the guidance kept for a family of queries.
pub mod Content
pub mod Accepts
pub mod Upsert
use mathlib.Core.List.{map}
use mathlib.Core.Option
use iconify_cli.Base.{
  ℕ, ◌+◌, Bool, true, false, not, ◌&&◌, ◌||◌, ltb, leb, ◌==◌, Option, none, some, List, [], ◌∷◌,
  ◌++◌, keep, if◌then◌else◌,
}
use iconify_cli.Base.Strings.{Str, str, str_eq, is_empty, trim_space}
use iconify_cli.Base.Sort.{sort}
use iconify_cli.Store.Db.{
  PlaybookRow, Db, Error, family_required, content_required, marker_required, playbook_lookup,
  playbook_update, playbook_insert, playbook_get, playbook_list, M, ◌>>=◌, ◌>>◌, pure, throw, call,
  exec, transaction,
}

pub record UpsertPlaybookInput : Type 0 where
  pub query_family : Str
  pub playbook_json : Str
  pub notes_text : Str
  pub source : Str
  pub preserve_existing_notes : Bool

-- COALESCE(text, '')
unfoldable pub or_empty : Option Str → Str
or_empty none = []
or_empty (some s) = s

-- CASE WHEN ? != '' THEN ? ELSE column END
unfoldable pub filled : Str → Option Str → Option Str
filled new old = if is_empty new then old else some new

-- The same, where with PreserveExistingNotes notes that are there stay.
unfoldable pub notes_update : Bool → Str → Option Str → Option Str
notes_update preserve new old =
    if preserve && not (is_empty (or_empty old)) then old else filled new old

unfoldable pub updated : UpsertPlaybookInput → ℕ → PlaybookRow → PlaybookRow
updated input now r = record r {
  playbook_json = filled input.playbook_json r.playbook_json;
  notes_text = notes_update input.preserve_existing_notes input.notes_text r.notes_text;
  last_observed_at = some now;
}

-- SELECT ... WHERE query_family = ?
unfoldable pub find_family : Str → List PlaybookRow → Option PlaybookRow
find_family family [] = none
find_family family (r ∷ rows) =
    if str_eq r.query_family family then some r else find_family family rows

unfoldable pub has_playbook : ℕ → List PlaybookRow → Bool
has_playbook id [] = false
has_playbook id (r ∷ rows) = (r.id == id) || has_playbook id rows

-- UPDATE ... WHERE id = ?
unfoldable pub at_id : ℕ → (PlaybookRow → PlaybookRow) → List PlaybookRow → List PlaybookRow
at_id id f = map (λ r. if r.id == id then f r else r)

-- INSERT; the id is the one that SQLite gives.
unfoldable pub insert_playbook : PlaybookRow → Db → Option (ℕ × Db)
insert_playbook r db =
    if has_playbook r.id db.playbooks
    then none
    else some (r.id, record db { playbooks = db.playbooks ++ r ∷ [] })

-- A change of the row with an id.
unfoldable pub update_playbook : ℕ → (PlaybookRow → PlaybookRow) → Db → Option (Unit {0} × Db)
update_playbook id f db = some (tt, record db { playbooks = at_id id f db.playbooks })

-- if source == "" { source = LearningSourceTaught }
unfoldable pub source_of : Str → Str
source_of s = if is_empty s then str "taught" else s

-- Update the row that is there, or insert one: its id, and whether it was inserted.
unfoldable pub save : Option PlaybookRow → (PlaybookRow → PlaybookRow) → PlaybookRow → M (ℕ × Bool)
save (some old) f new = do exec playbook_update (update_playbook old.id f); pure (old.id, false)
save none f new = do id ← exec playbook_insert (insert_playbook new); pure (id, true)

unfoldable pub playbook_row : ℕ → Str → Str → Str → Str → ℕ → PlaybookRow
playbook_row id family playbook notes source now = record {
  id = id;
  query_family = family;
  playbook_json = some playbook;
  notes_text = some notes;
  source = source;
  confidence = 2;
  created_at = now;
  last_observed_at = some now;
}

-- The check of an input: the error, if there is one.
unfoldable pub input_error : UpsertPlaybookInput → Option Error
input_error input =
    if is_empty (trim_space input.query_family)
    then some family_required
    else if is_empty (trim_space input.playbook_json) && is_empty (trim_space input.notes_text)
    then some content_required
    else none

-- upsertPlaybookTx
unfoldable pub upsert_playbook_tx : ℕ → UpsertPlaybookInput → ℕ → M (ℕ × Bool)
upsert_playbook_tx id input now =
    let family = trim_space input.query_family in
    let saved : M (ℕ × Bool) = (do
      old ← call playbook_lookup (λ db. find_family family db.playbooks)
      save old (updated input now) (
          playbook_row id family input.playbook_json input.notes_text (source_of input.source)
            now)) in
    elim (input_error input) as (λ _. M (ℕ × Bool)) [ some e ↦ throw e | none ↦ saved ]

-- UpsertPlaybook
unfoldable pub upsert_playbook : ℕ → UpsertPlaybookInput → ℕ → M (ℕ × Bool)
upsert_playbook id input now = elim (input_error input) as (λ _. M (ℕ × Bool)) [
  | some e ↦ throw e
  | none ↦ transaction (upsert_playbook_tx id input now)
]

-- strings.TrimLeft(marker, "\n")
unfoldable pub trim_newlines : Str → Str
trim_newlines [] = []
trim_newlines (c ∷ s) = let rest = trim_newlines s in if c == b'\n' then rest else c ∷ s

unfoldable pub appended : Str → ℕ → PlaybookRow → PlaybookRow
appended marker now r = record r {
  notes_text = some (or_empty r.notes_text ++ marker);
  last_observed_at = some now;
}

unfoldable pub append_error : Str → Str → Option Error
append_error family marker =
    if is_empty (trim_space family)
    then some family_required
    else if is_empty marker
    then some marker_required
    else none

-- appendPlaybookNotesTx
unfoldable pub append_playbook_notes_tx : ℕ → Str → Str → ℕ → M (ℕ × Bool)
append_playbook_notes_tx id family marker now =
    let name = trim_space family in
    let saved : M (ℕ × Bool) = (do
      old ← call playbook_lookup (λ db. find_family name db.playbooks)
      save old (appended marker now)
          (playbook_row id name [] (trim_newlines marker) (str "taught") now)) in
    elim (append_error family marker) as (λ _. M (ℕ × Bool)) [ some e ↦ throw e | none ↦ saved ]

-- AppendPlaybookNotes
unfoldable pub append_playbook_notes : ℕ → Str → Str → ℕ → M (ℕ × Bool)
append_playbook_notes id family marker now =
    elim (append_error family marker) as (λ _. M (ℕ × Bool)) [
      | some e ↦ throw e
      | none ↦ transaction (append_playbook_notes_tx id (trim_space family) marker now)
    ]

-- The columns that are read with COALESCE.
unfoldable pub coalesced : PlaybookRow → PlaybookRow
coalesced r = record r {
  playbook_json = some (or_empty r.playbook_json);
  notes_text = some (or_empty r.notes_text);
}

-- GetPlaybookByFamily
unfoldable pub get_playbook_by_family : Str → M (Option PlaybookRow)
get_playbook_by_family family =
    let name = trim_space family in
    if is_empty name
    then pure none
    else call playbook_get (λ db. Option.map coalesced (find_family name db.playbooks))

-- NOT LIKE '\_\_%' ESCAPE '\'
unfoldable pub is_sentinel : Str → Bool
is_sentinel (a ∷ b ∷ s) = (a == b'_') && (b == b'_')
is_sentinel _ = false

-- COALESCE(last_observed_at, created_at)
unfoldable pub observed : PlaybookRow → ℕ
observed r = elim r.last_observed_at as (λ _. ℕ) [ some t ↦ t | none ↦ r.created_at ]

-- ListPlaybooks; rows of one time come in an order that the query leaves open.
unfoldable pub list_playbooks : M (List PlaybookRow)
list_playbooks = call playbook_list (λ db. map coalesced (
    sort (λ r t. ltb (observed t) (observed r))
      (keep (λ r. not (is_sentinel r.query_family)) db.playbooks)))
