-- ===== src/Store/Playbooks/Upsert.antt =====
-- What an upsert leaves in the columns of a row, column by column.
use iconify_cli.Base.{
  ℕ, ◌≡◌, refl, ◌≢◌, ◌⊎◌, inl, inr, Bool, true, false, Option, none, some, [], ◌∷◌, arith,
}
use iconify_cli.Base.Strings.{Str, str, trim_space}
use iconify_cli.Store.Db.{PlaybookRow, Db, Error, Faults, ok, err}
use iconify_cli.Store.Playbooks.{
  UpsertPlaybookInput, or_empty, filled, notes_update, updated, find_family, source_of,
  playbook_row, upsert_playbook,
}
use iconify_cli.Store.Playbooks.Accepts.{Cause, upsert_playbook-Cause}
use iconify_cli.Store.Playbooks.Content.{IsKeyed, upsert_playbook-Saved}

-- A text that is given stands in the column afterwards; with none given the column keeps what it had.
abbrev pub Holds : Str → Option Str → Option Str → Type 0
Holds given old new = (given ≢ [] → new ≡ some given) × (given ≡ [] → new ≡ old)

-- The column has a text that is not empty, or it has none.
abbrev pub IsFilled : Option Str → Type 0
IsFilled column = (c : ℕ) × (s : Str) × (column ≡ some (c ∷ s))

abbrev pub IsBlank : Option Str → Type 0
IsBlank column = (column ≡ none) ⊎ (column ≡ some [])

-- The row `new` is `old` after an upsert. Notes that are there stay if the input says so.
pub record Updates (input : UpsertPlaybookInput) (now : ℕ) (old new : PlaybookRow) : Type 0 where
  pub playbook : Holds input.playbook_json old.playbook_json new.playbook_json
  pub notes_kept :
      input.preserve_existing_notes ≡ true
      → IsFilled old.notes_text
      → new.notes_text ≡ old.notes_text
  pub notes :
      (input.preserve_existing_notes ≡ false) ⊎ IsBlank old.notes_text
      → Holds input.notes_text old.notes_text new.notes_text
  pub seen : new.last_observed_at ≡ some now
  pub id : new.id ≡ old.id
  pub query_family : new.query_family ≡ old.query_family
  pub source : new.source ≡ old.source
  pub confidence : new.confidence ≡ old.confidence
  pub created_at : new.created_at ≡ old.created_at

-- The row is what an upsert inserts under `id`. A source that is not given is "taught".
pub record Inserts (id : ℕ) (input : UpsertPlaybookInput) (now : ℕ) (new : PlaybookRow)
    : Type 0 where
  pub playbook : new.playbook_json ≡ some input.playbook_json
  pub notes : new.notes_text ≡ some input.notes_text
  pub source :
      (input.source ≢ [] → new.source ≡ input.source)
      × (input.source ≡ [] → new.source ≡ str "taught")
  pub id_of : new.id ≡ id
  pub query_family : new.query_family ≡ trim_space input.query_family
  pub confidence : new.confidence ≡ 2
  pub times : (new.created_at ≡ now) × (new.last_observed_at ≡ some now)

-- The row of the family has been changed, or inserted; every other family keeps its row.
abbrev pub Writes : ℕ → UpsertPlaybookInput → ℕ → Db → ℕ × Bool → Db → Type 0
Writes id input now db (got, inserted) db' =
    let family = trim_space input.query_family in
    (new : PlaybookRow) × (find_family family db'.playbooks ≡ some new)
    × (((old : PlaybookRow) × (find_family family db.playbooks ≡ some old)
          × (inserted ≡ false)
          × (got ≡ old.id)
          × Updates input now old new)
        ⊎ ((find_family family db.playbooks ≡ none)
            × (inserted ≡ true)
            × (got ≡ id)
            × Inserts id input now new))
    × ((other : Str)
        → other ≢ family
        → find_family other db'.playbooks ≡ find_family other db.playbooks)

filled-Holds : (given : Str) (old : Option Str) → Holds given old (filled given old)
unfolding filled
filled-Holds [] old = (λ n. absurd (n refl), λ e. refl)
filled-Holds (c ∷ s) old = (λ n. refl, λ e. absurd (cc))

notes_update-Holds :
    (preserve : Bool) (given : Str) (old : Option Str)
    → (preserve ≡ false) ⊎ IsBlank old
    → Holds given old (notes_update preserve given old)
unfolding notes_update or_empty
notes_update-Holds false given old h = filled-Holds given old
notes_update-Holds true given none h = filled-Holds given none
notes_update-Holds true given (some []) h = filled-Holds given (some [])
notes_update-Holds true given (some (c ∷ s)) (inl h) = absurd (cc)
notes_update-Holds true given (some (c ∷ s)) (inr (inl h)) = absurd (cc)
notes_update-Holds true given (some (c ∷ s)) (inr (inr h)) = absurd (ground arith)

notes_update-kept :
    (preserve : Bool) (given : Str) (old : Option Str)
    → preserve ≡ true
    → IsFilled old
    → notes_update preserve given old ≡ old
unfolding notes_update or_empty
notes_update-kept preserve given old p (c, s, e) = rw (p, e) refl

updated-Updates :
    (input : UpsertPlaybookInput) (now : ℕ) (old : PlaybookRow)
    → Updates input now old (updated input now old)
unfolding updated
updated-Updates input now old = record {
  playbook = filled-Holds input.playbook_json old.playbook_json;
  notes_kept = notes_update-kept input.preserve_existing_notes input.notes_text old.notes_text;
  notes = notes_update-Holds input.preserve_existing_notes input.notes_text old.notes_text;
  seen = refl;
  id = refl;
  query_family = refl;
  source = refl;
  confidence = refl;
  created_at = refl;
}

source_of_cases : (s : Str) → (s ≢ [] → source_of s ≡ s) × (s ≡ [] → source_of s ≡ str "taught")
unfolding source_of
source_of_cases [] = (λ n. absurd (n refl), λ e. refl)
source_of_cases (c ∷ s) = (λ n. refl, λ e. absurd (cc))

playbook_row-Inserts :
    (id : ℕ) (input : UpsertPlaybookInput) (now : ℕ)
    → Inserts id input now (
        playbook_row id
          (trim_space input.query_family)
          input.playbook_json
          input.notes_text
          (source_of input.source)
          now)
unfolding playbook_row
playbook_row-Inserts id input now = record {
  playbook = refl;
  notes = refl;
  source = source_of_cases input.source;
  id_of = refl;
  query_family = refl;
  confidence = refl;
  times = (refl, refl);
}

-- UpsertPlaybook, whichever of its calls fail, either returns an error and leaves the tables, or writes
-- the row of the trimmed family and keeps that of every other. An error has a cause: a blank family, no
-- content, a database call that fails or a new id that is taken. A row that was there keeps its id,
-- source, confidence and time of creation, is marked as seen now, has the playbook that is given unless
-- that is empty, and the notes that are given unless those are empty or the input preserves notes that
-- are there. A new row has the id that SQLite gives, the content and the source that are given, or the
-- source "taught" if none is, and the times of now. Ids are a key at the start.
pub upsert_playbook-Writes :
    (id : ℕ) (input : UpsertPlaybookInput) (now : ℕ) (db : Db) (fs : Faults)
    → IsKeyed db.playbooks
    → let r = upsert_playbook id input now db fs in
      ((e : Error) × (r.result ≡ err e) × (r.db ≡ db) × Cause id input db fs)
      ⊎ ((a : ℕ × Bool) × (r.result ≡ ok a) × Writes id input now db a r.db)
unfolding playbook_row
upsert_playbook-Writes id input now db fs k = elim (upsert_playbook-Saved id input now db fs k) [
  | inl (e, r, d) ↦ inl (e, r, d, upsert_playbook-Cause id input now db fs e r)
  | inr (a, r, (inl (old, f, i, g, w), others)) ↦
      inr (
        a,
        r,
        (updated input now old, w, inl (old, f, i, g, updated-Updates input now old), others),
      )
  | inr (a, r, (inr (f, i, g, w), others)) ↦
      inr (a, r, (_, w, inr (f, i, g, playbook_row-Inserts id input now), others))
]
