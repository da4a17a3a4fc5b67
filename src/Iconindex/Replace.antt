-- ===== src/Iconindex/Replace.antt =====
-- internal/iconindex/index.go: the writes of an index build, upsertSets and replaceIcons, and the
-- read storedLastModified.
pub mod Effect
pub mod Atomic
pub mod Success
pub mod Mirror
pub mod Frame
pub mod Sets
use mathlib.Core.List.{map}
use iconify_cli.Base.{
  ℕ, Bool, true, false, not, ◌&&◌, ◌||◌, ◌==◌, Option, none, some, List, [], ◌∷◌, ◌++◌, keep,
  if◌then◌else◌,
}
use iconify_cli.Base.Strings.{Str, str_eq, is_empty}
use iconify_cli.Base.Sort.{sort_strings}
use iconify_cli.Base.Dict.{Dict, put}
use iconify_cli.Iconindex.Collection.{IconRow}
use iconify_cli.Iconindex.Db.{
  SetInfo, SetRow, FtsRow, SnapshotRow, Db, Error, prepare_sets_upsert, begin_sets, commit_sets,
  upserting_set, begin_icons, commit_icons, prepare_icons_insert, prepare_fts_insert,
  reading_prior_names, scanning_prior_name, iterating_prior_names, snapshotting, clearing_icons,
  clearing_fts, recording_last_modified, inserting, indexing, reading_stored, scanning_stored,
  iterating_stored, Faults, Tx, ◌>>=◌, ◌>>◌, pure, call, exec, Ran, transaction,
}

-- INSERT INTO icon_sets ... ON CONFLICT(prefix) DO UPDATE: last_modified is 0 in a new row and
-- stays in an old one.
unfoldable pub upsert_row : ℕ → SetInfo → List SetRow → List SetRow
upsert_row now s [] = record { info = s; last_modified = 0; indexed_at = now } ∷ []
upsert_row now s (r ∷ rows) =
    let rest = upsert_row now s rows in
    if str_eq r.info.prefix s.prefix
    then record r { info = s; indexed_at = now } ∷ rows
    else r ∷ rest

unfoldable pub upsert_each : ℕ → List SetInfo → Tx (Unit {0})
upsert_each now [] = pure tt
upsert_each now (s ∷ sets) = do
  exec (upserting_set s.prefix)
      (λ db. some (record db { icon_sets = upsert_row now s db.icon_sets }))
  upsert_each now sets

unfoldable pub upsert_sets : ℕ → List SetInfo → Db → Faults → Ran
upsert_sets now sets =
    transaction begin_sets commit_sets (call prepare_sets_upsert (λ _. tt) >> upsert_each now sets)

-- SELECT name FROM icons WHERE prefix = ? ORDER BY name
unfoldable pub names_of : Str → Db → List Str
names_of prefix db = sort_strings (map (λ r. r.name) (keep (λ r. str_eq r.prefix prefix) db.icons))

-- rows.Scan for each row
unfoldable pub scan_names : Error → List Str → Tx (List Str)
scan_names e [] = pure []
scan_names e (n ∷ names) = do m ← call e (λ _. n); rest ← scan_names e names; pure (m ∷ rest)

unfoldable pub names_in_tx : Str → Tx (List Str)
names_in_tx prefix = do
  rows ← call (reading_prior_names prefix) (names_of prefix)
  out ← scan_names (scanning_prior_name prefix) rows
  call (iterating_prior_names prefix) (λ _. tt)
  pure out

-- strings.Join(names, "\n")
unfoldable pub join_lines : List Str → Str
join_lines [] = []
join_lines (n ∷ []) = n
join_lines (n ∷ m ∷ names) = n ++ b'\n' ∷ join_lines (m ∷ names)

-- INSERT OR REPLACE INTO icon_set_snapshots, keyed by the prefix and the time
unfoldable pub save_snapshot : SnapshotRow → Db → Db
save_snapshot s db = record db {
  icon_set_snapshots =
      keep (λ t. not (str_eq t.prefix s.prefix && t.taken_at == s.taken_at)) db.icon_set_snapshots
      ++ s ∷ [];
}

unfoldable pub snapshot : ℕ → Str → ℕ → List Str → Tx (Unit {0})
snapshot now prefix lm [] = pure tt
snapshot now prefix lm (n ∷ prior) = exec (snapshotting prefix) (λ db. some (
    save_snapshot
      (record {
        prefix = prefix;
        taken_at = now;
        last_modified = lm;
        names = join_lines (n ∷ prior);
      })
      db))

-- Whether a row with this primary key is there.
unfoldable pub has_icon : Str → Str → List IconRow → Bool
has_icon prefix name [] = false
has_icon prefix name (r ∷ rows) =
    (str_eq r.prefix prefix && str_eq r.name name) || has_icon prefix name rows

-- INSERT INTO icons: a second row with the same key breaks the primary key.
unfoldable pub insert_icon : IconRow → Db → Option Db
insert_icon r db =
    if has_icon r.prefix r.name db.icons
    then none
    else some (record db { icons = db.icons ++ r ∷ [] })

unfoldable pub fts_of : IconRow → FtsRow
fts_of r = record { prefix = r.prefix; name = r.name; category = r.category }

unfoldable pub insert_fts : IconRow → Tx (Unit {0})
insert_fts r =
    if r.hidden
    then pure tt
    else exec (indexing r.prefix r.name)
        (λ db. some (record db { icons_fts = db.icons_fts ++ fts_of r ∷ [] }))

unfoldable pub insert_rows : List IconRow → Tx (Unit {0})
insert_rows [] = pure tt
insert_rows (r ∷ rows) = do
  exec (inserting r.prefix r.name) (insert_icon r)
  insert_fts r
  insert_rows rows

-- UPDATE icon_sets SET last_modified = ? WHERE prefix = ?
unfoldable pub set_last_modified : ℕ → Str → SetRow → SetRow
set_last_modified lm prefix r =
    if str_eq r.info.prefix prefix then record r { last_modified = lm } else r

unfoldable pub delete_icons : Str → Db → Db
delete_icons prefix db = record db { icons = keep (λ r. not (str_eq r.prefix prefix)) db.icons }

unfoldable pub delete_fts : Str → Db → Db
delete_fts prefix db = record db {
  icons_fts = keep (λ r. not (str_eq r.prefix prefix)) db.icons_fts;
}

unfoldable pub record_last_modified : ℕ → Str → Db → Db
record_last_modified lm prefix db = record db {
  icon_sets = map (set_last_modified lm prefix) db.icon_sets;
}

unfoldable pub replace_body : ℕ → Str → List IconRow → ℕ → Tx (Unit {0})
replace_body now prefix rows lm = do
  prior ← names_in_tx prefix
  snapshot now prefix lm prior
  exec (clearing_icons prefix) (λ db. some (delete_icons prefix db))
  exec (clearing_fts prefix) (λ db. some (delete_fts prefix db))
  call prepare_icons_insert (λ _. tt)
  call prepare_fts_insert (λ _. tt)
  insert_rows rows
  exec (recording_last_modified prefix) (λ db. some (record_last_modified lm prefix db))

unfoldable pub replace_icons : ℕ → Str → List IconRow → ℕ → Db → Faults → Ran
replace_icons now prefix rows lm =
    transaction begin_icons commit_icons (replace_body now prefix rows lm)

-- rows.Scan and out[p] = lm for each row of icon_sets
unfoldable pub scan_stored : List SetRow → Dict ℕ → Tx (Dict ℕ)
scan_stored [] out = pure out
scan_stored (r ∷ rows) out = do
  call scanning_stored (λ _. tt)
  scan_stored rows (put r.info.prefix r.last_modified out)

unfoldable pub stored_last_modified : Tx (Dict ℕ)
stored_last_modified = do
  rows ← call reading_stored (λ db. db.icon_sets)
  out ← scan_stored rows []
  call iterating_stored (λ _. tt)
  pure out
