-- ===== src/Iconindex/Replace/Sets.antt =====
-- The effect of upsertSets, and what storedLastModified reads.
use iconify_cli.Base.{
  ℕ, ◌≡◌, refl, ◌∙◌, true, not, ◌&&◌, ◌||◌, none, some, List, [], ◌∷◌, arith, if◌then◌else◌,
}
use iconify_cli.Base.Strings.{Str, str_eq, str_eq_iff, has}
use iconify_cli.Base.Dict.{Dict, lookup, put, lookup-put}
use iconify_cli.Iconindex.Db.{SetInfo, SetRow, Db, Faults, done, call}
use iconify_cli.Iconindex.Replace.{
  upsert_row, upsert_each, upsert_sets, scan_stored, stored_last_modified,
}
use iconify_cli.Iconindex.Replace.Effect.{Ends, Ends-continue, Ends-call, Ends-update}
use iconify_cli.Iconindex.Replace.Atomic.{AllOrNothing, transaction-AllOrNothing}
use iconify_cli.Iconindex.Replace.Frame.{stamp, has_set}

unfoldable pub upsert_rows : ℕ → List SetInfo → List SetRow → List SetRow
upsert_rows now [] rows = rows
upsert_rows now (s ∷ sets) rows = upsert_rows now sets (upsert_row now s rows)

-- The tables after the sets have been written.
unfoldable pub upserted : ℕ → List SetInfo → Db → Db
upserted now sets db = record db { icon_sets = upsert_rows now sets db.icon_sets }

Ends-upsert_each :
    (now : ℕ) (sets : List SetInfo) (db : Db) (fs : Faults)
    → Ends tt (upserted now sets db) (upsert_each now sets db fs)
unfolding upsert_each upserted upsert_rows
Ends-upsert_each now [] db fs = (refl, refl)
Ends-upsert_each now (s ∷ sets) db fs =
    Ends-continue tt tt _ _ _ _
      (Ends-update _ (λ d. record d { icon_sets = upsert_row now s d.icon_sets }) db fs)
      λ gs. Ends-upsert_each now sets (record db { icon_sets = upsert_row now s db.icon_sets }) gs

-- Whichever of its calls fail, upsertSets writes all the sets, or reports an error and none.
pub upsert_sets_atomic :
    (now : ℕ) (sets : List SetInfo) (db : Db) (fs : Faults)
    → AllOrNothing db (upserted now sets db) (upsert_sets now sets db fs)
unfolding upsert_sets
upsert_sets_atomic now sets db fs = transaction-AllOrNothing _ _ _ db _ fs λ gs.
    Ends-continue tt tt db _ _ _ (Ends-call _ (λ _. tt) db gs) λ hs. Ends-upsert_each now sets db hs

stamp-upsert_row :
    (now : ℕ) (s : SetInfo) (q : Str) (rows : List SetRow)
    → stamp q (upsert_row now s rows)
      ≡ (if str_eq s.prefix q && not (has_set q rows) then some 0 else stamp q rows)
unfolding stamp upsert_row has_set
stamp-upsert_row now s q [] = ground arith
stamp-upsert_row now s q (r ∷ rows) = ground (
  arith,
  stamp-upsert_row now s q rows,
  str_eq_iff r.info.prefix s.prefix,
  str_eq_iff s.prefix q,
  str_eq_iff r.info.prefix q,
)

has_set-upsert_row :
    (now : ℕ) (s : SetInfo) (q : Str) (rows : List SetRow)
    → has_set q (upsert_row now s rows) ≡ (str_eq s.prefix q || has_set q rows)
unfolding upsert_row has_set
has_set-upsert_row now s q [] = ground arith
has_set-upsert_row now s q (r ∷ rows) = ground (
  arith,
  has_set-upsert_row now s q rows,
  str_eq_iff r.info.prefix s.prefix,
  str_eq_iff s.prefix q,
  str_eq_iff r.info.prefix q,
)

-- The prefixes of the sets.
unfoldable pub set_prefixes : List SetInfo → List Str
set_prefixes [] = []
set_prefixes (s ∷ sets) = s.prefix ∷ set_prefixes sets

pub has_set-upsert_rows :
    (now : ℕ) (sets : List SetInfo) (q : Str) (rows : List SetRow)
    → has_set q (upsert_rows now sets rows) ≡ (has q (set_prefixes sets) || has_set q rows)
unfolding upsert_rows set_prefixes has
has_set-upsert_rows now [] q rows = refl
has_set-upsert_rows now (s ∷ sets) q rows = ground (
  arith,
  has_set-upsert_rows now sets q (upsert_row now s rows),
  has_set-upsert_row now s q rows,
  str_eq_iff q s.prefix,
  str_eq_iff s.prefix q,
)

-- Writing a set never changes the timestamp of a set that is there.
pub stamp-upsert_rows :
    (now : ℕ) (sets : List SetInfo) (q : Str) (rows : List SetRow)
    → has_set q rows ≡ true
    → stamp q (upsert_rows now sets rows) ≡ stamp q rows
unfolding upsert_rows
stamp-upsert_rows now [] q rows h = refl
stamp-upsert_rows now (s ∷ sets) q rows h =
    stamp-upsert_rows now sets q (upsert_row now s rows)
      (ground (arith, has_set-upsert_row now s q rows))
    ∙ ground (arith, stamp-upsert_row now s q rows)

scanned : List SetRow → Dict ℕ → Dict ℕ
scanned [] out = out
scanned (r ∷ rows) out = scanned rows (put r.info.prefix r.last_modified out)

lookup-scanned :
    (q : Str) (rows : List SetRow) (out : Dict ℕ)
    → lookup q (scanned rows out) ≡ elim (stamp q rows) [ some lm ↦ some lm | none ↦ lookup q out ]
unfolding scanned stamp
lookup-scanned q [] out = refl
lookup-scanned q (r ∷ rows) out = ground (
  arith,
  lookup-scanned q rows (put r.info.prefix r.last_modified out),
  lookup-put r.info.prefix q r.last_modified out,
)

Ends-scan_stored :
    (rows : List SetRow) (out : Dict ℕ) (db : Db) (fs : Faults)
    → Ends (scanned rows out) db (scan_stored rows out db fs)
unfolding scan_stored scanned
Ends-scan_stored [] out db fs = (refl, refl)
Ends-scan_stored (r ∷ rows) out db fs =
    Ends-continue tt _ db db _ _ (Ends-call _ (λ _. tt) db fs)
      λ gs. Ends-scan_stored rows (put r.info.prefix r.last_modified out) db gs

-- The map of the timestamps.
pub stamps : Db → Dict ℕ
stamps db = scanned db.icon_sets []

pub lookup-stamps : (q : Str) (db : Db) → lookup q (stamps db) ≡ stamp q db.icon_sets
unfolding stamps lookup
lookup-stamps q db = lookup-scanned q db.icon_sets [] ∙ ground arith

-- storedLastModified changes nothing, and returns each set's timestamp if it returns.
pub Ends-stored_last_modified :
    (db : Db) (fs : Faults) → Ends (stamps db) db (stored_last_modified db fs)
unfolding stored_last_modified stamps
Ends-stored_last_modified db fs =
    Ends-continue db.icon_sets _ db db _ _ (Ends-call _ (λ d. d.icon_sets) db fs) λ gs.
      Ends-continue (scanned db.icon_sets []) _ db db _ _ (Ends-scan_stored db.icon_sets [] db gs)
        λ hs. Ends-continue tt _ db db _ _ (Ends-call _ (λ _. tt) db hs) λ is. (refl, refl)

scan_stored-done :
    (rows : List SetRow) (out : Dict ℕ) (db : Db)
    → scan_stored rows out db [] ≡ done (scanned rows out) db []
unfolding scan_stored scanned call
scan_stored-done [] out db = refl
scan_stored-done (r ∷ rows) out db =
    scan_stored-done rows (put r.info.prefix r.last_modified out) db

-- Without faults the timestamps are read.
pub stored_last_modified-done : (db : Db) → stored_last_modified db [] ≡ done (stamps db) db []
unfolding stored_last_modified stamps call
stored_last_modified-done db = rw (scan_stored-done db.icon_sets [] db) refl
