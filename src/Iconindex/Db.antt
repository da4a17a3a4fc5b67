-- ===== src/Iconindex/Db.antt =====
-- The tables of internal/store/iconify_migrations.go and the transactions over them. SQLite is not
-- part of the repository: a statement is the change of the tables that its text asks for, a
-- constraint that it would break makes it fail, and any call may also fail from outside (a lock, a
-- full disk, a cancelled context), which a list of faults decides, one entry for each call.
use iconify_cli.Base.{ℕ, Bool, true, false, Option, none, some, List, [], ◌∷◌}
use iconify_cli.Base.Int.{ℤ}
use iconify_cli.Base.Strings.{Str}
use iconify_cli.Iconindex.Collection.{IconRow}

-- One row of /collections.
pub record SetInfo : Type 0 where
  pub prefix : Str
  pub name : Str
  pub total : ℤ
  pub category : Str
  pub author : Str
  pub license : Str
  pub spdx : Str
  pub url : Str
  pub palette : Bool
  pub height : ℤ

-- icon_sets: the columns of a SetInfo, and two of the index itself.
pub record SetRow : Type 0 where
  pub info : SetInfo
  pub last_modified : ℕ
  pub indexed_at : ℕ

-- icons_fts
pub record FtsRow : Type 0 where
  pub prefix : Str
  pub name : Str
  pub category : Str

-- icon_set_snapshots
pub record SnapshotRow : Type 0 where
  pub prefix : Str
  pub taken_at : ℕ
  pub last_modified : ℕ
  pub names : Str

pub record Db : Type 0 where
  pub icon_sets : List SetRow
  pub icons : List IconRow
  pub icons_fts : List FtsRow
  pub icon_set_snapshots : List SnapshotRow

-- The errors that the package wraps, by their messages.
pub data Error : Type 0 where
  begin_sets prepare_sets_upsert commit_sets : Error
  upserting_set : Str → Error
  begin_icons commit_icons prepare_icons_insert prepare_fts_insert : Error
  reading_prior_names scanning_prior_name iterating_prior_names : Str → Error
  snapshotting clearing_icons clearing_fts recording_last_modified : Str → Error
  inserting indexing : Str → Str → Error
  reading_stored scanning_stored iterating_stored : Error

-- Whether each call to come fails; past the end none does.
abbrev pub Faults : Type 0
Faults = List Bool

pub data Outcome {ℓ} (A : Type ℓ) : Type ℓ where
  done : A → Db → Faults → Outcome A
  failed : Error → Faults → Outcome A

abbrev pub Tx {ℓ} : Type ℓ → Type ℓ
Tx A = Db → Faults → Outcome A

abbrev pub continue {ℓ} : {A B : Type ℓ} → Outcome A → (A → Tx B) → Outcome B
continue (done a db fs) f = f a db fs
continue (failed e fs) f = failed e fs

infixl 5 ◌>>=◌ ◌>>◌
abbrev pub ◌>>=◌ {ℓ} : {A B : Type ℓ} → Tx A → (A → Tx B) → Tx B
◌>>=◌ m f db fs = continue (m db fs) f

abbrev pub ◌>>◌ {ℓ} : {A B : Type ℓ} → Tx A → Tx B → Tx B
m >> n = m >>= λ _. n

abbrev pub pure {ℓ} : {A : Type ℓ} → A → Tx A
pure a db fs = done a db fs

-- A call that does not change the tables: it returns `a`, or fails with `e`.
unfoldable pub call {ℓ} : {A : Type ℓ} → Error → (Db → A) → Tx A
call e f db [] = done (f db) db []
call e f db (true ∷ fs) = failed e fs
call e f db (false ∷ fs) = done (f db) db fs

abbrev pub apply : Error → Option Db → Faults → Outcome (Unit {0})
apply e none fs = failed e fs
apply e (some db) fs = done tt db fs

-- A statement that changes the tables, or breaks a constraint (`none`).
unfoldable pub exec : Error → (Db → Option Db) → Tx (Unit {0})
exec e f db [] = apply e (f db) []
exec e f db (true ∷ fs) = failed e fs
exec e f db (false ∷ fs) = apply e (f db) fs

-- What a caller sees: an error or none, the tables, and the faults still to come.
pub record Ran : Type 0 where
  pub error : Option Error
  pub db : Db
  pub faults : Faults

abbrev pub settle : Db → Outcome (Unit {0}) → Ran
settle before (done _ db fs) = record { error = none; db = db; faults = fs }
settle before (failed e fs) = record { error = some e; db = before; faults = fs }

-- BeginTx, the body, Commit; the deferred Rollback undoes what came before an error.
unfoldable pub transaction : Error → Error → Tx (Unit {0}) → Db → Faults → Ran
transaction begin commit body db fs =
    settle db ((do call begin (λ _. tt); body; call commit (λ _. tt)) db fs)
