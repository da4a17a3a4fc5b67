-- ===== src/Store/Db.antt =====
-- The tables learn_candidates and learning_playbooks of internal/store/store.go, and the calls of
-- database/sql on them. A statement is the change of the tables that its text asks for; a key that it
-- would break makes it fail; and any call may fail from outside, which a list of faults decides.
use iconify_cli.Base.{ℕ, ◌-◌, ◌%◌, Bool, true, false, Option, none, some, List, [], ◌∷◌}
use iconify_cli.Base.Strings.{Str}

pub data Class : Type 0 where
  flag_alias playbook_candidate : Class

pub data Status : Type 0 where
  opened confirmed rejected expired : Status

-- Times are nanoseconds since the year 1, as Go counts them.
pub record CandidateRow : Type 0 where
  pub id : ℕ
  pub class : Class
  pub payload : Str
  pub signature : Str
  pub sightings : ℕ
  pub status : Status
  pub query_family : Str
  pub command_path : Str
  pub created_at : ℕ
  pub updated_at : ℕ
  pub last_seen_at : ℕ

-- `none` is NULL.
pub record PlaybookRow : Type 0 where
  pub id : ℕ
  pub query_family : Str
  pub playbook_json : Option Str
  pub notes_text : Option Str
  pub source : Str
  pub confidence : ℕ
  pub created_at : ℕ
  pub last_observed_at : Option ℕ

pub record Db : Type 0 where
  pub candidates : List CandidateRow
  pub playbooks : List PlaybookRow

pub data Error : Type 0 where
  begin commit : Error
  unknown_class payload_required signature_required deriving_candidate missing_row : Error
  getting listing confirming rejecting expiring purging : Error
  no_candidate already_rejected confirmed_flag_alias : ℕ → Error
  not_open : ℕ → Status → Error
  wrong_class : ℕ → Class → Error
  family_required content_required marker_required : Error
  playbook_lookup playbook_update playbook_insert playbook_get playbook_list : Error

-- Whether each call to come fails; past the end none does.
abbrev pub Faults : Type 0
Faults = List Bool

pub data Result (A : Type 0) : Type 0 where
  ok : A → Result A
  err : Error → Result A

pub record Ran (A : Type 0) : Type 0 where
  pub result : Result A
  pub db : Db
  pub faults : Faults

-- What an error leaves behind stays, unless a transaction undoes it.
abbrev pub M : Type 0 → Type 0
M A = Db → Faults → Ran A

abbrev pub continue : {A B : Type 0} → Result A → (A → M B) → M B
continue (ok a) f db fs = f a db fs
continue (err e) f db fs = record { result = err e; db = db; faults = fs }

infixl 5 ◌>>=◌ ◌>>◌
abbrev pub ◌>>=◌ : {A B : Type 0} → M A → (A → M B) → M B
◌>>=◌ m f db fs = let r = m db fs in continue r.result f r.db r.faults

abbrev pub ◌>>◌ : {A B : Type 0} → M A → M B → M B
m >> n = m >>= λ _. n

abbrev pub pure : {A : Type 0} → A → M A
pure a db fs = record { result = ok a; db = db; faults = fs }

abbrev pub throw : {A : Type 0} → Error → M A
throw e db fs = record { result = err e; db = db; faults = fs }

-- A read: it returns what `f` finds, or fails.
unfoldable pub call : {A : Type 0} → Error → (Db → A) → M A
call e f db [] = record { result = ok (f db); db = db; faults = [] }
call e f db (true ∷ fs) = record { result = err e; db = db; faults = fs }
call e f db (false ∷ fs) = record { result = ok (f db); db = db; faults = fs }

abbrev pub apply : {A : Type 0} → Error → Option (A × Db) → M A
apply e none db fs = record { result = err e; db = db; faults = fs }
apply e (some (a, db')) db fs = record { result = ok a; db = db'; faults = fs }

-- A statement that changes the tables and returns a value, or breaks a key (`none`).
unfoldable pub exec : {A : Type 0} → Error → (Db → Option (A × Db)) → M A
exec e f db [] = apply e (f db) db []
exec e f db (true ∷ fs) = record { result = err e; db = db; faults = fs }
exec e f db (false ∷ fs) = apply e (f db) db fs

-- The deferred Rollback.
abbrev pub kept : {A : Type 0} → Result A → Db → Db → Db
kept (ok a) before after = after
kept (err e) before after = before

abbrev pub settle : {A : Type 0} → Db → Ran A → Ran A
settle before r = record r { db = kept r.result before r.db }

-- Begin, the body, Commit.
abbrev pub bracketed : {A : Type 0} → M A → M A
bracketed body = do call begin (λ _. tt); a ← body; call commit (λ _. tt); pure a

unfoldable pub transaction : {A : Type 0} → M A → M A
transaction body db fs = settle db (bracketed body db fs)

-- now.UTC().Format(time.RFC3339) drops the part of a second.
abbrev pub second : ℕ
second = 1000000000

unfoldable pub stamp : ℕ → ℕ
stamp now = now - now % second
