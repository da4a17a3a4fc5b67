-- ===== src/Iconindex/Replace/Effect.antt =====
-- A replacement happens whole or not at all.
use mathlib.Core.List.{append-nil}
use iconify_cli.Base.{
  ℕ, ◌≡◌, refl, inl, inr, true, false, not, Option, none, some, List, [], ◌∷◌, ◌++◌, keep, map,
  Bool-cases,
}
use iconify_cli.Base.Strings.{Str}
use iconify_cli.Iconindex.Collection.{IconRow}
use iconify_cli.Iconindex.Db.{
  Db, Error, Faults, Outcome, done, failed, Tx, continue, call, exec, apply,
}
use iconify_cli.Iconindex.Replace.{
  names_of, scan_names, names_in_tx, join_lines, save_snapshot, snapshot, fts_of, insert_fts,
  delete_icons, delete_fts, record_last_modified,
}

-- If the transaction gets to its end, it returns `a` and leaves the tables `target`.
abbrev pub Ends {ℓ} : {A : Type ℓ} → A → Db → Outcome A → Type ℓ
Ends a target (done b db fs) = (b ≡ a) × (db ≡ target)
Ends a target (failed e fs) = Unit

pub Ends-continue {ℓ} :
    {A B : Type ℓ} (a : A) (b : B) (mid target : Db) (o : Outcome A) (f : A → Tx B)
    → Ends a mid o
    → ((fs : Faults) → Ends b target (f a mid fs))
    → Ends b target (continue o f)
Ends-continue a b mid target (done a' mid' fs) f h k = rw (h.0, h.1) (k fs)
Ends-continue a b mid target (failed e fs) f h k = tt

pub Ends-call {ℓ} :
    {A : Type ℓ} (e : Error) (f : Db → A) (db : Db) (fs : Faults) → Ends (f db) db (call e f db fs)
unfolding call
Ends-call e f db [] = (refl, refl)
Ends-call e f db (true ∷ fs) = tt
Ends-call e f db (false ∷ fs) = (refl, refl)

Ends-apply :
    (e : Error) (o : Option Db) (target : Db) (fs : Faults)
    → ((d : Db) → o ≡ some d → d ≡ target)
    → Ends tt target (apply e o fs)
Ends-apply e none target fs h = tt
Ends-apply e (some d) target fs h = (refl, h d refl)

pub Ends-exec :
    (e : Error) (f : Db → Option Db) (db target : Db) (fs : Faults)
    → ((d : Db) → f db ≡ some d → d ≡ target)
    → Ends tt target (exec e f db fs)
unfolding exec
Ends-exec e f db target [] h = Ends-apply e (f db) target [] h
Ends-exec e f db target (true ∷ fs) h = tt
Ends-exec e f db target (false ∷ fs) h = Ends-apply e (f db) target fs h

-- A statement that breaks no constraint.
pub Ends-update :
    (e : Error) (g : Db → Db) (db : Db) (fs : Faults)
    → Ends tt (g db) (exec e (λ d. some (g d)) db fs)
Ends-update e g db fs = Ends-exec e (λ d. some (g d)) db (g db) fs (λ d p. cc)

-- The tables after the snapshot of the prior names, if there are any.
unfoldable pub snapshotted : ℕ → Str → ℕ → List Str → Db → Db
snapshotted now prefix lm [] db = db
snapshotted now prefix lm (n ∷ prior) db =
    save_snapshot
      (record {
        prefix = prefix;
        taken_at = now;
        last_modified = lm;
        names = join_lines (n ∷ prior);
      })
      db

-- The tables after the rows, and the search rows of the visible ones.
unfoldable pub inserted : List IconRow → Db → Db
inserted rows db = record db {
  icons = db.icons ++ rows;
  icons_fts = db.icons_fts ++ map fts_of (keep (λ r. not r.hidden) rows);
}

-- The tables after a replacement.
unfoldable pub replaced : ℕ → Str → List IconRow → ℕ → Db → Db
replaced now prefix rows lm db = record_last_modified lm prefix (
    inserted rows
      (delete_fts prefix (delete_icons prefix (snapshotted now prefix lm (names_of prefix db) db))))

Ends-scan_names :
    (e : Error) (names : List Str) (db : Db) (fs : Faults)
    → Ends names db (scan_names e names db fs)
unfolding scan_names
Ends-scan_names e [] db fs = (refl, refl)
Ends-scan_names e (n ∷ names) db fs =
    Ends-continue n (n ∷ names) db db _ _ (Ends-call e (λ _. n) db fs) λ gs.
      Ends-continue names (n ∷ names) db db _ _ (Ends-scan_names e names db gs) λ hs. (refl, refl)

pub Ends-names_in_tx :
    (prefix : Str) (db : Db) (fs : Faults) → Ends (names_of prefix db) db (names_in_tx prefix db fs)
unfolding names_in_tx
Ends-names_in_tx prefix db fs =
    Ends-continue (names_of prefix db) _ db db _ _ (Ends-call _ (names_of prefix) db fs) λ gs.
      Ends-continue (names_of prefix db) _ db db _ _ (Ends-scan_names _ (names_of prefix db) db gs)
        λ hs. Ends-continue tt _ db db _ _ (Ends-call _ (λ _. tt) db hs) λ is. (refl, refl)

pub Ends-snapshot :
    (now : ℕ) (prefix : Str) (lm : ℕ) (prior : List Str) (db : Db) (fs : Faults)
    → Ends tt (snapshotted now prefix lm prior db) (snapshot now prefix lm prior db fs)
unfolding snapshot snapshotted
Ends-snapshot now prefix lm [] db fs = (refl, refl)
Ends-snapshot now prefix lm (n ∷ prior) db fs = Ends-exec _ _ db _ fs (λ d e. cc)

pub Ends-insert_fts :
    (r : IconRow) (db : Db) (fs : Faults)
    → Ends tt
        (record db { icons_fts = db.icons_fts ++ map fts_of (keep (λ q. not q.hidden) (r ∷ [])) })
        (insert_fts r db fs)
unfolding insert_fts
Ends-insert_fts r db fs = elim (Bool-cases r.hidden) [
  | inl e ↦ rw e (refl, rw append-nil refl)
  | inr e ↦ rw e (Ends-exec _ _ db _ fs (λ d p. cc))
]
