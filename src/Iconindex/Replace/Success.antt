-- ===== src/Iconindex/Replace/Success.antt =====
-- The rows of ParseCollection break no constraint: without faults from outside they are written.
use iconify_cli.Base.{
  ℕ, ◌≡◌, refl, sym, subst, false, not, ◌&&◌, ◌||◌, none, List, [], ◌∷◌, ◌++◌, arith, keep,
  Bool-cases, All, inl, inr,
}
use iconify_cli.Base.Strings.{Str, str_eq, str_eq_iff}
use iconify_cli.Iconindex.Collection.{IconRow, CollectionPayload, parse_collection}
use iconify_cli.Iconindex.Collection.Index.{position}
use iconify_cli.Iconindex.Collection.Distinct.{Distinct, HasPrefix}
use iconify_cli.Iconindex.Collection.Parse.{parse_collection-Distinct, parse_collection-HasPrefix}
use iconify_cli.Iconindex.Db.{Db, Error, inserting, Outcome, done, call, exec, transaction}
use iconify_cli.Iconindex.Replace.{
  names_of, has_icon, insert_icon, fts_of, insert_fts, scan_names, names_in_tx, snapshot,
  insert_rows, delete_icons, delete_fts, record_last_modified, replace_body, replace_icons,
}

has_icon-snoc :
    (p n : Str) (r : IconRow) (rows : List IconRow)
    → has_icon p n (rows ++ r ∷ []) ≡ (has_icon p n rows || (str_eq r.prefix p && str_eq r.name n))
unfolding has_icon
has_icon-snoc p n r [] = ground arith
has_icon-snoc p n r (q ∷ rows) = ground (arith, has_icon-snoc p n r rows)

has_icon-delete :
    (p n : Str) (rows : List IconRow)
    → has_icon p n (keep (λ r. not (str_eq r.prefix p)) rows) ≡ false
unfolding has_icon
has_icon-delete p n [] = refl
has_icon-delete p n (r ∷ rows) = ground (arith, has_icon-delete p n rows)

-- None of the rows is there already.
abbrev IsFree : Db → IconRow → Type 0
IsFree db r = has_icon r.prefix r.name db.icons ≡ false

IsFree-insert :
    (db : Db) (r : IconRow) (rows : List IconRow)
    → All (IsFree db) rows
    → position r.name rows ≡ none
    → All (IsFree (record db { icons = db.icons ++ r ∷ [] })) rows
unfolding position
IsFree-insert db r [] h d = tt
IsFree-insert db r (q ∷ rows) h d = (
  ground (
    arith,
    has_icon-snoc q.prefix q.name r db.icons,
    str_eq_iff q.name r.name,
    str_eq_iff r.name q.name,
  ),
  IsFree-insert db r rows h.1 (ground arith),
)

IsFree-icons :
    (a b : Db) (rows : List IconRow) → b.icons ≡ a.icons → All (IsFree a) rows → All (IsFree b) rows
IsFree-icons a b rows e h =
    subst (λ l. All (λ r. has_icon r.prefix r.name l ≡ false) rows) (sym e) h

Succeeds : Outcome (Unit {0}) → Type 0
Succeeds o = (d : Db) × (o ≡ done tt d [])

insert_fts-icons :
    (r : IconRow) (db : Db) → (d : Db) × (insert_fts r db [] ≡ done tt d []) × (d.icons ≡ db.icons)
unfolding insert_fts exec
insert_fts-icons r db = elim (Bool-cases r.hidden) [
  | inl e ↦ (db, rw e refl, refl)
  | inr e ↦ (record db { icons_fts = db.icons_fts ++ fts_of r ∷ [] }, rw e refl, refl)
]

insert_rows-Succeeds :
    (rows : List IconRow) (db : Db)
    → All (IsFree db) rows
    → Distinct rows
    → Succeeds (insert_rows rows db [])
unfolding Succeeds insert_rows
insert_rows-Succeeds [] db h d = (db, refl)
insert_rows-Succeeds (r ∷ rows) db h d =
    let one = record db { icons = db.icons ++ r ∷ [] } in
    let first : exec (inserting r.prefix r.name) (insert_icon r) db [] ≡ done tt one [] =
      unfold exec insert_icon in rw h.0 refl in
    let (two, second, same) = insert_fts-icons r one in
    let (last, rest) =
      insert_rows-Succeeds rows two
        (IsFree-icons one two rows same (IsFree-insert db r rows h.1 d.0)) d.1 in
    (last, rw (first, second) rest)

scan_names-done :
    (e : Error) (names : List Str) (db : Db) → scan_names e names db [] ≡ done names db []
unfolding scan_names call
scan_names-done e [] db = refl
scan_names-done e (n ∷ names) db = rw (scan_names-done e names db) refl

snapshot-done :
    (now : ℕ) (prefix : Str) (lm : ℕ) (prior : List Str) (db : Db)
    → (d : Db) × (snapshot now prefix lm prior db [] ≡ done tt d [])
unfolding snapshot exec
snapshot-done now prefix lm [] db = (db, refl)
snapshot-done now prefix lm (n ∷ prior) db = (_, refl)

-- Every row has the prefix, so nothing is left of them once the prefix is deleted.
free_of_prefix :
    (prefix : Str) (icons : List IconRow) (rows : List IconRow)
    → All (HasPrefix prefix) rows
    → All
        (λ r. has_icon r.prefix r.name (keep (λ q. not (str_eq q.prefix prefix)) icons) ≡ false)
        rows
free_of_prefix prefix icons [] h = tt
free_of_prefix prefix icons (r ∷ rows) h =
    (rw h.0 (has_icon-delete prefix r.name icons), free_of_prefix prefix icons rows h.1)

replace_body-Succeeds :
    (now : ℕ) (prefix : Str) (rows : List IconRow) (lm : ℕ) (db : Db)
    → Distinct rows
    → All (HasPrefix prefix) rows
    → Succeeds (replace_body now prefix rows lm db [])
unfolding replace_body names_in_tx call Succeeds
replace_body-Succeeds now prefix rows lm db d h =
    let (one, first) = snapshot-done now prefix lm (names_of prefix db) db in
    let two = delete_fts prefix (delete_icons prefix one) in
    let (three, third) =
      insert_rows-Succeeds rows two
        (unfold delete_fts delete_icons in free_of_prefix prefix one.icons rows h) d in
    (
      record_last_modified lm prefix three,
      rw (scan_names-done _ (names_of prefix db) db, first) (unfold exec in rw third refl),
    )

-- When no call fails from outside, the rows of a parsed collection are written without an error:
-- they break no primary key.
pub replace_icons-parse_collection :
    (now : ℕ) (prefix : Str) (p : CollectionPayload) (lm : ℕ) (db : Db)
    → (replace_icons now prefix (parse_collection prefix p) lm db []).error ≡ none
unfolding replace_icons transaction call Succeeds
replace_icons-parse_collection now prefix p lm db =
    let (d, e) =
      replace_body-Succeeds now prefix (parse_collection prefix p) lm db
        (parse_collection-Distinct prefix p) (parse_collection-HasPrefix prefix p) in
    rw e refl
