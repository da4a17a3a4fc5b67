-- ===== src/Iconindex/Replace/Atomic.antt =====
-- A replacement happens whole or not at all, and without faults it happens.
use mathlib.Core.List.{append_assoc, append-nil}
use iconify_cli.Base.{
  ℕ, ◌≡◌, refl, sym, ap, ◌∙◌, ◌⊎◌, inl, inr, not, none, some, List, [], ◌∷◌, ◌++◌, arith, keep, map,
  Bool-cases,
}
use iconify_cli.Base.Strings.{Str}
use iconify_cli.Iconindex.Collection.{IconRow}
use iconify_cli.Iconindex.Db.{
  Db, Error, Faults, Outcome, done, failed, Tx, Ran, settle, transaction,
}
use iconify_cli.Iconindex.Replace.{
  names_of, insert_icon, fts_of, insert_rows, delete_icons, delete_fts, record_last_modified,
  replace_body, replace_icons,
}
use iconify_cli.Iconindex.Replace.Effect.{
  Ends, Ends-continue, Ends-call, Ends-exec, Ends-update, Ends-names_in_tx, Ends-snapshot,
  Ends-insert_fts, inserted, replaced,
}

map-keep-cons :
    (r : IconRow) (rows : List IconRow)
    → map fts_of (keep (λ q. not q.hidden) (r ∷ rows))
      ≡ map fts_of (keep (λ q. not q.hidden) (r ∷ [])) ++ map fts_of (keep (λ q. not q.hidden) rows)
map-keep-cons r rows = elim (Bool-cases r.hidden) [ inl e ↦ rw e refl | inr e ↦ rw e refl ]

-- One row, then the rest, is all of them.
inserted-cons :
    (r : IconRow) (rows : List IconRow) (db : Db)
    → inserted rows (record db {
      icons = db.icons ++ r ∷ [];
      icons_fts = db.icons_fts ++ map fts_of (keep (λ q. not q.hidden) (r ∷ []));
    })
      ≡ inserted (r ∷ rows) db
unfolding inserted
inserted-cons r rows db =
    let icons : (db.icons ++ r ∷ []) ++ rows ≡ db.icons ++ r ∷ rows =
      append_assoc db.icons (r ∷ []) rows in
    let fts : (db.icons_fts ++ map fts_of (keep (λ q. not q.hidden) (r ∷ [])))
          ++ map fts_of (keep (λ q. not q.hidden) rows)
        ≡ db.icons_fts ++ map fts_of (keep (λ q. not q.hidden) (r ∷ rows)) =
      append_assoc db.icons_fts _ _ ∙ ap (λ t. db.icons_fts ++ t) (sym (map-keep-cons r rows)) in
    λ i. record db { icons = icons i; icons_fts = fts i }

insert_icon-some :
    (r : IconRow) (db d : Db)
    → insert_icon r db ≡ some d
    → d ≡ record db { icons = db.icons ++ r ∷ [] }
unfolding insert_icon
insert_icon-some r db d h = ground arith

Ends-insert_rows :
    (rows : List IconRow) (db : Db) (fs : Faults)
    → Ends tt (inserted rows db) (insert_rows rows db fs)
unfolding insert_rows
Ends-insert_rows [] db fs = (
  refl,
  unfold inserted in
      λ i. record db {
        icons = sym (append-nil db.icons) i;
        icons_fts = sym (append-nil db.icons_fts) i;
      },
)
Ends-insert_rows (r ∷ rows) db fs =
    let one = record db { icons = db.icons ++ r ∷ [] } in
    Ends-continue tt tt one _ _ _ (Ends-exec _ (insert_icon r) db one fs (insert_icon-some r db))
      λ gs.
        Ends-continue tt tt _ _ _ _ (Ends-insert_fts r one gs)
          λ hs. rw (← inserted-cons r rows db) (Ends-insert_rows rows _ hs)

module _ (now : ℕ) (prefix : Str) (rows : List IconRow) (lm : ℕ) where
  Ends-replace_body :
      (db : Db) (fs : Faults)
      → Ends tt (replaced now prefix rows lm db) (replace_body now prefix rows lm db fs)
  unfolding replace_body replaced
  Ends-replace_body db fs =
      Ends-continue (names_of prefix db) tt db _ _ _ (Ends-names_in_tx prefix db fs) λ f0.
        Ends-continue tt tt _ _ _ _ (Ends-snapshot now prefix lm (names_of prefix db) db f0) λ f1.
          Ends-continue tt tt _ _ _ _ (Ends-update _ (delete_icons prefix) _ f1) λ f2.
            Ends-continue tt tt _ _ _ _ (Ends-update _ (delete_fts prefix) _ f2) λ f3.
              Ends-continue tt tt _ _ _ _ (Ends-call _ (λ _. tt) _ f3) λ f4.
                Ends-continue tt tt _ _ _ _ (Ends-call _ (λ _. tt) _ f4) λ f5.
                  Ends-continue tt tt _ _ _ _ (Ends-insert_rows rows _ f5)
                    λ f6. Ends-update _ (record_last_modified lm prefix) _ f6

-- The whole change, or an error and no change.
abbrev pub AllOrNothing : Db → Db → Ran → Type 0
AllOrNothing before target r =
    ((r.error ≡ none) × (r.db ≡ target)) ⊎ ((e : Error) × (r.error ≡ some e) × (r.db ≡ before))

settle-AllOrNothing :
    (before target : Db) (o : Outcome (Unit {0}))
    → Ends tt target o
    → AllOrNothing before target (settle before o)
settle-AllOrNothing before target (done a d fs) h = inl (refl, h.1)
settle-AllOrNothing before target (failed e fs) h = inr (e, refl, refl)

pub transaction-AllOrNothing :
    (b c : Error) (body : Tx (Unit {0})) (db target : Db) (fs : Faults)
    → ((gs : Faults) → Ends tt target (body db gs))
    → AllOrNothing db target (transaction b c body db fs)
unfolding transaction
transaction-AllOrNothing b c body db target fs h = settle-AllOrNothing db target _ (
    Ends-continue tt tt db target _ _ (Ends-call b (λ _. tt) db fs)
      λ gs. Ends-continue tt tt target target _ _ (h gs) λ hs. Ends-call c (λ _. tt) target hs)

-- Whichever of its calls fail, replaceIcons either reports no error and leaves the tables
-- `replaced`, or reports an error and leaves the tables as they were.
pub replace_icons_atomic :
    (now : ℕ) (prefix : Str) (rows : List IconRow) (lm : ℕ) (db : Db) (fs : Faults)
    → AllOrNothing db (replaced now prefix rows lm db) (replace_icons now prefix rows lm db fs)
unfolding replace_icons
replace_icons_atomic now prefix rows lm db fs =
    transaction-AllOrNothing _ _ _ db _ fs (Ends-replace_body now prefix rows lm db)
