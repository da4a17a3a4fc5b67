-- ===== src/Iconindex/Replace/Frame.antt =====
-- What a replacement leaves alone, and what it makes of its own set.
use mathlib.Core.List.{append-nil}
use iconify_cli.Base.{
  ℕ, ◌≡◌, refl, Bool, true, false, not, ◌&&◌, ◌||◌, Option, none, some, List, [], ◌∷◌, ◌++◌, arith,
  keep, map, if◌then◌else◌, All, inl, inr,
}
use iconify_cli.Base.Strings.{Str, str_eq, str_eq_iff}
use iconify_cli.Iconindex.Collection.{IconRow}
use iconify_cli.Iconindex.Collection.Distinct.{HasPrefix}
use iconify_cli.Iconindex.Db.{SetRow, Db, Faults}
use iconify_cli.Iconindex.Replace.{
  set_last_modified, save_snapshot, delete_icons, delete_fts, record_last_modified,
}
use iconify_cli.Iconindex.Replace.Effect.{snapshotted, inserted, replaced}
use iconify_cli.Iconindex.Replace.{replace_icons}
use iconify_cli.Iconindex.Replace.Atomic.{replace_icons_atomic}
use iconify_cli.Iconindex.Replace.Mirror.{icons-replaced}

-- The icons of a set.
unfoldable pub icons_of : Str → Db → List IconRow
icons_of p db = keep (λ r. str_eq r.prefix p) db.icons

keep-append :
    (f : IconRow → Bool) (xs ys : List IconRow) → keep f (xs ++ ys) ≡ keep f xs ++ keep f ys
keep-append f [] ys = refl
keep-append f (x ∷ xs) ys = ground (arith, keep-append f xs ys)

keep-delete :
    (p q : Str) (icons : List IconRow)
    → keep (λ r. str_eq r.prefix q) (keep (λ r. not (str_eq r.prefix p)) icons)
      ≡ (if str_eq q p then [] else keep (λ r. str_eq r.prefix q) icons)
keep-delete p q [] = ground arith
keep-delete p q (r ∷ icons) =
    ground
      (arith, keep-delete p q icons, str_eq_iff r.prefix p, str_eq_iff r.prefix q, str_eq_iff q p)

keep-HasPrefix :
    (p q : Str) (rows : List IconRow)
    → All (HasPrefix p) rows
    → keep (λ r. str_eq r.prefix q) rows ≡ (if str_eq q p then rows else [])
keep-HasPrefix p q [] h = ground arith
keep-HasPrefix p q (r ∷ rows) h =
    ground (arith, keep-HasPrefix p q rows h.1, h.0, str_eq_iff p q, str_eq_iff q p)

frame :
    (b : Bool) (xs ys : List IconRow)
    → (if b then [] else ys) ++ (if b then xs else []) ≡ (if b then xs else ys)
frame true xs ys = refl
frame false xs ys = append-nil ys

-- The recorded timestamp of a set, as storedLastModified reads it: a later row overwrites.
unfoldable pub stamp : Str → List SetRow → Option ℕ
stamp p [] = none
stamp p (r ∷ rows) = elim (stamp p rows) [
  | some lm ↦ some lm
  | none ↦ if str_eq r.info.prefix p then some r.last_modified else none
]

-- The set has a row.
unfoldable pub has_set : Str → List SetRow → Bool
has_set p [] = false
has_set p (r ∷ rows) = str_eq r.info.prefix p || has_set p rows

pub stamp-none : (p : Str) (rows : List SetRow) → has_set p rows ≡ false → stamp p rows ≡ none
unfolding stamp has_set
stamp-none p [] h = refl
stamp-none p (r ∷ rows) h = ground (arith, stamp-none p rows)

stamp-map :
    (lm : ℕ) (p q : Str) (rows : List SetRow)
    → stamp q (map (set_last_modified lm p) rows)
      ≡ (if str_eq q p && has_set p rows then some lm else stamp q rows)
unfolding stamp set_last_modified has_set
stamp-map lm p q [] = ground arith
stamp-map lm p q (r ∷ rows) = ground (
  arith,
  stamp-map lm p q rows,
  stamp-none q rows,
  str_eq_iff r.info.prefix p,
  str_eq_iff r.info.prefix q,
  str_eq_iff q p,
)

module _ (now : ℕ) (prefix : Str) (rows : List IconRow) (lm : ℕ) where
  pub sets-replaced :
      (db : Db)
      → (replaced now prefix rows lm db).icon_sets ≡ map (set_last_modified lm prefix) db.icon_sets
  unfolding replaced inserted delete_fts delete_icons record_last_modified snapshotted save_snapshot
  sets-replaced db = ground arith

  -- After a replacement the set has the new rows, and every other set the rows it had.
  pub icons_of-replaced :
      (db : Db) (q : Str)
      → All (HasPrefix prefix) rows
      → icons_of q (replaced now prefix rows lm db)
        ≡ (if str_eq q prefix then rows else icons_of q db)
  unfolding icons_of
  icons_of-replaced db q h =
      rw
        (
          icons-replaced now prefix rows lm db,
          keep-append (λ r. str_eq r.prefix q) (keep (λ r. not (str_eq r.prefix prefix)) db.icons)
              rows,
          keep-delete prefix q db.icons,
          keep-HasPrefix prefix q rows h,
        )
        (frame (str_eq q prefix) rows (keep (λ r. str_eq r.prefix q) db.icons))

  -- A replacement records the timestamp of its set, if the set has a row, and of no other.
  pub stamp-replaced :
      (db : Db) (q : Str)
      → stamp q (replaced now prefix rows lm db).icon_sets
        ≡ (if str_eq q prefix && has_set prefix db.icon_sets then some lm else stamp q db.icon_sets)
  stamp-replaced db q = rw (sets-replaced db) (stamp-map lm prefix q db.icon_sets)

  -- When replaceIcons reports no error, its set has the given rows and, if it has a row of its own,
  -- the given timestamp; every other set keeps its rows and its timestamp. The rows must have the
  -- set's prefix.
  pub replace_icons_lem :
      (db : Db) (fs : Faults) (q : Str)
      → All (HasPrefix prefix) rows
      → (replace_icons now prefix rows lm db fs).error ≡ none
      → (icons_of q (replace_icons now prefix rows lm db fs).db
          ≡ (if str_eq q prefix then rows else icons_of q db))
        × (stamp q (replace_icons now prefix rows lm db fs).db.icon_sets ≡ (
            if str_eq q prefix && has_set prefix db.icon_sets
            then some lm
            else stamp q db.icon_sets))
  replace_icons_lem db fs q h ok = elim (replace_icons_atomic now prefix rows lm db fs) [
    | inl (_, e) ↦ rw e (icons_of-replaced db q h, stamp-replaced db q)
    | inr (_, e, _) ↦ ground (arith, ok, e)
  ]
