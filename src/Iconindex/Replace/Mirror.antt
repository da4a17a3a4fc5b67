-- ===== src/Iconindex/Replace/Mirror.antt =====
-- The invariant of the mirror, and what a replacement changes.
use iconify_cli.Base.{
  ℕ, ◌≡◌, refl, sym, subst, ◌⊎◌, inl, inr, Bool, false, not, ◌||◌, none, List, [], ◌∷◌, ◌++◌, arith,
  keep, map, Bool-cases, All,
}
use iconify_cli.Base.Strings.{Str, str_eq, str_eq_iff}
use iconify_cli.Iconindex.Collection.{IconRow}
use iconify_cli.Iconindex.Collection.Index.{position}
use iconify_cli.Iconindex.Collection.Distinct.{Distinct, HasPrefix}
use iconify_cli.Iconindex.Db.{FtsRow, Db, Faults}
use iconify_cli.Iconindex.Replace.{
  has_icon, fts_of, save_snapshot, delete_icons, delete_fts, record_last_modified, replace_icons,
}
use iconify_cli.Iconindex.Replace.Effect.{snapshotted, inserted, replaced}
use iconify_cli.Iconindex.Replace.Atomic.{replace_icons_atomic}

-- No two rows share prefix and name.
abbrev pub UniqueKeys : List IconRow → Type 0
UniqueKeys [] = Unit
UniqueKeys (r ∷ rows) = (has_icon r.prefix r.name rows ≡ false) × UniqueKeys rows

-- The primary key holds, and the search rows are those of the visible icons.
pub record IsMirror (db : Db) : Type 0 where
  pub keys : UniqueKeys db.icons
  pub searchable : db.icons_fts ≡ map fts_of (keep (λ r. not r.hidden) db.icons)

has_icon-keep :
    (p n : Str) (f : IconRow → Bool) (rows : List IconRow)
    → has_icon p n rows ≡ false
    → has_icon p n (keep f rows) ≡ false
unfolding has_icon
has_icon-keep p n f [] h = refl
has_icon-keep p n f (r ∷ rows) h = ground (arith, has_icon-keep p n f rows)

UniqueKeys-keep :
    (f : IconRow → Bool) (rows : List IconRow) → UniqueKeys rows → UniqueKeys (keep f rows)
UniqueKeys-keep f [] u = tt
UniqueKeys-keep f (r ∷ rows) u = elim (Bool-cases (f r)) [
  | inl e ↦ rw e (has_icon-keep r.prefix r.name f rows u.0, UniqueKeys-keep f rows u.1)
  | inr e ↦ rw e (UniqueKeys-keep f rows u.1)
]

has_icon-append :
    (p n : Str) (xs ys : List IconRow)
    → has_icon p n (xs ++ ys) ≡ (has_icon p n xs || has_icon p n ys)
unfolding has_icon
has_icon-append p n [] ys = refl
has_icon-append p n (x ∷ xs) ys = ground (arith, has_icon-append p n xs ys)

-- A name that no row has.
absent :
    (p n q : Str) (rows : List IconRow)
    → All (HasPrefix q) rows
    → (str_eq q p ≡ false) ⊎ (position n rows ≡ none)
    → has_icon p n rows ≡ false
unfolding has_icon position
absent p n q [] h a = refl
absent p n q (r ∷ rows) h (inl e) = ground (arith, absent p n q rows h.1 (inl e), h.0)
absent p n q (r ∷ rows) h (inr e) = ground (arith, absent p n q rows h.1 (inr (ground arith)))

UniqueKeys_of-Distinct :
    (q : Str) (rows : List IconRow) → All (HasPrefix q) rows → Distinct rows → UniqueKeys rows
UniqueKeys_of-Distinct q [] h d = tt
UniqueKeys_of-Distinct q (r ∷ rows) h d =
    (absent r.prefix r.name q rows h.1 (inr d.0), UniqueKeys_of-Distinct q rows h.1 d.1)

UniqueKeys-replace :
    (q : Str) (rows icons : List IconRow)
    → All (HasPrefix q) rows
    → Distinct rows
    → UniqueKeys icons
    → UniqueKeys (keep (λ r. not (str_eq r.prefix q)) icons ++ rows)
UniqueKeys-replace q rows [] h d u = UniqueKeys_of-Distinct q rows h d
UniqueKeys-replace q rows (r ∷ icons) h d u =
    let rest = UniqueKeys-replace q rows icons h d u.1 in
    elim (Bool-cases (str_eq r.prefix q)) [
      | inl e ↦ rw e rest
      | inr e ↦ rw e (
        ground (
          arith,
          has_icon-append r.prefix r.name (keep (λ t. not (str_eq t.prefix q)) icons) rows,
          has_icon-keep r.prefix r.name (λ t. not (str_eq t.prefix q)) icons u.0,
          absent r.prefix r.name q rows h
              (inl (ground (arith, str_eq_iff q r.prefix, str_eq_iff r.prefix q))),
        ),
        rest,
      )
    ]

searchable-delete :
    (q : Str) (icons : List IconRow)
    → keep (λ (t : FtsRow). not (str_eq t.prefix q)) (map fts_of (keep (λ r. not r.hidden) icons))
      ≡ map fts_of (keep (λ r. not r.hidden) (keep (λ r. not (str_eq r.prefix q)) icons))
unfolding fts_of
searchable-delete q [] = refl
searchable-delete q (r ∷ icons) = ground (arith, searchable-delete q icons)

map-keep-append :
    (xs ys : List IconRow)
    → map fts_of (keep (λ r. not r.hidden) (xs ++ ys))
      ≡ map fts_of (keep (λ r. not r.hidden) xs) ++ map fts_of (keep (λ r. not r.hidden) ys)
map-keep-append [] ys = refl
map-keep-append (x ∷ xs) ys = ground (arith, map-keep-append xs ys)

module _ (now : ℕ) (prefix : Str) (rows : List IconRow) (lm : ℕ) where
  pub icons-replaced :
      (db : Db)
      → (replaced now prefix rows lm db).icons
        ≡ keep (λ r. not (str_eq r.prefix prefix)) db.icons ++ rows
  unfolding replaced inserted delete_fts delete_icons record_last_modified snapshotted save_snapshot
  icons-replaced db = ground arith

  fts-replaced :
      (db : Db)
      → (replaced now prefix rows lm db).icons_fts
        ≡ keep (λ (t : FtsRow). not (str_eq t.prefix prefix)) db.icons_fts
          ++ map fts_of (keep (λ r. not r.hidden) rows)
  unfolding replaced inserted delete_fts delete_icons record_last_modified snapshotted save_snapshot
  fts-replaced db = ground arith

  pub replaced-IsMirror :
      (db : Db)
      → All (HasPrefix prefix) rows
      → Distinct rows
      → IsMirror db
      → IsMirror (replaced now prefix rows lm db)
  replaced-IsMirror db h d m = record {
    keys = rw (icons-replaced db) (UniqueKeys-replace prefix rows db.icons h d m.keys);
    searchable =
        rw (fts-replaced db, icons-replaced db, m.searchable, searchable-delete prefix db.icons)
          (sym (map-keep-append (keep (λ r. not (str_eq r.prefix prefix)) db.icons) rows));
  }

  -- From a mirror, and with rows that are distinct and of the set's prefix, replaceIcons leaves a
  -- mirror, whichever of its calls fail.
  pub replace_icons-IsMirror :
      (db : Db) (fs : Faults)
      → All (HasPrefix prefix) rows
      → Distinct rows
      → IsMirror db
      → IsMirror (replace_icons now prefix rows lm db fs).db
  replace_icons-IsMirror db fs h d m = elim (replace_icons_atomic now prefix rows lm db fs) [
    | inl (_, e) ↦ subst IsMirror (sym e) (replaced-IsMirror db h d m)
    | inr (_, _, e) ↦ subst IsMirror (sym e) m
  ]
