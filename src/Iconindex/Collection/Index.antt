-- ===== src/Iconindex/Collection/Index.antt =====
-- What `add` does to the rows, through the name of a row: the map `seen` always agrees with the
-- rows, so an icon is found by its name, and `add` changes the row of that name alone.
use iconify_cli.Base.{
  ℕ, zero, suc, ◌≡◌, refl, sym, ◌∙◌, Bool, not, ◌&&◌, Option, none, some, List, [], ◌∷◌, ◌++◌,
  arith, if◌then◌else◌, length, Bool-cases, Option-cases, inl, inr,
}
use iconify_cli.Base.Strings.{Str, str_eq, str_eq_iff, is_empty}
use iconify_cli.Base.Dict.{lookup, lookup-put}
use iconify_cli.Iconindex.Collection.{IconRow, Adding, modify, enrich, add}

-- The row of a name.
unfoldable pub find : Str → List IconRow → Option IconRow
find n [] = none
find n (r ∷ rows) = if str_eq r.name n then some r else find n rows

-- The index of a name.
unfoldable pub position : Str → List IconRow → Option ℕ
position n [] = none
position n (r ∷ rows) =
    if str_eq r.name n
    then some 0
    else elim (position n rows) [ none ↦ none | some i ↦ some (suc i) ]

-- `seen` holds the index of each name, and no other.
pub record IsIndexed (st : Adding) : Type 0 where
  pub seen_iff : (n : Str) → lookup n st.seen ≡ position n st.rows

pub position-modify :
    (n : Str) (i : ℕ) (c : Str) (h : Bool) (rows : List IconRow)
    → position n (modify i (enrich c h) rows) ≡ position n rows
unfolding position modify enrich
position-modify n i c h [] = refl
position-modify n zero c h (r ∷ rows) = ground arith
position-modify n (suc i) c h (r ∷ rows) = ground (arith, position-modify n i c h rows)

pub position-snoc :
    (n : Str) (r : IconRow) (rows : List IconRow)
    → position r.name rows ≡ none
    → position n (rows ++ r ∷ [])
      ≡ (if str_eq r.name n then some (length rows) else position n rows)
unfolding position
position-snoc n r [] h = ground arith
position-snoc n r (q ∷ rows) h = ground (
  arith,
  position-snoc n r rows,
  str_eq_iff q.name r.name,
  str_eq_iff r.name n,
  str_eq_iff q.name n,
)

find-snoc :
    (n : Str) (r : IconRow) (rows : List IconRow)
    → position r.name rows ≡ none
    → find n (rows ++ r ∷ []) ≡ (if str_eq r.name n then some r else find n rows)
unfolding find position
find-snoc n r [] h = ground arith
find-snoc n r (q ∷ rows) h =
    ground (
      arith,
      find-snoc n r rows,
      str_eq_iff q.name r.name,
      str_eq_iff r.name n,
      str_eq_iff q.name n,
    )

abbrev pub map_option : (IconRow → IconRow) → Option IconRow → Option IconRow
map_option f none = none
map_option f (some r) = some (f r)

find-modify :
    (n k : Str) (i : ℕ) (c : Str) (h : Bool) (rows : List IconRow)
    → position k rows ≡ some i
    → find n (modify i (enrich c h) rows)
      ≡ (if str_eq k n then map_option (enrich c h) (find n rows) else find n rows)
unfolding find position modify enrich
find-modify n k i c h [] p = ground arith
find-modify n k zero c h (r ∷ rows) p =
    ground (arith, str_eq_iff r.name k, str_eq_iff k n, str_eq_iff r.name n)
find-modify n k (suc i) c h (r ∷ rows) p =
    ground
      (arith, find-modify n k i c h rows, str_eq_iff r.name k, str_eq_iff k n, str_eq_iff r.name n)

find-none : (n : Str) (rows : List IconRow) → position n rows ≡ none → find n rows ≡ none
unfolding find position
find-none n [] h = refl
find-none n (r ∷ rows) h = ground (arith, find-none n rows)

find-some :
    (n : Str) (i : ℕ) (rows : List IconRow)
    → position n rows ≡ some i
    → (r : IconRow) × (find n rows ≡ some r)
unfolding find position
find-some n i [] h = ground arith
find-some n i (r ∷ rows) h = elim (Bool-cases (str_eq r.name n)) [
  | inl e ↦ (r, rw e refl)
  | inr e ↦ elim (Option-cases (position n rows)) [
    | inl q ↦ ground (arith, q, e)
    | inr (j, q) ↦ rw e (find-some n j rows q)
  ]
]

-- The row of a name after `add`: a known row is enriched, a new one has the given fields.
unfoldable pub added : Str → Str → Str → Bool → Str → Option IconRow → IconRow
added prefix name category hidden alias_of none = record {
  prefix = prefix;
  name = name;
  category = category;
  hidden = hidden;
  alias_of = alias_of;
}
added prefix name category hidden alias_of (some r) = enrich category hidden r

module _ (prefix name category : Str) (hidden : Bool) (alias_of : Str) (st : Adding) where
  pub add-IsIndexed : IsIndexed st → IsIndexed (add prefix name category hidden alias_of st)
  unfolding add added
  add-IsIndexed v = record {
    seen_iff = λ n. elim (Option-cases (lookup name st.seen)) [
      | inl new ↦ rw new (
          ground (
            arith,
            v.seen_iff n,
            v.seen_iff name,
            lookup-put name n (length st.rows) st.seen,
            position-snoc n (added prefix name category hidden alias_of none) st.rows,
          ))
      | inr (i, old) ↦
          rw old (ground (arith, v.seen_iff n, position-modify n i category hidden st.rows))
    ];
  }

  pub find-add :
      IsIndexed st
      → (n : Str)
      → find n (add prefix name category hidden alias_of st).rows ≡ (
          if not (is_empty name) && str_eq name n
          then some (added prefix name category hidden alias_of (find n st.rows))
          else find n st.rows)
  unfolding add added
  find-add v n = elim (Option-cases (lookup name st.seen)) [
    | inl new ↦ rw new (
        ground (
          arith,
          v.seen_iff name,
          str_eq_iff name n,
          find-none name st.rows,
          find-snoc n (added prefix name category hidden alias_of none) st.rows,
        ))
    | inr (i, old) ↦
        let (r, e) = find-some name i st.rows (sym (v.seen_iff name) ∙ old) in
        rw old (
          ground (
            arith,
            e,
            str_eq_iff name n,
            v.seen_iff name,
            find-modify n name i category hidden st.rows,
          ))
  ]
