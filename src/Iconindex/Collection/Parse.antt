-- ===== src/Iconindex/Collection/Parse.antt =====
-- The result of ParseCollection: sorted by name without repetition, and row by row what the
-- payload says of the name.
use iconify_cli.Base.{
  ◌≡◌, refl, ◌∙◌, true, false, none, some, List, [], ◌∷◌, arith, if◌then◌else◌, All, Bool-cases,
  inl, inr,
}
use iconify_cli.Base.Strings.{
  Str, str_eq, str_eq_iff, str_ltb, str_ltb_total, str_ltb_asym, str_ltb_neg_trans,
}
use iconify_cli.Base.Sort.{IsStrict, insert, sort, IsSorted, sort-IsSorted, sort-All, IsAscending}
use iconify_cli.Iconindex.Collection.{
  IconRow, CollectionPayload, flatten, row_ltb, parse_collection,
}
use iconify_cli.Iconindex.Collection.Index.{find, position}
use iconify_cli.Iconindex.Collection.Spec.{described, find-flatten}
use iconify_cli.Iconindex.Collection.Distinct.{Distinct, HasPrefix, flatten-IsBuilt}

row_ltb-IsStrict : IsStrict row_ltb
unfolding row_ltb
row_ltb-IsStrict = record {
  asym = λ a b. str_ltb_asym a.name b.name;
  neg_trans = λ a b c. str_ltb_neg_trans a.name b.name c.name;
}

-- The names of the rows.
unfoldable pub names : List IconRow → List Str
names [] = []
names (r ∷ rows) = r.name ∷ names rows

position-insert-none :
    (n : Str) (r : IconRow) (rows : List IconRow)
    → position n rows ≡ none
    → str_eq r.name n ≡ false
    → position n (insert row_ltb r rows) ≡ none
unfolding insert position
position-insert-none n r [] h e = ground arith
position-insert-none n r (q ∷ rows) h e = ground (arith, position-insert-none n r rows)

position-sort-none :
    (n : Str) (rows : List IconRow) → position n rows ≡ none → position n (sort row_ltb rows) ≡ none
unfolding sort position
position-sort-none n [] h = refl
position-sort-none n (r ∷ rows) h =
    position-insert-none n r (sort row_ltb rows) (position-sort-none n rows (ground arith))
      (ground arith)

Distinct-insert :
    (r : IconRow) (rows : List IconRow)
    → Distinct rows
    → position r.name rows ≡ none
    → Distinct (insert row_ltb r rows)
unfolding insert
Distinct-insert r [] d h = (h, tt)
Distinct-insert r (q ∷ rows) d h = elim (Bool-cases (row_ltb r q)) [
  | inl e ↦ rw e (h, d)
  | inr e ↦ rw e (
    position-insert-none q.name r rows d.0
        (unfold position in ground (arith, str_eq_iff q.name r.name, str_eq_iff r.name q.name)),
    Distinct-insert r rows d.1 (unfold position in ground arith),
  )
]

pub Distinct-sort : (rows : List IconRow) → Distinct rows → Distinct (sort row_ltb rows)
unfolding sort
Distinct-sort [] d = tt
Distinct-sort (r ∷ rows) d =
    Distinct-insert r (sort row_ltb rows) (Distinct-sort rows d.1)
      (position-sort-none r.name rows d.0)

find-insert :
    (n : Str) (r : IconRow) (rows : List IconRow)
    → position r.name rows ≡ none
    → find n (insert row_ltb r rows) ≡ (if str_eq r.name n then some r else find n rows)
unfolding insert find position
find-insert n r [] h = ground arith
find-insert n r (q ∷ rows) h = ground (
  arith,
  find-insert n r rows,
  str_eq_iff q.name n,
  str_eq_iff r.name n,
  str_eq_iff q.name r.name,
)

find-sort :
    (n : Str) (rows : List IconRow) → Distinct rows → find n (sort row_ltb rows) ≡ find n rows
unfolding sort find
find-sort n [] d = refl
find-sort n (r ∷ rows) d = ground (
  arith,
  find-sort n rows d.1,
  find-insert n r (sort row_ltb rows) (position-sort-none r.name rows d.0),
)

above :
    (r : IconRow) (rows : List IconRow)
    → All (λ q. row_ltb q r ≡ false) rows
    → position r.name rows ≡ none
    → All (λ m. str_ltb r.name m ≡ true) (names rows)
unfolding names position row_ltb
above r [] h p = tt
above r (q ∷ rows) h p = (
  ground (arith, str_ltb_total r.name q.name, str_eq_iff q.name r.name),
  above r rows h.1 (ground arith),
)

names-IsAscending :
    (rows : List IconRow) → IsSorted row_ltb rows → Distinct rows → IsAscending (names rows)
unfolding names
names-IsAscending [] s d = tt
names-IsAscending (r ∷ rows) s d = (above r rows s.0 d.0, names-IsAscending rows s.1 d.1)

module _ (prefix : Str) (p : CollectionPayload) where
  -- The rows come in strictly ascending order of their names, so no name is there twice.
  pub parse_collection-IsAscending : IsAscending (names (parse_collection prefix p))
  unfolding parse_collection
  parse_collection-IsAscending =
      let built = flatten-IsBuilt prefix p in
      names-IsAscending _ (sort-IsSorted row_ltb row_ltb-IsStrict (flatten prefix p).rows)
        (Distinct-sort _ built.distinct)

  -- Looked up by name, the rows are what the payload describes: a name has a row exactly if it is
  -- not empty and is listed or an alias; the row has the set's prefix, the first non-empty category
  -- that lists the name, the hidden flag exactly if the name is in the hidden list, and the parent
  -- of the alias exactly if the name is listed nowhere else.
  pub find-parse_collection : (n : Str) → find n (parse_collection prefix p) ≡ described prefix p n
  unfolding parse_collection
  find-parse_collection n =
      find-sort n (flatten prefix p).rows (flatten-IsBuilt prefix p).distinct
      ∙ find-flatten prefix p n

  pub parse_collection-Distinct : Distinct (parse_collection prefix p)
  unfolding parse_collection
  parse_collection-Distinct = Distinct-sort _ (flatten-IsBuilt prefix p).distinct

  pub parse_collection-HasPrefix : All (HasPrefix prefix) (parse_collection prefix p)
  unfolding parse_collection
  parse_collection-HasPrefix = sort-All row_ltb _ _ (flatten-IsBuilt prefix p).prefixed
