-- ===== src/Iconindex/Collection/Spec.antt =====
-- What ParseCollection returns, described by the payload alone.
use iconify_cli.Base.{
  ◌≡◌, refl, Bool, true, false, not, ◌&&◌, ◌||◌, Option, none, some, List, [], ◌∷◌, arith,
  if◌then◌else◌,
}
use iconify_cli.Base.Strings.{Str, str_eq_iff, is_empty, has}
use iconify_cli.Base.Dict.{Dict, lookup, keys}
use iconify_cli.Iconindex.Collection.{
  IconRow, CollectionPayload, Adding, enrich, add, add_names, add_categories, add_aliases, no_rows,
  flatten,
}
use iconify_cli.Iconindex.Collection.Index.{
  IsIndexed, find, position, added, add-IsIndexed, find-add,
}

-- The first non-empty category, in the order of the iteration, that lists the name.
unfoldable pub first_category : Str → Dict (List Str) → Str
first_category n [] = []
first_category n ((c, names) ∷ rest) =
    if has n names && not (is_empty c) then c else first_category n rest

-- Some category lists the name.
unfoldable pub in_categories : Str → Dict (List Str) → Bool
in_categories n [] = false
in_categories n ((c, names) ∷ rest) = has n names || in_categories n rest

-- The parent of an alias: the first entry's, should a list repeat a key, which a map does not.
unfoldable pub parent_of : Str → Dict Str → Str
parent_of n aliases = elim (lookup n aliases) [ none ↦ [] | some a ↦ a ]

-- The name is listed as an icon of its own, not only as an alias.
unfoldable pub is_listed : Str → CollectionPayload → Bool
is_listed n p = in_categories n p.categories || has n p.uncategorized || has n p.hidden

unfoldable pub described : Str → CollectionPayload → Str → Option IconRow
unfolding is_listed
described prefix p n =
    if not (is_empty n) && (is_listed n p || has n (keys p.aliases))
    then some (record {
      prefix = prefix;
      name = n;
      category = first_category n p.categories;
      hidden = has n p.hidden;
      alias_of = if is_listed n p then [] else parent_of n p.aliases;
    })
    else none

-- Two additions of one name come to one.
added-added :
    (prefix n c d : Str) (h k : Bool) (a b : Str) (o : Option IconRow)
    → added prefix n d k b (some (added prefix n c h a o))
      ≡ added prefix n (if is_empty c then d else c) (h || k) a o
unfolding added enrich
added-added prefix n [] d h k a b none = ground arith
added-added prefix n (x ∷ c) d h k a b none = ground arith
added-added prefix n c d h k a b (some r) = ground arith

no_category :
    (n : Str) (cats : Dict (List Str)) → in_categories n cats ≡ false → first_category n cats ≡ []
unfolding in_categories first_category
no_category n [] h = refl
no_category n ((c, names) ∷ rest) h = ground (arith, no_category n rest)

module _ (prefix : Str) where
  add_names-IsIndexed :
      (c : Str) (h : Bool) (names : List Str) (st : Adding)
      → IsIndexed st
      → IsIndexed (add_names prefix c h names st)
  unfolding add_names
  add_names-IsIndexed c h [] st v = v
  add_names-IsIndexed c h (n ∷ names) st v =
      add_names-IsIndexed c h names (add prefix n c h [] st) (add-IsIndexed prefix n c h [] st v)

  find-add_names :
      (c : Str) (h : Bool) (names : List Str) (st : Adding) (n : Str)
      → IsIndexed st
      → find n (add_names prefix c h names st).rows ≡ (
          if not (is_empty n) && has n names
          then some (added prefix n c h [] (find n st.rows))
          else find n st.rows)
  unfolding add_names has
  find-add_names c h [] st n v = ground arith
  find-add_names c h (m ∷ names) st n v =
      let st' = add prefix m c h [] st in
      ground (
        arith,
        find-add_names c h names st' n (add-IsIndexed prefix m c h [] st v),
        find-add prefix m c h [] st v n,
        str_eq_iff m n,
        str_eq_iff n m,
        added-added prefix n c c h h [] [] (find n st.rows),
      )

  add_categories-IsIndexed :
      (cats : Dict (List Str)) (st : Adding)
      → IsIndexed st
      → IsIndexed (add_categories prefix cats st)
  unfolding add_categories
  add_categories-IsIndexed [] st v = v
  add_categories-IsIndexed ((c, names) ∷ rest) st v =
      add_categories-IsIndexed rest (add_names prefix c false names st)
        (add_names-IsIndexed c false names st v)

  find-add_categories :
      (cats : Dict (List Str)) (st : Adding) (n : Str)
      → IsIndexed st
      → find n (add_categories prefix cats st).rows ≡ (
          if not (is_empty n) && in_categories n cats
          then some (added prefix n (first_category n cats) false [] (find n st.rows))
          else find n st.rows)
  unfolding add_categories in_categories first_category
  find-add_categories [] st n v = ground arith
  find-add_categories ((c, names) ∷ rest) st n v =
      let st' = add_names prefix c false names st in
      ground (
        arith,
        find-add_categories rest st' n (add_names-IsIndexed c false names st v),
        find-add_names c false names st n v,
        added-added prefix n c (first_category n rest) false false [] [] (find n st.rows),
        no_category n rest,
      )

  find-add_aliases :
      (aliases : Dict Str) (st : Adding) (n : Str)
      → IsIndexed st
      → find n (add_aliases prefix aliases st).rows ≡ (
          if not (is_empty n) && has n (keys aliases)
          then some (added prefix n [] false (parent_of n aliases) (find n st.rows))
          else find n st.rows)
  unfolding add_aliases has keys parent_of lookup
  find-add_aliases [] st n v = ground arith
  find-add_aliases ((m, a) ∷ rest) st n v =
      let st' = add prefix m [] false a st in
      ground (
        arith,
        find-add_aliases rest st' n (add-IsIndexed prefix m [] false a st v),
        find-add prefix m [] false a st v n,
        str_eq_iff m n,
        str_eq_iff n m,
        added-added prefix n [] [] false false a (parent_of n rest) (find n st.rows),
      )

  no_rows-IsIndexed : IsIndexed no_rows
  unfolding no_rows lookup position
  no_rows-IsIndexed = record { seen_iff = λ n. refl }

  pub find-flatten :
      (p : CollectionPayload) (n : Str) → find n (flatten prefix p).rows ≡ described prefix p n
  unfolding flatten described added enrich find no_rows
  find-flatten p n =
      let a = add_categories prefix p.categories no_rows in
      let va = add_categories-IsIndexed p.categories no_rows no_rows-IsIndexed in
      let b = add_names prefix [] false p.uncategorized a in
      let vb = add_names-IsIndexed [] false p.uncategorized a va in
      let c = add_names prefix [] true p.hidden b in
      let vc = add_names-IsIndexed [] true p.hidden b vb in
      ground (
        arith,
        find-add_categories p.categories no_rows n no_rows-IsIndexed,
        find-add_names [] false p.uncategorized a n va,
        find-add_names [] true p.hidden b n vb,
        find-add_aliases p.aliases c n vc,
        no_category n p.categories,
      )
