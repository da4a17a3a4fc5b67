-- ===== src/Iconindex/Collection/Distinct.antt =====
-- The rows under construction have distinct names and the set's prefix.
use iconify_cli.Base.{
  ℕ, zero, suc, ◌≡◌, refl, sym, ◌∙◌, Bool, true, false, none, List, [], ◌∷◌, ◌++◌, arith, All,
  All-append, Bool-cases, Option-cases, inl, inr,
}
use iconify_cli.Base.Strings.{Str, str_eq_iff, is_empty}
use iconify_cli.Base.Dict.{Dict, lookup}
use iconify_cli.Iconindex.Collection.{
  IconRow, CollectionPayload, Adding, modify, enrich, add, add_names, add_categories, add_aliases,
  no_rows, flatten,
}
use iconify_cli.Iconindex.Collection.Index.{
  IsIndexed, position, position-modify, position-snoc, added, add-IsIndexed,
}

-- No two rows share a name.
abbrev pub Distinct : List IconRow → Type 0
Distinct [] = Unit
Distinct (r ∷ rows) = (position r.name rows ≡ none) × Distinct rows

abbrev pub HasPrefix : Str → IconRow → Type 0
HasPrefix prefix r = r.prefix ≡ prefix

-- What holds of the variables of ParseCollection throughout.
pub record IsBuilt (prefix : Str) (st : Adding) : Type 0 where
  pub indexed : IsIndexed st
  pub distinct : Distinct st.rows
  pub prefixed : All (HasPrefix prefix) st.rows

Distinct-snoc :
    (r : IconRow) (rows : List IconRow)
    → Distinct rows
    → position r.name rows ≡ none
    → Distinct (rows ++ r ∷ [])
unfolding position
Distinct-snoc r [] d h = (refl, tt)
Distinct-snoc r (q ∷ rows) d h = (
  ground (arith, position-snoc q.name r rows, str_eq_iff r.name q.name, str_eq_iff q.name r.name),
  Distinct-snoc r rows d.1 (ground arith),
)

Distinct-modify :
    (i : ℕ) (c : Str) (h : Bool) (rows : List IconRow)
    → Distinct rows
    → Distinct (modify i (enrich c h) rows)
unfolding modify
Distinct-modify i c h [] d = tt
Distinct-modify zero c h (r ∷ rows) d = (unfold enrich in ground arith, d.1)
Distinct-modify (suc i) c h (r ∷ rows) d =
    (position-modify r.name i c h rows ∙ d.0, Distinct-modify i c h rows d.1)

modify-HasPrefix :
    (prefix : Str) (i : ℕ) (c : Str) (h : Bool) (rows : List IconRow)
    → All (HasPrefix prefix) rows
    → All (HasPrefix prefix) (modify i (enrich c h) rows)
unfolding modify
modify-HasPrefix prefix i c h [] d = tt
modify-HasPrefix prefix zero c h (r ∷ rows) d = (unfold enrich in ground arith, d.1)
modify-HasPrefix prefix (suc i) c h (r ∷ rows) d = (d.0, modify-HasPrefix prefix i c h rows d.1)

module _ (prefix : Str) where
  add-IsBuilt :
      (n c : Str) (h : Bool) (a : Str) (st : Adding)
      → IsBuilt prefix st
      → IsBuilt prefix (add prefix n c h a st)
  add-IsBuilt n c h a st v = record {
    indexed = add-IsIndexed prefix n c h a st v.indexed;
    distinct =
        unfold add added in
        elim (Bool-cases (is_empty n)) [
          | inl e ↦ rw e v.distinct
          | inr e ↦ rw e (elim (Option-cases (lookup n st.seen)) [
            | inl new ↦ rw new (
                Distinct-snoc (added prefix n c h a none) st.rows v.distinct
                  (sym (v.indexed.seen_iff n) ∙ new))
            | inr (i, old) ↦ rw old (Distinct-modify i c h st.rows v.distinct)
          ])
        ];
    prefixed =
        unfold add added in
        elim (Bool-cases (is_empty n)) [
          | inl e ↦ rw e v.prefixed
          | inr e ↦ rw e (elim (Option-cases (lookup n st.seen)) [
            | inl new ↦ rw new (All-append _ st.rows _ v.prefixed (refl, tt))
            | inr (i, old) ↦ rw old (modify-HasPrefix prefix i c h st.rows v.prefixed)
          ])
        ];
  }

  add_names-IsBuilt :
      (c : Str) (h : Bool) (names : List Str) (st : Adding)
      → IsBuilt prefix st
      → IsBuilt prefix (add_names prefix c h names st)
  unfolding add_names
  add_names-IsBuilt c h [] st v = v
  add_names-IsBuilt c h (n ∷ names) st v =
      add_names-IsBuilt c h names (add prefix n c h [] st) (add-IsBuilt n c h [] st v)

  add_categories-IsBuilt :
      (cats : Dict (List Str)) (st : Adding)
      → IsBuilt prefix st
      → IsBuilt prefix (add_categories prefix cats st)
  unfolding add_categories
  add_categories-IsBuilt [] st v = v
  add_categories-IsBuilt ((c, names) ∷ rest) st v =
      add_categories-IsBuilt rest (add_names prefix c false names st)
        (add_names-IsBuilt c false names st v)

  add_aliases-IsBuilt :
      (aliases : Dict Str) (st : Adding)
      → IsBuilt prefix st
      → IsBuilt prefix (add_aliases prefix aliases st)
  unfolding add_aliases
  add_aliases-IsBuilt [] st v = v
  add_aliases-IsBuilt ((n, a) ∷ rest) st v =
      add_aliases-IsBuilt rest (add prefix n [] false a st) (add-IsBuilt n [] false a st v)

  no_rows-IsBuilt : IsBuilt prefix no_rows
  unfolding no_rows lookup position
  no_rows-IsBuilt = record {
    indexed = record { seen_iff = λ n. refl };
    distinct = tt;
    prefixed = tt;
  }

  pub flatten-IsBuilt : (p : CollectionPayload) → IsBuilt prefix (flatten prefix p)
  unfolding flatten
  flatten-IsBuilt p = add_aliases-IsBuilt p.aliases _ (
      add_names-IsBuilt [] true p.hidden _ (
        add_names-IsBuilt [] false p.uncategorized _
          (add_categories-IsBuilt p.categories no_rows no_rows-IsBuilt)))
