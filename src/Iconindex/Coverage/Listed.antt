-- ===== src/Iconindex/Coverage/Listed.antt =====
-- Which sets have a row in an answer of CoverageBySet.
use mathlib.Core.List.{map}
use iconify_cli.Base.{
  ◌≡◌, refl, sym, ap, ◌∙◌, inl, inr, Bool, true, false, ◌||◌, Option, none, some, List, [], ◌∷◌,
  arith, Bool-cases, Option-cases,
}
use iconify_cli.Base.Strings.{Str, str_eq, str_eq_iff, str_eq_refl, has}
use iconify_cli.Base.Sort.{insert, sort}
use iconify_cli.Base.Dict.{Dict, lookup, put, keys}
use iconify_cli.Iconindex.Build.Loop.{has-append}
use iconify_cli.Iconindex.Coverage.{best_per_set, all_prefixes, hit, search_all, fts_query}
use iconify_cli.Iconindex.Coverage.Hits.{
  found, lookup-best_per_set, is_empty-fts_query, hit-search_all,
}

abbrev pub is_some : Option Str → Bool
is_some none = false
is_some (some n) = true

has-keys : (p : Str) (m : Dict Str) → has p (keys m) ≡ is_some (lookup p m)
unfolding has keys lookup
has-keys p [] = refl
has-keys p ((j, v) ∷ m) = ground (arith, has-keys p m, str_eq_iff p j, str_eq_iff j p)

all_prefixes-lookup :
    (k p : Str) (m : Dict Str) (hits : Dict (Dict Str))
    → lookup k hits ≡ some m
    → has p (keys m) ≡ true
    → has p (all_prefixes hits) ≡ true
unfolding lookup all_prefixes
all_prefixes-lookup k p m [] e h = absurd (ground arith)
all_prefixes-lookup k p m ((j, x) ∷ hits) e h =
    ground (arith, e, h, has-append p (keys x) (all_prefixes hits), all_prefixes-lookup k p m hits)

all_prefixes-put :
    (c p : Str) (m : Dict Str) (hits : Dict (Dict Str))
    → has p (all_prefixes (put c m hits)) ≡ true
    → (has p (keys m) || has p (all_prefixes hits)) ≡ true
unfolding put all_prefixes
all_prefixes-put c p m [] h = unfold has in ground (arith, h, has-append p (keys m) [])
all_prefixes-put c p m ((j, x) ∷ hits) h = ground (
  arith,
  h,
  has-append p (keys x) (all_prefixes hits),
  has-append p (keys m) (all_prefixes hits),
  has-append p (keys x) (all_prefixes (put c m hits)),
  all_prefixes-put c p m hits,
)

module _ (hits_of : Str → List (Str × Str)) where
  -- Some of the concepts is found in the set.
  unfoldable pub finds : List Str → Str → Bool
  finds [] p = false
  finds (c ∷ concepts) p = is_some (found hits_of c p) || finds concepts p

  finds-concept :
      (concepts : List Str) (p : Str)
      → finds concepts p ≡ true
      → (c : Str) × (has c concepts ≡ true) × (is_some (found hits_of c p) ≡ true)
  unfolding finds has
  finds-concept [] p h = absurd (cc)
  finds-concept (c ∷ concepts) p h = elim (Bool-cases (is_some (found hits_of c p))) [
    | inl e ↦ (c, ground (arith, str_eq_refl c), e)
    | inr e ↦
        let (d, m, f) = finds-concept concepts p (ground (arith, h, e)) in (d, ground (arith, m), f)
  ]

  hit→all_prefixes :
      (k p : Str) (hits : Dict (Dict Str))
      → is_some (hit hits k p) ≡ true
      → has p (all_prefixes hits) ≡ true
  unfolding hit
  hit→all_prefixes k p hits h = elim (Option-cases (lookup k hits)) [
    | inl e ↦ absurd (ground (arith, h, e))
    | inr (m, e) ↦ all_prefixes-lookup k p m hits e (ground (arith, h, e, has-keys p m))
  ]

  all_prefixes-search_all :
      (p : Str) (concepts : List Str) (hits : Dict (Dict Str))
      → has p (all_prefixes (search_all hits_of concepts hits)) ≡ true
      → (finds concepts p || has p (all_prefixes hits)) ≡ true
  unfolding search_all finds
  all_prefixes-search_all p [] hits h = h
  all_prefixes-search_all p (c ∷ concepts) hits h =
      let m = best_per_set (hits_of (fts_query c)) in
      ground (
        arith,
        h,
        is_empty-fts_query c,
        has-keys p m,
        lookup-best_per_set p (hits_of (fts_query c)),
        all_prefixes-put c p m hits,
        all_prefixes-search_all p concepts hits,
        all_prefixes-search_all p concepts (put c m hits),
      )

  -- The sets that stand in the table of hits are those in which some concept is found.
  pub has-all_prefixes :
      (p : Str) (concepts : List Str)
      → has p (all_prefixes (search_all hits_of concepts [])) ≡ finds concepts p
  has-all_prefixes p concepts =
      let hits = search_all hits_of concepts [] in
      let e : has p (all_prefixes []) ≡ false = unfold has all_prefixes in refl in
      elim (Bool-cases (finds concepts p)) [
        | inl f ↦
            let (k, m, i) = finds-concept concepts p f in
            let s = hit-search_all hits_of k p concepts [] in
            hit→all_prefixes k p hits (ground (arith, s, m, i)) ∙ sym f
        | inr f ↦ let b = all_prefixes-search_all p concepts [] in ground (arith, f, e, b)
      ]

module _ {A : Type 0} (less : A → A → Bool) (g : A → Str) (p : Str) where
  has-insert :
      (x : A) (xs : List A)
      → has p (map g (insert less x xs)) ≡ (str_eq p (g x) || has p (map g xs))
  unfolding insert has
  has-insert x [] = refl
  has-insert x (y ∷ xs) = ground (arith, has-insert x xs)

  -- Sorting keeps what the elements show.
  pub has-map-sort : (xs : List A) → has p (map g (sort less xs)) ≡ has p (map g xs)
  unfolding sort has
  has-map-sort [] = refl
  has-map-sort (x ∷ xs) =
      has-insert x (sort less xs) ∙ ap (λ b. str_eq p (g x) || b) (has-map-sort xs)
