-- ===== src/Iconindex/Coverage/Count.antt =====
-- What a row of CoverageBySet counts.
use mathlib.Core.List.{append-nil, append_assoc}
use iconify_cli.Base.{
  ℕ, ◌+◌, ◌≡◌, sym, subst, false, ◌==◌, List, [], ◌∷◌, ◌++◌, arith, length, length-append, All,
  none, some, Option, true, refl, ap, ◌∙◌, if◌then◌else◌, Option-cases, inl, inr,
}
use iconify_cli.Base.Strings.{Str, str_eq_iff, str_eq_refl, has}
use iconify_cli.Base.Sort.{sort_strings}
use iconify_cli.Base.Dict.{Dict, lookup, put, lookup-put}
use iconify_cli.Iconindex.Db.{SetInfo, Db}
use iconify_cli.Iconindex.Query.{dedup}
use iconify_cli.Iconindex.Coverage.{
  Coverage, hit, count_concept, count_concepts, cover, answer, all_prefixes, search_all,
  coverage_by_set,
}
use iconify_cli.Iconindex.Coverage.Hits.{found, hit-search_all}
use iconify_cli.Iconindex.Coverage.Rank.{answer-All, total-count_concepts}

-- The concepts that a function finds nothing for.
unfoldable pub without : (Str → Option Str) → List Str → List Str
without f [] = []
without f (c ∷ concepts) = elim (f c) [
  | none ↦ c ∷ without f concepts
  | some n ↦ without f concepts
]

without-ext :
    (f g : Str → Option Str) (concepts : List Str)
    → ((k : Str) → has k concepts ≡ true → f k ≡ g k)
    → without f concepts ≡ without g concepts
unfolding without has
without-ext f g [] h = refl
without-ext f g (c ∷ concepts) h =
    let rest = without-ext f g concepts (λ k m. h k (ground (arith, m))) in
    ground (arith, rest, h c, str_eq_refl c)

missing-count_concepts :
    (hits : Dict (Dict Str)) (concepts : List Str) (c : Coverage)
    → (count_concepts hits concepts c).missing
      ≡ c.missing ++ without (λ k. hit hits k c.set.prefix) concepts
unfolding count_concepts count_concept without
missing-count_concepts hits [] c = sym (append-nil c.missing)
missing-count_concepts hits (x ∷ concepts) c = ground (
  arith,
  missing-count_concepts hits concepts (count_concept hits x c),
  append_assoc c.missing (x ∷ []) (without (λ k. hit hits k c.set.prefix) concepts),
)

-- What stands in the table of matches: the hit, or what was there.
abbrev or_else : Option Str → Option Str → Option Str
or_else (some n) old = some n
or_else none old = old

matched-count_concepts :
    (k : Str) (hits : Dict (Dict Str)) (concepts : List Str) (c : Coverage)
    → lookup k (count_concepts hits concepts c).matched ≡ (
        if has k concepts
        then or_else (hit hits k c.set.prefix) (lookup k c.matched)
        else lookup k c.matched)
unfolding count_concepts count_concept has
matched-count_concepts k hits [] c = refl
matched-count_concepts k hits (x ∷ concepts) c = elim (Option-cases (hit hits x c.set.prefix)) [
  | inl e ↦ ground (
    arith,
    e,
    str_eq_iff k x,
    matched-count_concepts k hits concepts (record c { missing = c.missing ++ x ∷ [] }),
  )
  | inr (n, e) ↦ ground (
    arith,
    e,
    str_eq_iff k x,
    str_eq_iff x k,
    lookup-put x k n c.matched,
    matched-count_concepts k hits concepts
        (record c { matched = put x n c.matched; covered = c.covered + 1 }),
  )
]

covered-count_concepts :
    (hits : Dict (Dict Str)) (concepts : List Str) (c : Coverage)
    → (count_concepts hits concepts c).covered + length (count_concepts hits concepts c).missing
      ≡ c.covered + length c.missing + length concepts
unfolding count_concepts count_concept
covered-count_concepts hits [] c = omega arith
covered-count_concepts hits (x ∷ concepts) c = ground (
  arith,
  covered-count_concepts hits concepts (count_concept hits x c),
  length-append c.missing (x ∷ []),
)

pub set-cover :
    (hits : Dict (Dict Str)) (concepts : List Str) (m : SetInfo)
    → (cover hits concepts m).set.prefix ≡ m.prefix
unfolding cover
set-cover hits concepts m = ap (λ (s : SetInfo). s.prefix) (total-count_concepts hits concepts _).1

-- A row counts each concept once, as covered or as missing, where `best` gives the icon found for a
-- concept: it is the one in the table of matches, the missing concepts are those without one, in the
-- order asked, and the row is complete exactly if none is missing.
pub record CountsConcepts (best : Str → Option Str) (concepts : List Str) (c : Coverage)
    : Type 0 where
  pub sums : c.covered + length c.missing ≡ length concepts
  pub matches : (k : Str) → lookup k c.matched ≡ (if has k concepts then best k else none)
  pub lists : c.missing ≡ without best concepts
  pub completes : c.complete ≡ (length c.missing == 0)

or_else-none : (o : Option Str) → or_else o none ≡ o
or_else-none none = refl
or_else-none (some n) = refl

cover-CountsConcepts :
    (hits : Dict (Dict Str)) (concepts : List Str) (best : Str → Option Str) (m : SetInfo)
    → ((k : Str) → has k concepts ≡ true → hit hits k m.prefix ≡ best k)
    → CountsConcepts best concepts (cover hits concepts m)
unfolding cover
cover-CountsConcepts hits concepts best m h =
    let c : Coverage = record {
      set = m;
      covered = 0;
      concepts_total = length concepts;
      matched = [];
      missing = [];
      complete = false;
    } in
    let e : (k : Str) → lookup {V = Str} k [] ≡ none = λ k. unfold lookup in refl in
    record {
      sums = omega (arith, covered-count_concepts hits concepts c);
      matches = λ k. ground (
        arith,
        matched-count_concepts k hits concepts c,
        or_else-none (hit hits k m.prefix),
        h k,
        e k,
      );
      lists =
          missing-count_concepts hits concepts c
          ∙ without-ext (λ k. hit hits k m.prefix) best concepts h;
      completes =
          ground
            (arith, covered-count_concepts hits concepts c, total-count_concepts hits concepts c);
    }

module _ (hits_of : Str → List (Str × Str)) (concepts : List Str) where
  -- The table of hits agrees with what is found, for the concepts asked.
  hit-found :
      (prefix k : Str)
      → has k concepts ≡ true
      → hit (search_all hits_of concepts []) k prefix ≡ found hits_of k prefix
  hit-found prefix k m =
      let e : hit [] k prefix ≡ none = unfold hit lookup in refl in
      ground (arith, hit-search_all hits_of k prefix concepts [], m, e)

-- What every row of an answer counts.
pub coverage_by_set-All :
    (hits_of : Str → List (Str × Str)) (concepts : List Str) (n : ℕ) (db : Db) (out : List Coverage)
    → coverage_by_set hits_of concepts n db ≡ some out
    → All (λ c. CountsConcepts (λ k. found hits_of k c.set.prefix) concepts c) out
unfolding coverage_by_set
coverage_by_set-All hits_of [] n db out h = cc
coverage_by_set-All hits_of (c ∷ concepts) n db out h =
    let asked = c ∷ concepts in
    let hits = search_all hits_of asked [] in
    let e : answer hits asked n db (sort_strings (dedup (all_prefixes hits))) ≡ out = cc in
    let P = λ (r : Coverage). CountsConcepts (λ k. found hits_of k r.set.prefix) asked r in
    subst (All P) e (
      answer-All P hits asked n db (sort_strings (dedup (all_prefixes hits))) (λ m.
        subst (λ (p : Str). CountsConcepts (λ k. found hits_of k p) asked (cover hits asked m))
          (sym (set-cover hits asked m))
          (cover-CountsConcepts hits asked (λ k. found hits_of k m.prefix) m
            (hit-found hits_of asked m.prefix))))
