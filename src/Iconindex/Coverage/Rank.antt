-- ===== src/Iconindex/Coverage/Rank.antt =====
-- The order of CoverageBySet.
use mathlib.Core.List.{map}
use iconify_cli.Base.{
  ℕ, zero, suc, ◌≡◌, refl, Bool, ◌&&◌, ◌||◌, ◌==◌, ltb, List, [], ◌∷◌, arith, length, All, take,
  some, sym, subst, ◌∙◌, All-zip, inl, inr, Bool-cases,
}
use iconify_cli.Base.Strings.{Str, str_ltb, str_ltb_asym, str_ltb_neg_trans}
use iconify_cli.Iconindex.Query.{dedup}
use iconify_cli.Base.Sort.{sort_strings, IsStrict, IsSorted, sort-IsSorted, sort-All}
use iconify_cli.Base.Dict.{Dict}
use iconify_cli.Iconindex.Db.{SetInfo, Db}
use iconify_cli.Iconindex.Coverage.{
  Coverage, count_concept, count_concepts, cover, ranks_before, limit, sets_meta, answer,
  all_prefixes, search_all, ranked, coverage_by_set,
}

ranks_before-IsStrict : IsStrict ranks_before
unfolding ranks_before
ranks_before-IsStrict = record {
  asym = λ a b h. ground (arith, str_ltb_asym a.set.prefix b.set.prefix);
  neg_trans = λ a b c h k. ground (arith, str_ltb_neg_trans a.set.prefix b.set.prefix c.set.prefix);
}

All-take : (P : Coverage → Type 0) (n : ℕ) (xs : List Coverage) → All P xs → All P (take n xs)
All-take P zero xs h = tt
All-take P (suc n) [] h = tt
All-take P (suc n) (x ∷ xs) h = (h.0, All-take P n xs h.1)

IsSorted-take :
    (n : ℕ) (xs : List Coverage) → IsSorted ranks_before xs → IsSorted ranks_before (take n xs)
IsSorted-take zero xs h = tt
IsSorted-take (suc n) [] h = tt
IsSorted-take (suc n) (x ∷ xs) h = (All-take _ n xs h.0, IsSorted-take n xs h.1)

limit-All : (P : Coverage → Type 0) (n : ℕ) (xs : List Coverage) → All P xs → All P (limit n xs)
unfolding limit
limit-All P n xs h = elim (Bool-cases (ltb 0 n && ltb n (length xs))) [
  | inl e ↦ rw e (All-take P n xs h)
  | inr e ↦ rw e h
]

limit-IsSorted :
    (n : ℕ) (xs : List Coverage) → IsSorted ranks_before xs → IsSorted ranks_before (limit n xs)
unfolding limit
limit-IsSorted n xs h = elim (Bool-cases (ltb 0 n && ltb n (length xs))) [
  | inl e ↦ rw e (IsSorted-take n xs h)
  | inr e ↦ rw e h
]

cover-All :
    (P : Coverage → Type 0) (hits : Dict (Dict Str)) (concepts : List Str) (metas : List SetInfo)
    → ((m : SetInfo) → P (cover hits concepts m))
    → All P (map (cover hits concepts) metas)
cover-All P hits concepts [] h = tt
cover-All P hits concepts (m ∷ metas) h = (h m, cover-All P hits concepts metas h)

pub answer-All :
    (P : Coverage → Type 0) (hits : Dict (Dict Str)) (concepts : List Str) (n : ℕ) (db : Db)
    (prefixes : List Str)
    → ((m : SetInfo) → P (cover hits concepts m))
    → All P (answer hits concepts n db prefixes)
unfolding answer ranked
answer-All P hits concepts n db [] h = tt
answer-All P hits concepts n db (p ∷ prefixes) h =
    limit-All P n _
      (sort-All ranks_before P _ (cover-All P hits concepts (sets_meta (p ∷ prefixes) db) h))

answer-IsSorted :
    (hits : Dict (Dict Str)) (concepts : List Str) (n : ℕ) (db : Db) (prefixes : List Str)
    → IsSorted ranks_before (answer hits concepts n db prefixes)
unfolding answer ranked
answer-IsSorted hits concepts n db [] = tt
answer-IsSorted hits concepts n db (p ∷ prefixes) =
    limit-IsSorted n _ (sort-IsSorted ranks_before ranks_before-IsStrict _)

pub total-count_concepts :
    (hits : Dict (Dict Str)) (concepts : List Str) (c : Coverage)
    → ((count_concepts hits concepts c).concepts_total ≡ c.concepts_total)
      × ((count_concepts hits concepts c).set ≡ c.set)
unfolding count_concepts count_concept
total-count_concepts hits [] c = (refl, refl)
total-count_concepts hits (x ∷ concepts) c =
    ground (arith, total-count_concepts hits concepts (count_concept hits x c))

-- More concepts first, then the smaller prefix.
unfoldable pub better : Coverage → Coverage → Bool
better a b =
    ltb b.covered a.covered || ((a.covered == b.covered) && str_ltb a.set.prefix b.set.prefix)

ranks_before-better :
    (a b : Coverage) → a.concepts_total ≡ b.concepts_total → ranks_before a b ≡ better a b
unfolding ranks_before better
ranks_before-better a b h = ground arith

-- The number of concepts is the same in every row.
pub total-cover :
    (hits : Dict (Dict Str)) (concepts : List Str) (m : SetInfo)
    → (cover hits concepts m).concepts_total ≡ length concepts
unfolding cover
total-cover hits concepts m = (total-count_concepts hits concepts _).0

IsSorted-better :
    (n : ℕ) (xs : List Coverage)
    → All (λ c. c.concepts_total ≡ n) xs
    → IsSorted ranks_before xs
    → IsSorted better xs
IsSorted-better n [] t s = tt
IsSorted-better n (x ∷ xs) t s = (
  All-zip _ _ _ (λ y e b. sym (ranks_before-better y x (e ∙ sym t.0)) ∙ b) xs t.1 s.0,
  IsSorted-better n xs t.1 s.1,
)

-- The rows of an answer stand in the order of `better`: a row never stands before one that covers
-- more concepts, nor before one that covers as many and has the smaller prefix. The number of icons
-- in a set plays no part.
pub coverage_by_set-IsSorted :
    (hits_of : Str → List (Str × Str)) (concepts : List Str) (n : ℕ) (db : Db) (out : List Coverage)
    → coverage_by_set hits_of concepts n db ≡ some out
    → IsSorted better out
unfolding coverage_by_set
coverage_by_set-IsSorted hits_of [] n db out h = cc
coverage_by_set-IsSorted hits_of (c ∷ concepts) n db out h =
    let hits = search_all hits_of (c ∷ concepts) [] in
    let e : answer hits (c ∷ concepts) n db (sort_strings (dedup (all_prefixes hits))) ≡ out = cc in
    let prefixes = sort_strings (dedup (all_prefixes hits)) in
    subst (IsSorted better) e (
      IsSorted-better (length (c ∷ concepts)) _
        (answer-All (λ r. r.concepts_total ≡ length (c ∷ concepts)) hits (c ∷ concepts) n db
          prefixes (total-cover hits (c ∷ concepts)))
        (answer-IsSorted hits (c ∷ concepts) n db prefixes))
