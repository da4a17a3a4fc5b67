-- ===== src/Iconindex/Coverage/Rows.antt =====
-- The rows of an answer of CoverageBySet.
use mathlib.Core.List.{map}
use iconify_cli.Base.{
  ℕ, zero, suc, ◌<◌, ◌≡◌, refl, ◌∙◌, ◌⊎◌, inl, inr, Bool, ◌&&◌, some, List, [], ◌∷◌, arith, keep,
  All,
}
use iconify_cli.Base.Strings.{Str, str_eq_iff, has}
use iconify_cli.Base.Sort.{sort_strings, has-sort}
use iconify_cli.Base.Dict.{Dict}
use iconify_cli.Iconindex.Db.{SetInfo, SetRow, Db}
use iconify_cli.Iconindex.Query.{dedup}
use iconify_cli.Iconindex.Query.Diff.{has-dedup}
use iconify_cli.Iconindex.Coverage.{
  Coverage, meta_ltb, sets_meta, cover, ranks_before, limit, ranked, answer, all_prefixes,
  search_all, coverage_by_set,
}
use iconify_cli.Iconindex.Coverage.Count.{CountsConcepts, set-cover, coverage_by_set-All}
use iconify_cli.Iconindex.Coverage.Hits.{found}
use iconify_cli.Iconindex.Coverage.Listed.{finds, has-all_prefixes, has-map-sort}

-- The sets of the rows, and the sets in the tables.
abbrev pub shown : List Coverage → List Str
shown out = map (λ c. c.set.prefix) out

abbrev pub known : Db → List Str
known db = map (λ r. r.info.prefix) db.icon_sets

has-keep :
    (p : Str) (f : Str → Bool) (rows : List SetRow)
    → has p (map (λ (s : SetInfo). s.prefix) (keep (λ s. f s.prefix) (map (λ r. r.info) rows)))
      ≡ (has p (map (λ r. r.info.prefix) rows) && f p)
unfolding has
has-keep p f [] = refl
has-keep p f (r ∷ rows) = ground (arith, has-keep p f rows, str_eq_iff p r.info.prefix)

has-sets_meta :
    (p q : Str) (prefixes : List Str) (db : Db)
    → has p (map (λ (s : SetInfo). s.prefix) (sets_meta (q ∷ prefixes) db))
      ≡ (has p (known db) && has p (q ∷ prefixes))
unfolding sets_meta
has-sets_meta p q prefixes db =
    has-map-sort meta_ltb (λ s. s.prefix) p _ ∙ has-keep p (λ k. has k (q ∷ prefixes)) db.icon_sets

has-cover :
    (p : Str) (hits : Dict (Dict Str)) (concepts : List Str) (metas : List SetInfo)
    → has p (shown (map (cover hits concepts) metas)) ≡ has p (map (λ s. s.prefix) metas)
unfolding has
has-cover p hits concepts [] = refl
has-cover p hits concepts (m ∷ metas) =
    ground (arith, set-cover hits concepts m, has-cover p hits concepts metas)

has-ranked :
    (p : Str) (hits : Dict (Dict Str)) (concepts : List Str) (metas : List SetInfo)
    → has p (shown (ranked hits concepts metas)) ≡ has p (map (λ s. s.prefix) metas)
unfolding ranked
has-ranked p hits concepts metas =
    has-map-sort ranks_before (λ c. c.set.prefix) p (map (cover hits concepts) metas)
    ∙ has-cover p hits concepts metas

-- Without a limit, the sets with a row are those in the tables that are asked for.
has-answer :
    (p : Str) (hits : Dict (Dict Str)) (concepts : List Str) (n : ℕ) (db : Db) (prefixes : List Str)
    → (0 < n)
      ⊎ (has p (shown (answer hits concepts n db prefixes)) ≡ (has p (known db) && has p prefixes))
unfolding answer limit
has-answer p hits concepts (suc n) db prefixes = inl (omega arith)
has-answer p hits concepts zero db [] = inr (unfold has in ground arith)
has-answer p hits concepts zero db (q ∷ prefixes) =
    inr (has-ranked p hits concepts (sets_meta (q ∷ prefixes) db) ∙ has-sets_meta p q prefixes db)

has-coverage_by_set :
    (hits_of : Str → List (Str × Str)) (concepts : List Str) (n : ℕ) (db : Db) (out : List Coverage)
    → coverage_by_set hits_of concepts n db ≡ some out
    → (p : Str) → (0 < n) ⊎ (has p (shown out) ≡ (has p (known db) && finds hits_of concepts p))
unfolding coverage_by_set
has-coverage_by_set hits_of [] n db out h p = absurd (cc)
has-coverage_by_set hits_of (c ∷ concepts) n db out h p =
    let asked = c ∷ concepts in
    let hits = search_all hits_of asked [] in
    let prefixes = sort_strings (dedup (all_prefixes hits)) in
    let e : answer hits asked n db prefixes ≡ out = cc in
    let m : has p prefixes ≡ finds hits_of asked p =
      has-sort p (dedup (all_prefixes hits))
      ∙ has-dedup p (all_prefixes hits)
      ∙ has-all_prefixes hits_of p asked in
    elim (has-answer p hits asked n db prefixes) [
      | inl l ↦ inl l
      | inr r ↦ inr (ground (arith, r, e, m))
    ]

-- In every row of an answer the covered and the missing concepts add up to all of them, the table of
-- matches has for a concept asked the set's first hit of its query, the missing concepts are exactly
-- those without one, in the order asked, and the row is complete exactly if none is missing. Unless the
-- number of rows is limited, the sets with a row are those of the tables in which some concept asked has
-- a hit. A concept without a letter or digit has no hit: it is not searched.
pub coverage_by_set-CountsConcepts :
    (hits_of : Str → List (Str × Str)) (concepts : List Str) (n : ℕ) (db : Db) (out : List Coverage)
    → coverage_by_set hits_of concepts n db ≡ some out
    → All (λ c. CountsConcepts (λ k. found hits_of k c.set.prefix) concepts c) out
      × ((p : Str) → (0 < n) ⊎ (has p (shown out) ≡ (has p (known db) && finds hits_of concepts p)))
coverage_by_set-CountsConcepts hits_of concepts n db out h = (
  coverage_by_set-All hits_of concepts n db out h,
  has-coverage_by_set hits_of concepts n db out h,
)
