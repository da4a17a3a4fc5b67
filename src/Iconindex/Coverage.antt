-- ===== src/Iconindex/Coverage.antt =====
-- internal/iconindex/query.go: CoverageBySet, which single set covers the most of some concepts.
-- The full-text search of SQLite is a parameter: `hits_of` takes an FTS5 query to its hits, prefix
-- and name, best first and at most 4000.
pub mod Rank
pub mod Hits
pub mod Listed
pub mod Count
pub mod Rows
use mathlib.Core.List.{map}
use iconify_cli.Base.{
  ℕ, suc, ◌+◌, ◌<◌, Bool, true, false, not, ◌&&◌, ◌||◌, ◌==◌, ltb, leb, Option, none, some, List,
  [], ◌∷◌, ◌++◌, keep, length, take, if◌then◌else◌,
}
use iconify_cli.Base.Strings.{Str, str, str_eq, str_ltb, is_empty, has}
use iconify_cli.Base.Sort.{sort, sort_strings}
use iconify_cli.Base.Dict.{Dict, lookup, put, keys}
use iconify_cli.Iconindex.Db.{SetInfo, SetRow, Db}
use iconify_cli.Iconindex.Query.{dedup}

-- strings.ToLower as far as the filter of FTSQuery can see it: A to Z, and the two letters outside
-- ASCII whose lower case lies in it (U+0130 and the Kelvin sign U+212A).
unfoldable pub lower : ℕ → ℕ
lower c =
    if leb b'A' c && leb c b'Z'
    then c + 32
    else if c == 0x130
    then b'i'
    else if c == 0x212a
    then b'k'
    else c

unfoldable pub is_word : ℕ → Bool
is_word c = (leb b'a' c && leb c b'z') || (leb b'0' c && leb c b'9')

unfoldable pub end_field : Str → List Str → List Str
end_field [] fields = fields
end_field (c ∷ s) fields = (c ∷ s) ∷ fields

-- strings.FieldsFunc: the runs of word characters; `field` is the run so far.
unfoldable pub fields_from : Str → Str → List Str
unfolding is_word end_field
fields_from field [] = end_field field []
fields_from field (c ∷ s) = elim (is_word c) [
  | true ↦ fields_from (field ++ c ∷ []) s
  | false ↦ end_field field (fields_from [] s)
]

-- strings.Join(terms, " AND "), each term with its star
unfoldable pub join_terms : List Str → Str
join_terms [] = []
join_terms (f ∷ []) = f ++ b'*' ∷ []
join_terms (f ∷ g ∷ fields) = f ++ b'*' ∷ (str " AND " ++ join_terms (g ∷ fields))

unfoldable pub fts_query : Str → Str
unfolding fields_from lower join_terms
fts_query concept = join_terms (fields_from [] (map lower concept))

pub record Coverage : Type 0 where
  pub set : SetInfo
  pub covered : ℕ
  pub concepts_total : ℕ
  pub matched : Dict Str
  pub missing : List Str
  pub complete : Bool

-- The first hit of each set.
unfoldable pub best_from : List (Str × Str) → Dict Str → Dict Str
best_from [] out = out
best_from ((p, n) ∷ hits) out =
    best_from hits (elim (lookup p out) [ some m ↦ out | none ↦ put p n out ])

unfoldable pub best_per_set : List (Str × Str) → Dict Str
best_per_set hits = best_from hits []

-- SELECT ... FROM icon_sets WHERE prefix IN (...) ORDER BY prefix
unfoldable pub meta_ltb : SetInfo → SetInfo → Bool
meta_ltb a b = str_ltb a.prefix b.prefix

unfoldable pub sets_meta : List Str → Db → List SetInfo
sets_meta [] db = sort meta_ltb (map (λ r. r.info) db.icon_sets)
sets_meta (p ∷ prefixes) db =
    sort meta_ltb (keep (λ s. has s.prefix (p ∷ prefixes)) (map (λ r. r.info) db.icon_sets))

-- hits[concept][prefix]; a missing inner map reads as an empty one
unfoldable pub hit : Dict (Dict Str) → Str → Str → Option Str
hit hits concept prefix = elim (lookup concept hits) [ none ↦ none | some m ↦ lookup prefix m ]

-- One turn of the loop over the concepts.
unfoldable pub count_concept : Dict (Dict Str) → Str → Coverage → Coverage
count_concept hits concept c = elim (hit hits concept c.set.prefix) [
  | some n ↦ record c { matched = put concept n c.matched; covered = c.covered + 1 }
  | none ↦ record c { missing = c.missing ++ concept ∷ [] }
]

unfoldable pub count_concepts : Dict (Dict Str) → List Str → Coverage → Coverage
count_concepts hits [] c = c
count_concepts hits (concept ∷ concepts) c =
    count_concepts hits concepts (count_concept hits concept c)

unfoldable pub cover : Dict (Dict Str) → List Str → SetInfo → Coverage
cover hits concepts m =
    let c = count_concepts hits concepts (record {
      set = m;
      covered = 0;
      concepts_total = length concepts;
      matched = [];
      missing = [];
      complete = false;
    }) in
    record c { complete = c.covered == c.concepts_total }

-- The order of the answer. `Total` of a Coverage is the number of concepts, which hides the number
-- of icons of its set.
unfoldable pub ranks_before : Coverage → Coverage → Bool
ranks_before a b =
    if not (a.covered == b.covered)
    then ltb b.covered a.covered
    else if not (a.concepts_total == b.concepts_total)
    then ltb b.concepts_total a.concepts_total
    else str_ltb a.set.prefix b.set.prefix

unfoldable pub limit : ℕ → List Coverage → List Coverage
limit n out = if ltb 0 n && ltb n (length out) then take n out else out

-- The keys of all the inner maps.
unfoldable pub all_prefixes : Dict (Dict Str) → List Str
all_prefixes [] = []
all_prefixes ((concept, m) ∷ hits) = keys m ++ all_prefixes hits

unfoldable pub ranked : Dict (Dict Str) → List Str → List SetInfo → List Coverage
ranked hits concepts metas = sort ranks_before (map (cover hits concepts) metas)

-- The answer once the prefixes that have hits are known.
unfoldable pub answer : Dict (Dict Str) → List Str → ℕ → Db → List Str → List Coverage
answer hits concepts limit_sets db [] = []
answer hits concepts limit_sets db (p ∷ prefixes) =
    limit limit_sets (ranked hits concepts (sets_meta (p ∷ prefixes) db))

module _ (hits_of : Str → List (Str × Str)) where
  -- Concepts without a word are skipped.
  unfoldable pub search_all : List Str → Dict (Dict Str) → Dict (Dict Str)
  search_all [] hits = hits
  search_all (concept ∷ concepts) hits =
      let q = fts_query concept in
      search_all concepts (if is_empty q then hits else put concept (best_per_set (hits_of q)) hits)

  -- `none` is the error that no concept is given.
  unfoldable pub coverage_by_set : List Str → ℕ → Db → Option (List Coverage)
  coverage_by_set [] limit_sets db = none
  coverage_by_set (c ∷ concepts) limit_sets db =
      let hits = search_all (c ∷ concepts) [] in
      some (answer hits (c ∷ concepts) limit_sets db (sort_strings (dedup (all_prefixes hits))))
