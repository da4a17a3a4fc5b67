-- ===== src/Iconindex/Coverage/Hits.antt =====
-- What CoverageBySet finds for a concept in a set.
use mathlib.Core.List.{map}
use iconify_cli.Base.{
  ℕ, ◌≡◌, refl, ap, ◌∙◌, Bool, true, false, not, ◌&&◌, ◌||◌, ◌==◌, leb, Option, none, some, List,
  [], ◌∷◌, ◌++◌, arith, if◌then◌else◌, Bool-cases, inl, inr,
}
use iconify_cli.Base.Strings.{Str, str_eq, str_eq_iff, is_empty, has}
use iconify_cli.Base.Dict.{Dict, lookup, put, lookup-put}
use iconify_cli.Iconindex.Coverage.{
  lower, is_word, end_field, fields_from, join_terms, fts_query, best_from, best_per_set, hit,
  search_all,
}

-- The first hit in a set, in the order of the search.
unfoldable pub first_hit : Str → List (Str × Str) → Option Str
first_hit prefix [] = none
first_hit prefix ((p, n) ∷ hits) = if str_eq p prefix then some n else first_hit prefix hits

-- A letter or digit of ASCII, or one of the two other letters whose lower case is in ASCII.
abbrev pub is_term : ℕ → Bool
is_term c =
    (leb b'a' c && leb c b'z')
    || ((leb b'A' c && leb c b'Z')
        || ((leb b'0' c && leb c b'9') || ((c == 0x130) || (c == 0x212a))))

unfoldable pub has_term : Str → Bool
has_term [] = false
has_term (c ∷ s) = is_term c || has_term s

lookup-best_from :
    (k : Str) (hits : List (Str × Str)) (out : Dict Str)
    → lookup k (best_from hits out)
      ≡ elim (lookup k out) [ some m ↦ some m | none ↦ first_hit k hits ]
unfolding best_from first_hit
lookup-best_from k [] out = ground arith
lookup-best_from k ((p, n) ∷ hits) out = ground (
  arith,
  lookup-best_from k hits out,
  lookup-best_from k hits (put p n out),
  lookup-put p k n out,
  str_eq_iff p k,
)

pub lookup-best_per_set :
    (k : Str) (hits : List (Str × Str)) → lookup k (best_per_set hits) ≡ first_hit k hits
unfolding best_per_set lookup
lookup-best_per_set k hits = lookup-best_from k hits []

is_nil : List Str → Bool
is_nil [] = true
is_nil (f ∷ fields) = false

is_word-lower : (c : ℕ) → is_word (lower c) ≡ is_term c
unfolding is_word lower
is_word-lower c = ground arith

fields_from-cons :
    (field s : Str) (c : ℕ)
    → fields_from field (c ∷ s) ≡ (elim (is_word c) [
      | true ↦ fields_from (field ++ c ∷ []) s
      | false ↦ end_field field (fields_from [] s)
    ])
unfolding fields_from is_word
fields_from-cons field s c = refl

is_empty-snoc : (field : Str) (c : ℕ) → is_empty (field ++ c ∷ []) ≡ false
is_empty-snoc [] c = refl
is_empty-snoc (d ∷ field) c = refl

is_nil-end_field :
    (field : Str) (fields : List Str)
    → is_nil (end_field field fields) ≡ (is_empty field && is_nil fields)
unfolding end_field is_nil
is_nil-end_field [] fields = refl
is_nil-end_field (d ∷ field) fields = refl

is_nil-fields_from :
    (field s : Str)
    → is_nil (fields_from field (map lower s)) ≡ (is_empty field && not (has_term s))
unfolding has_term
is_nil-fields_from [] [] = unfold fields_from end_field is_nil in refl
is_nil-fields_from (d ∷ field) [] = unfold fields_from end_field is_nil in refl
is_nil-fields_from field (c ∷ s) =
    ap is_nil (fields_from-cons field (map lower s) (lower c))
    ∙ elim (Bool-cases (is_word (lower c))) [
      | inl e ↦ ground (
        arith,
        e,
        is_word-lower c,
        is_nil-fields_from (field ++ lower c ∷ []) s,
        is_empty-snoc field (lower c),
      )
      | inr e ↦ ground (
        arith,
        e,
        is_word-lower c,
        is_nil-fields_from [] s,
        is_nil-end_field field (fields_from [] (map lower s)),
      )
    ]

is_empty-join_terms : (fields : List Str) → is_empty (join_terms fields) ≡ is_nil fields
unfolding join_terms is_nil
is_empty-join_terms [] = refl
is_empty-join_terms ([] ∷ []) = refl
is_empty-join_terms ((c ∷ f) ∷ []) = refl
is_empty-join_terms ([] ∷ g ∷ fields) = refl
is_empty-join_terms ((c ∷ f) ∷ g ∷ fields) = refl

pub is_empty-fts_query : (concept : Str) → is_empty (fts_query concept) ≡ not (has_term concept)
unfolding fts_query
is_empty-fts_query concept =
    is_empty-join_terms (fields_from [] (map lower concept)) ∙ is_nil-fields_from [] concept

hit-put :
    (c k prefix : Str) (m : Dict Str) (hits : Dict (Dict Str))
    → hit (put c m hits) k prefix ≡ (if str_eq c k then lookup prefix m else hit hits k prefix)
unfolding hit
hit-put c k prefix m hits = ground (arith, lookup-put c k m hits)

module _ (hits_of : Str → List (Str × Str)) where
  -- The icon that stands for a concept in a set, if there is one: the first hit of the concept's query,
  -- where the concept has a letter or a digit.
  abbrev pub found : Str → Str → Option Str
  found concept prefix =
      if has_term concept then first_hit prefix (hits_of (fts_query concept)) else none

  -- The table of hits has for each concept asked what is found for it.
  pub hit-search_all :
      (k prefix : Str) (concepts : List Str) (hits : Dict (Dict Str))
      → hit (search_all hits_of concepts hits) k prefix
        ≡ (if has k concepts && has_term k then found k prefix else hit hits k prefix)
  unfolding search_all has
  hit-search_all k prefix [] hits = refl
  hit-search_all k prefix (c ∷ concepts) hits =
      let m = best_per_set (hits_of (fts_query c)) in
      ground (
        arith,
        is_empty-fts_query c,
        hit-put c k prefix m hits,
        lookup-best_per_set prefix (hits_of (fts_query c)),
        str_eq_iff c k,
        str_eq_iff k c,
        hit-search_all k prefix concepts hits,
        hit-search_all k prefix concepts (put c m hits),
      )
