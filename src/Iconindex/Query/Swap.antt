-- ===== src/Iconindex/Query/Swap.antt =====
-- CrossSet against the rows of the target set, and UnindexedPrefixes.
use iconify_cli.Base.{
  ◌≡◌, refl, ◌∙◌, Bool, false, not, ◌&&◌, ◌||◌, ◌==◌, Option, none, some, List, [], ◌∷◌, ◌++◌,
  arith, keep, if◌then◌else◌, inl, inr, Bool-cases,
}
use iconify_cli.Base.Strings.{Str, str, str_eq, str_eq_iff, is_empty, trim_space, has}
use iconify_cli.Base.Dict.{lookup, lookup-put}
use iconify_cli.Iconindex.Collection.{IconRow}
use iconify_cli.Iconindex.Collection.Index.{find, position}
use iconify_cli.Iconindex.Collection.Distinct.{Distinct}
use iconify_cli.Iconindex.Db.{Db}
use iconify_cli.Iconindex.Replace.{has_icon}
use iconify_cli.Iconindex.Replace.Mirror.{UniqueKeys, IsMirror}
use iconify_cli.Iconindex.Query.{
  visible, covered, renamed, missing, SwapRow, SetIndex, index_row, index_rows, set_index, classify,
  cross_names, cross_set, count_visible, unindexed_from, unindexed_prefixes,
}

shown : Str → IconRow → Bool
shown q r = str_eq r.prefix q && not r.hidden

position-shown :
    (q n : Str) (rows : List IconRow)
    → has_icon q n rows ≡ false
    → position n (keep (shown q) rows) ≡ none
unfolding has_icon position shown
position-shown q n [] h = refl
position-shown q n (r ∷ rows) h = ground (arith, position-shown q n rows)

Distinct-shown : (q : Str) (rows : List IconRow) → UniqueKeys rows → Distinct (keep (shown q) rows)
Distinct-shown q [] u = tt
Distinct-shown q (r ∷ rows) u = elim (Bool-cases (shown q r)) [
  | inl e ↦ rw e (
    position-shown q r.name rows (unfold shown in ground (arith, u.0, str_eq_iff r.prefix q)),
    Distinct-shown q rows u.1,
  )
  | inr e ↦ rw e (Distinct-shown q rows u.1)
]

-- What the rows of a target say of a name.
unfoldable pub verdict : Str → Str → Option IconRow → SwapRow
verdict to n none = record {
  name = n;
  status = missing;
  target = [];
  note = str "no icon of this name in " ++ to;
}
verdict to n (some r) =
    if is_empty r.alias_of
    then record { name = n; status = covered; target = to ++ b':' ∷ n; note = [] }
    else record {
      name = n;
      status = renamed;
      target = to ++ b':' ∷ r.alias_of;
      note = str "resolves through an alias in " ++ to;
    }

find_unlisted : (n : Str) (rows : List IconRow) → position n rows ≡ none → find n rows ≡ none
unfolding find position
find_unlisted n [] h = refl
find_unlisted n (r ∷ rows) h = ground (arith, find_unlisted n rows)

names-index_rows :
    (n : Str) (rows : List IconRow) (ix : SetIndex)
    → Distinct rows
    → has n (index_rows rows ix).names ≡ elim (find n rows) [
      | none ↦ has n ix.names
      | some r ↦ is_empty r.alias_of || has n ix.names
    ]
unfolding index_rows index_row find has
names-index_rows n [] ix d = refl
names-index_rows n (r ∷ rows) ix d = ground (
  arith,
  names-index_rows n rows (index_row r ix) d.1,
  find_unlisted r.name rows d.0,
  str_eq_iff r.name n,
  str_eq_iff n r.name,
)

aliases-index_rows :
    (n : Str) (rows : List IconRow) (ix : SetIndex)
    → Distinct rows
    → lookup n (index_rows rows ix).aliases ≡ elim (find n rows) [
      | none ↦ lookup n ix.aliases
      | some r ↦ if is_empty r.alias_of then lookup n ix.aliases else some r.alias_of
    ]
unfolding index_rows index_row find
aliases-index_rows n [] ix d = refl
aliases-index_rows n (r ∷ rows) ix d = ground (
  arith,
  aliases-index_rows n rows (index_row r ix) d.1,
  find_unlisted r.name rows d.0,
  str_eq_iff r.name n,
  lookup-put r.name n r.alias_of ix.aliases,
)

classify-verdict :
    (to n : Str) (db : Db)
    → UniqueKeys db.icons
    → classify to (set_index to db) n ≡ verdict to n (find n (visible to db))
unfolding classify set_index verdict visible
classify-verdict to n db u =
    let rows = keep (λ r. str_eq r.prefix to && not r.hidden) db.icons in
    let distinct : Distinct rows = unfold shown in Distinct-shown to db.icons u in
    let ix : SetIndex = record { names = []; aliases = [] } in
    unfold has lookup in
    ground (arith, names-index_rows n rows ix distinct, aliases-index_rows n rows ix distinct)

-- The names that CrossSet answers for, in order: trimmed, without the empty ones.
unfoldable pub asked : List Str → List Str
asked [] = []
asked (n ∷ names) =
    let rest = asked names in let t = trim_space n in if is_empty t then rest else t ∷ rest

unfoldable pub verdicts : Str → Db → List Str → List SwapRow
verdicts to db [] = []
verdicts to db (n ∷ names) = verdict to n (find n (visible to db)) ∷ verdicts to db names

-- In a mirror, CrossSet answers each trimmed non-empty name in order by the visible row that the
-- target set has under that name: covered by an icon of its own, renamed to the parent of an alias,
-- missing where there is no visible row.
pub cross_set_lem :
    (to : Str) (names : List Str) (db : Db)
    → IsMirror db
    → cross_set to names db ≡ verdicts to db (asked names)
unfolding cross_set cross_names verdicts asked
cross_set_lem to [] db m = refl
cross_set_lem to (n ∷ names) db m =
    ground (arith, cross_set_lem to names db m, classify-verdict to (trim_space n) db m.keys)

has-unindexed_from :
    (k : Str) (seen prefixes : List Str) (db : Db)
    → has k (unindexed_from seen prefixes db)
      ≡ (has k (asked prefixes) && (not (has k seen) && (count_visible k db == 0)))
unfolding unindexed_from asked has
has-unindexed_from k seen [] db = refl
has-unindexed_from k seen (p ∷ prefixes) db =
    let q = trim_space p in
    ground (
      arith,
      has-unindexed_from k seen prefixes db,
      has-unindexed_from k (q ∷ seen) prefixes db,
      str_eq_iff k q,
    )

-- UnindexedPrefixes lists a prefix exactly if it is asked for, trimmed and not empty, and has no
-- visible icon.
pub has-unindexed_prefixes :
    (k : Str) (prefixes : List Str) (db : Db)
    → has k (unindexed_prefixes prefixes db) ≡ (has k (asked prefixes) && (count_visible k db == 0))
unfolding unindexed_prefixes has
has-unindexed_prefixes k prefixes db = has-unindexed_from k [] prefixes db ∙ ground arith
