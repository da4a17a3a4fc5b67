-- ===== src/Iconindex/Query.antt =====
-- internal/iconindex/query.go: the reads of one or two sets. A read that the database refuses is
-- returned as an error by each of them and is left out here.
pub mod Diff
pub mod Swap
pub mod Resolved
use mathlib.Core.List.{map}
use iconify_cli.Base.{
  ℕ, Bool, true, false, not, ◌&&◌, ◌||◌, ◌==◌, ltb, Option, none, some, List, [], ◌∷◌, ◌++◌, keep,
  length, if◌then◌else◌,
}
use iconify_cli.Base.Strings.{Str, str, str_eq, str_ltb, is_empty, trim_space, has}
use iconify_cli.Base.Sort.{sort_strings}
use iconify_cli.Base.Dict.{Dict, lookup, put, keys}
use iconify_cli.Iconindex.Collection.{IconRow}
use iconify_cli.Iconindex.Collection.Index.{find}
use iconify_cli.Iconindex.Db.{SnapshotRow, Db}

-- The visible rows of a set: WHERE prefix = ? AND hidden = 0
unfoldable pub visible : Str → Db → List IconRow
visible prefix db = keep (λ r. str_eq r.prefix prefix && not r.hidden) db.icons

pub record Resolution : Type 0 where
  pub query : Str
  pub prefix : Str
  pub name : Str
  pub canonical : Str
  pub is_there : Bool
  pub aliased : Bool
  pub hidden : Bool

-- SELECT alias_of, hidden FROM icons WHERE prefix = ? AND name = ?
unfoldable pub select_icon : Str → Str → Db → Option IconRow
select_icon prefix name db = find name (keep (λ r. str_eq r.prefix prefix) db.icons)

unfoldable pub resolve : Str → Str → Db → Resolution
resolve prefix name db =
    let r : Resolution = record {
      query = prefix ++ b':' ∷ name;
      prefix = prefix;
      name = name;
      canonical = name;
      is_there = false;
      aliased = false;
      hidden = false;
    } in
    elim (select_icon prefix name db) [
      | none ↦ r
      | some icon ↦
          if is_empty icon.alias_of
          then record r { is_there = true; hidden = icon.hidden }
          else record r {
            is_there = true;
            hidden = icon.hidden;
            aliased = true;
            canonical = icon.alias_of;
          }
    ]

pub data Status : Type 0 where
  covered renamed missing : Status

pub record SwapRow : Type 0 where
  pub name : Str
  pub status : Status
  pub target : Str
  pub note : Str

-- The canonical names of a set's visible icons, and its visible aliases with their parents.
pub record SetIndex : Type 0 where
  pub names : List Str
  pub aliases : Dict Str

unfoldable pub index_row : IconRow → SetIndex → SetIndex
index_row r ix =
    if is_empty r.alias_of
    then record ix { names = r.name ∷ ix.names }
    else record ix { aliases = put r.name r.alias_of ix.aliases }

unfoldable pub index_rows : List IconRow → SetIndex → SetIndex
index_rows [] ix = ix
index_rows (r ∷ rows) ix = index_rows rows (index_row r ix)

unfoldable pub set_index : Str → Db → SetIndex
set_index prefix db = index_rows (visible prefix db) (record { names = []; aliases = [] })

-- The switch of CrossSet; a missing alias reads as the empty string.
unfoldable pub classify : Str → SetIndex → Str → SwapRow
classify to ix n =
    let parent : Str = elim (lookup n ix.aliases) [ none ↦ [] | some a ↦ a ] in
    if has n ix.names
    then record { name = n; status = covered; target = to ++ b':' ∷ n; note = [] }
    else if not (is_empty parent)
    then record {
      name = n;
      status = renamed;
      target = to ++ b':' ∷ parent;
      note = str "resolves through an alias in " ++ to;
    }
    else record {
      name = n;
      status = missing;
      target = [];
      note = str "no icon of this name in " ++ to;
    }

unfoldable pub cross_names : Str → SetIndex → List Str → List SwapRow
cross_names to ix [] = []
cross_names to ix (n ∷ names) =
    let rest = cross_names to ix names in
    let trimmed = trim_space n in if is_empty trimmed then rest else classify to ix trimmed ∷ rest

unfoldable pub cross_set : Str → List Str → Db → List SwapRow
cross_set to names db = cross_names to (set_index to db) names

-- SELECT name FROM icons WHERE prefix = ? AND hidden = 0 ORDER BY name
unfoldable pub set_names : Str → Db → List Str
set_names prefix db = sort_strings (map (λ r. r.name) (visible prefix db))

-- The keys of a Go map that stands for a set: each once.
unfoldable pub dedup : List Str → List Str
dedup [] = []
dedup (x ∷ xs) = let rest = dedup xs in if has x rest then rest else x ∷ rest

unfoldable pub diff_names : List Str → List Str → List Str × List Str
diff_names before after = (
  sort_strings (keep (λ n. not (has n before)) (dedup after)),
  sort_strings (keep (λ n. not (has n after)) (dedup before)),
)

-- SELECT COUNT(1) FROM icons WHERE prefix = ? AND hidden = 0
unfoldable pub count_visible : Str → Db → ℕ
count_visible prefix db = length (visible prefix db)

-- The loop of UnindexedPrefixes over the prefixes, with the ones seen.
unfoldable pub unindexed_from : List Str → List Str → Db → List Str
unindexed_from seen [] db = []
unindexed_from seen (p ∷ prefixes) db =
    let q = trim_space p in
    let skip = is_empty q || has q seen in
    let rest = unindexed_from (if skip then seen else q ∷ seen) prefixes db in
    if not skip && count_visible q db == 0 then q ∷ rest else rest

unfoldable pub unindexed_prefixes : List Str → Db → List Str
unindexed_prefixes prefixes db = unindexed_from [] prefixes db
