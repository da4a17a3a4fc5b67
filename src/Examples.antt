-- ===== src/Examples.antt =====
-- The theorems of internal/iconindex at concrete inputs, and runs of its functions.
mod Bound
mod Requests
mod Store
mod Fanout
use mathlib.Core.List.Permᴰ
use mathlib.Core.List.{map}
use iconify_cli.Base.{
  ℕ, ◌+◌, ◌*◌, ◌≤◌, ◌<◌, ◌≡◌, refl, ◌≢◌, ◌↔◌, ◌⊎◌, Bool, true, false, not, ◌&&◌, ◌||◌, ◌==◌, Option,
  none, some, List, [], ◌∷◌, arith, length, All, if◌then◌else◌,
}
use iconify_cli.Base.Strings.{str_ltb, Str, str, str_eq, has}
use iconify_cli.Base.Sort.{sort, insert, IsAscending, IsSorted, sort_strings}
use iconify_cli.Base.Dict.{Dict, lookup}
use iconify_cli.Iconindex.Collection.{IconRow, CollectionPayload, parse_collection}
use iconify_cli.Iconindex.Collection.Index.{find}
use iconify_cli.Iconindex.Collection.Spec.{described}
use iconify_cli.Iconindex.Collection.Parse.{
  names, find-parse_collection, parse_collection-IsAscending, parse_collection-Distinct,
  parse_collection-HasPrefix,
}
use iconify_cli.Base.Int.{ℤ, pos}
use iconify_cli.Cli.Diff.{DiffSet, ok, diff_sets}
use iconify_cli.Cli.Diff.Fresh.{diff_sets-build}
use iconify_cli.Iconindex.Db.{Db, Faults}
use iconify_cli.Iconindex.Replace.{replace_icons, upsert_sets, names_of}
use iconify_cli.Iconindex.Replace.Effect.{replaced}
use iconify_cli.Iconindex.Replace.Atomic.{AllOrNothing, replace_icons_atomic}
use iconify_cli.Iconindex.Replace.Success.{replace_icons-parse_collection}
use iconify_cli.Iconindex.Replace.Frame.{icons_of, stamp, has_set, replace_icons_lem}
use iconify_cli.Iconindex.Replace.Mirror.{IsMirror, replace_icons-IsMirror}
use iconify_cli.Iconindex.Replace.Sets.{upserted, upsert_sets_atomic}
use iconify_cli.Iconindex.Sets.{InfoBlock, Any, parse_sets, coerce_height, scan_int}
use iconify_cli.Iconindex.Build.{
  Api, Fetched, got, unreachable, Arrival, BuildResult, build, upstream, or_zero,
}
use iconify_cli.Iconindex.Build.Report.{Accounts, build-Accounts}
use iconify_cli.Iconindex.Build.Content.{build-IsMirror}
use iconify_cli.Iconindex.Build.Finished.{fetched_rows, selected}
use iconify_cli.Iconindex.Build.Icons.{build-icons}
use iconify_cli.Iconindex.Build.Repeat.{Idle, build-Idle}
use iconify_cli.Iconindex.Query.{cross_set, diff_names, unindexed_prefixes, count_visible}
use iconify_cli.Iconindex.Query.Diff.{diff_names_lem}
use iconify_cli.Iconindex.Query.Swap.{verdicts, asked, cross_set_lem, has-unindexed_prefixes}
use iconify_cli.Iconindex.Query.Resolved.{swap_of, cross_set-resolve}
use iconify_cli.Iconindex.Query.{resolve}
use iconify_cli.Iconindex.Snapshot.{is_line, latest_snapshot, latest_snapshot-replace_icons}
use iconify_cli.Iconindex.Coverage.{Coverage, fts_query, coverage_by_set}
use iconify_cli.Iconindex.Coverage.Hits.{found}
use iconify_cli.Iconindex.Coverage.Rank.{better, coverage_by_set-IsSorted}
use iconify_cli.Iconindex.Coverage.Count.{CountsConcepts}
use iconify_cli.Iconindex.Coverage.Listed.{finds}
use iconify_cli.Iconindex.Coverage.Rows.{shown, known, coverage_by_set-CountsConcepts}

-- "home" is an icon, "house" its alias, and "old" is hidden.
abbrev payload : CollectionPayload
payload = record {
  uncategorized = str "star" ∷ [];
  categories = (str "nav", str "home" ∷ []) ∷ [];
  hidden = str "old" ∷ [];
  aliases = (str "house", str "home") ∷ [];
}

abbrev lu : Str
lu = str "lu"

abbrev rows : List IconRow
rows =
    record { prefix = lu; name = str "home"; category = str "nav"; hidden = false; alias_of = [] }
    ∷ record {
      prefix = lu;
      name = str "house";
      category = [];
      hidden = false;
      alias_of = str "home";
    }
    ∷ record { prefix = lu; name = str "old"; category = []; hidden = true; alias_of = [] }
    ∷ record { prefix = lu; name = str "star"; category = []; hidden = false; alias_of = [] }
    ∷ []

parse_rows : parse_collection lu payload ≡ rows
unfolding iconify_cli.Iconindex.Collection.parse_collection iconify_cli.Iconindex.Collection.flatten
    iconify_cli.Iconindex.Collection.add_aliases iconify_cli.Iconindex.Collection.add_categories
    iconify_cli.Iconindex.Collection.add_names iconify_cli.Iconindex.Collection.add
    iconify_cli.Iconindex.Collection.modify iconify_cli.Iconindex.Collection.enrich
    iconify_cli.Iconindex.Collection.no_rows iconify_cli.Iconindex.Collection.row_ltb
    iconify_cli.Base.Sort.sort iconify_cli.Base.Sort.insert iconify_cli.Base.Dict.put
    iconify_cli.Base.Dict.lookup iconify_cli.Base.Strings.str_eq iconify_cli.Base.Strings.str_ltb
parse_rows = refl

find-parse_collection_example :
    find (str "old") (parse_collection lu payload) ≡ described lu payload (str "old")
find-parse_collection_example = find-parse_collection lu payload (str "old")

parse_collection-IsAscending_example : IsAscending (names (parse_collection lu payload))
parse_collection-IsAscending_example = parse_collection-IsAscending lu payload

abbrev empty_db : Db
empty_db = record { icon_sets = []; icons = []; icons_fts = []; icon_set_snapshots = [] }

replace_icons_atomic_example :
    AllOrNothing empty_db
      (replaced 5 lu rows 7 empty_db)
      (replace_icons 5 lu rows 7 empty_db (false ∷ false ∷ true ∷ []))
replace_icons_atomic_example = replace_icons_atomic 5 lu rows 7 empty_db (false ∷ false ∷ true ∷ [])

replace_icons-parse_collection_example :
    (replace_icons 5 lu (parse_collection lu payload) 7 empty_db []).error ≡ none
replace_icons-parse_collection_example = replace_icons-parse_collection 5 lu payload 7 empty_db

replace_icons-IsMirror_example :
    IsMirror
      (replace_icons 5 lu (parse_collection lu payload) 7 empty_db (false ∷ false ∷ true ∷ [])).db
replace_icons-IsMirror_example =
    replace_icons-IsMirror 5 lu (parse_collection lu payload) 7 empty_db (false ∷ false ∷ true ∷ [])
      (parse_collection-HasPrefix lu payload) (parse_collection-Distinct lu payload)
      (record { keys = tt; searchable = refl })

replace_icons_lem_example :
    let after = (replace_icons 5 lu (parse_collection lu payload) 7 empty_db []).db in
    (icons_of lu after
      ≡ (if str_eq lu lu then parse_collection lu payload else icons_of lu empty_db))
    × (stamp lu after.icon_sets ≡ (
        if str_eq lu lu && has_set lu empty_db.icon_sets
        then some 7
        else stamp lu empty_db.icon_sets))
replace_icons_lem_example =
    replace_icons_lem 5 lu (parse_collection lu payload) 7 empty_db [] lu
      (parse_collection-HasPrefix lu payload) replace_icons-parse_collection_example

abbrev info : InfoBlock
info = record {
  name = str "Lucide";
  total = pos 4;
  category = [];
  palette = false;
  height = Any.text (str " 24px");
  author_name = [];
  license_title = str "ISC";
  license_spdx = str "ISC";
  license_url = [];
}

abbrev api : Api
api = record {
  collections = got ((lu, info) ∷ (str "bi", info) ∷ []);
  last_modified = got ((lu, 7) ∷ (str "bi", 9) ∷ []);
  collection = λ p. got payload;
}

upsert_sets_atomic_example :
    AllOrNothing empty_db
      (upserted 5 (selected api []) empty_db)
      (upsert_sets 5 (selected api []) empty_db (false ∷ true ∷ []))
upsert_sets_atomic_example = upsert_sets_atomic 5 (selected api []) empty_db (false ∷ true ∷ [])

abbrev in_order : List Arrival → List Arrival
in_order xs = xs

abbrev clean : BuildResult
clean = record { sets = 2; icons = 8; refreshed = str "bi" ∷ lu ∷ []; skipped = 0; failed = [] }

build-clean : (build api [] false 5 in_order empty_db []).result ≡ some clean
unfolding iconify_cli.Iconindex.Build.build iconify_cli.Iconindex.Build.after_collections
    iconify_cli.Iconindex.Build.mirror iconify_cli.Iconindex.Build.select
    iconify_cli.Iconindex.Build.after_reading iconify_cli.Iconindex.Build.refresh
    iconify_cli.Iconindex.Build.finish iconify_cli.Iconindex.Build.drain
    iconify_cli.Iconindex.Build.todo iconify_cli.Iconindex.Build.arrived
    iconify_cli.Iconindex.Build.begin iconify_cli.Iconindex.Build.fail
    iconify_cli.Iconindex.Build.fetch iconify_cli.Iconindex.Build.first
    iconify_cli.Iconindex.Build.is_current iconify_cli.Iconindex.Build.job
    iconify_cli.Iconindex.Build.or_zero iconify_cli.Iconindex.Build.refused
    iconify_cli.Iconindex.Build.skipped iconify_cli.Iconindex.Build.upstream
    iconify_cli.Iconindex.Build.written iconify_cli.Iconindex.Replace.stored_last_modified
    iconify_cli.Iconindex.Replace.scan_stored iconify_cli.Iconindex.Replace.upsert_sets
    iconify_cli.Iconindex.Replace.upsert_each iconify_cli.Iconindex.Replace.delete_fts
    iconify_cli.Iconindex.Replace.delete_icons iconify_cli.Iconindex.Replace.fts_of
    iconify_cli.Iconindex.Replace.has_icon iconify_cli.Iconindex.Replace.insert_fts
    iconify_cli.Iconindex.Replace.insert_icon iconify_cli.Iconindex.Replace.insert_rows
    iconify_cli.Iconindex.Replace.join_lines iconify_cli.Iconindex.Replace.names_in_tx
    iconify_cli.Iconindex.Replace.names_of iconify_cli.Iconindex.Replace.record_last_modified
    iconify_cli.Iconindex.Replace.replace_body iconify_cli.Iconindex.Replace.replace_icons
    iconify_cli.Iconindex.Replace.save_snapshot iconify_cli.Iconindex.Replace.scan_names
    iconify_cli.Iconindex.Replace.set_last_modified iconify_cli.Iconindex.Replace.snapshot
    iconify_cli.Iconindex.Replace.upsert_row iconify_cli.Iconindex.Sets.parse_sets
    iconify_cli.Iconindex.Sets.set_info iconify_cli.Iconindex.Sets.set_infos
    iconify_cli.Iconindex.Sets.set_ltb iconify_cli.Iconindex.Db.call
    iconify_cli.Iconindex.Db.transaction iconify_cli.Iconindex.Db.exec
    iconify_cli.Base.Sort.sort_strings iconify_cli.Base.Strings.has
    iconify_cli.Iconindex.Collection.parse_collection iconify_cli.Iconindex.Collection.flatten
    iconify_cli.Iconindex.Collection.add_aliases iconify_cli.Iconindex.Collection.add_categories
    iconify_cli.Iconindex.Collection.add_names iconify_cli.Iconindex.Collection.add
    iconify_cli.Iconindex.Collection.modify iconify_cli.Iconindex.Collection.enrich
    iconify_cli.Iconindex.Collection.no_rows iconify_cli.Iconindex.Collection.row_ltb
    iconify_cli.Base.Sort.sort iconify_cli.Base.Sort.insert iconify_cli.Base.Dict.put
    iconify_cli.Base.Dict.lookup iconify_cli.Base.Strings.str_eq iconify_cli.Base.Strings.str_ltb
build-clean = refl

build-Accounts_example :
    ((m : Dict InfoBlock) × (api.collections ≡ got m) × Accounts api [] false empty_db m clean)
    × (((build api [] false 5 in_order empty_db []).error ≡ none)
        ↔ (10 * length clean.failed ≤ clean.sets))
build-Accounts_example =
    build-Accounts api [] false 5 in_order (λ xs. Permᴰ.refl xs) empty_db [] clean build-clean

build-IsMirror_example : IsMirror (build api [] false 5 in_order empty_db []).db
build-IsMirror_example =
    build-IsMirror api [] false 5 in_order (λ xs. Permᴰ.refl xs) empty_db []
      (record { keys = tt; searchable = refl })

build-icons_example :
    icons_of lu (build api [] false 5 in_order empty_db []).db
    ≡ (if has lu clean.refreshed then fetched_rows (api.collection lu) lu else icons_of lu empty_db)
build-icons_example =
    build-icons api [] false 5 in_order (λ xs. Permᴰ.refl xs) empty_db [] clean lu build-clean

dated : All (λ s. or_zero (lookup s.prefix (upstream api.last_modified)) ≢ 0) (selected api [])
unfolding iconify_cli.Iconindex.Build.Finished.selected iconify_cli.Iconindex.Build.select
    iconify_cli.Iconindex.Build.or_zero iconify_cli.Iconindex.Build.upstream
    iconify_cli.Base.Dict.lookup iconify_cli.Iconindex.Sets.parse_sets
    iconify_cli.Iconindex.Sets.set_info iconify_cli.Iconindex.Sets.set_infos
    iconify_cli.Iconindex.Sets.set_ltb iconify_cli.Base.Sort.sort iconify_cli.Base.Sort.insert
    iconify_cli.Base.Strings.str_eq iconify_cli.Base.Strings.str_ltb iconify_cli.Base.Strings.has
dated = ground arith

build-Idle_example :
    let first = (build api [] false 5 in_order empty_db []).db in
    Idle first (selected api []) (build api [] false 6 in_order first [])
build-Idle_example =
    build-Idle api [] false 5 in_order (λ xs. Permᴰ.refl xs) empty_db [] clean 6 build-clean refl
      dated

abbrev mirrored : Db
mirrored = record empty_db { icons = rows }

diff_names_lem_example :
    let (added, removed) = diff_names (str "a" ∷ str "b" ∷ []) (str "c" ∷ str "b" ∷ []) in
    IsAscending added
    × IsAscending removed
    × ((n : Str)
        → has n added ≡ (not (has n (str "a" ∷ str "b" ∷ [])) && has n (str "c" ∷ str "b" ∷ [])))
    × ((n : Str)
        → has n removed ≡ (not (has n (str "c" ∷ str "b" ∷ [])) && has n (str "a" ∷ str "b" ∷ [])))
diff_names_lem_example = diff_names_lem (str "a" ∷ str "b" ∷ []) (str "c" ∷ str "b" ∷ [])

diff_changes :
    diff_names (str "a" ∷ str "b" ∷ []) (str "c" ∷ str "b" ∷ []) ≡ (str "c" ∷ [], str "a" ∷ [])
unfolding diff_names iconify_cli.Base.Sort.sort_strings iconify_cli.Base.Sort.sort
    iconify_cli.Base.Sort.insert iconify_cli.Base.Strings.str_eq iconify_cli.Base.Strings.str_ltb
    iconify_cli.Base.Strings.has iconify_cli.Iconindex.Query.dedup
diff_changes = refl

cross_set_lem_example :
    cross_set lu (str " house" ∷ [] ∷ str "old" ∷ []) (build api [] false 5 in_order empty_db []).db
    ≡ verdicts lu
        (build api [] false 5 in_order empty_db []).db
        (asked (str " house" ∷ [] ∷ str "old" ∷ []))
cross_set_lem_example =
    cross_set_lem lu (str " house" ∷ [] ∷ str "old" ∷ [])
      (build api [] false 5 in_order empty_db []).db build-IsMirror_example

diff_sets-build_example :
    let first = (build api [] false 5 in_order empty_db []).db in
    (d : DiffSet) × (diff_sets api.collection first (lu ∷ []) ≡ ok (d ∷ [])) × (d.changed ≡ false)
unfolding has iconify_cli.Base.Strings.str_eq
diff_sets-build_example =
    diff_sets-build api [] false 5 in_order (λ xs. Permᴰ.refl xs) empty_db [] clean lu payload
      build-clean refl refl

abbrev hits_of : Str → List (Str × Str)
hits_of q = if str_eq q (str "arrow* AND up*") then (lu, str "arrow-up") ∷ [] else []

query_example : fts_query (str "Arrow-UP!") ≡ str "arrow* AND up*"
unfolding fts_query
query_example = refl

abbrev concepts : List Str
concepts = str "Arrow up" ∷ str "home" ∷ []

abbrev one_set : Db
one_set = (build api [] false 5 in_order empty_db []).db

covered_once : (c : List Coverage) × (coverage_by_set hits_of concepts 0 one_set ≡ some c)
unfolding coverage_by_set
covered_once = (_, refl)

coverage_by_set-IsSorted_example : IsSorted better covered_once.0
coverage_by_set-IsSorted_example =
    coverage_by_set-IsSorted hits_of concepts 0 one_set covered_once.0 covered_once.1

coverage_by_set-CountsConcepts_example :
    All (λ c. CountsConcepts (λ k. found hits_of k c.set.prefix) concepts c) covered_once.0
    × ((p : Str)
        → (0 < 0)
          ⊎ (has p (shown covered_once.0) ≡ (has p (known one_set) && finds hits_of concepts p)))
coverage_by_set-CountsConcepts_example =
    coverage_by_set-CountsConcepts hits_of concepts 0 one_set covered_once.0 covered_once.1

cross_set-resolve_example :
    cross_set lu (str " house" ∷ [] ∷ str "old" ∷ []) (build api [] false 5 in_order empty_db []).db
    ≡ map
        (λ n. swap_of (resolve lu n (build api [] false 5 in_order empty_db []).db))
        (asked (str " house" ∷ [] ∷ str "old" ∷ []))
cross_set-resolve_example =
    cross_set-resolve lu (str " house" ∷ [] ∷ str "old" ∷ [])
      (build api [] false 5 in_order empty_db []).db build-IsMirror_example

prior : names_of lu mirrored ≡ str "home" ∷ str "house" ∷ str "old" ∷ str "star" ∷ []
unfolding names_of sort_strings sort insert str_ltb str_eq
prior = refl

latest_snapshot-replace_icons_example :
    latest_snapshot lu (replace_icons 5 lu (parse_collection lu payload) 7 mirrored []).db
    ≡ some (record { prefix = lu; taken_at = 5; names = names_of lu mirrored })
latest_snapshot-replace_icons_example =
    latest_snapshot-replace_icons 5 lu (parse_collection lu payload) 7 mirrored [] (str "home")
      (str "house" ∷ str "old" ∷ str "star" ∷ []) prior
      (unfold is_line in (refl, (refl, (refl, (refl, tt))))) refl tt
      (replace_icons-parse_collection 5 lu payload 7 mirrored)
