-- ===== src/Cli/Diff.antt =====
-- internal/cli/diff.go: what a set has gained and lost upstream since it was indexed.
pub mod Fresh
use mathlib.Core.List.{map}
use iconify_cli.Base.{
  ℕ, ◌≡◌, refl, ap, ◌∙◌, Bool, true, false, not, ◌&&◌, ◌||◌, ◌==◌, ltb, Option, none, some, List,
  [], ◌∷◌, keep, length, arith, if◌then◌else◌,
}
use iconify_cli.Base.Strings.{Str, str_eq, str_eq_refl, has}
use iconify_cli.Base.Sort.{sort_strings, has-sort}
use iconify_cli.Base.Dict.{Dict, lookup}
use iconify_cli.Iconindex.Collection.{IconRow, CollectionPayload, parse_collection}
use iconify_cli.Iconindex.Db.{SetRow, Db}
use iconify_cli.Iconindex.Build.{Fetched, unreachable, malformed, got, Api}
use iconify_cli.Iconindex.Query.{set_names, diff_names, visible}
use iconify_cli.Iconindex.Query.Diff.{diff_names_lem}

pub data DiffError : Type 0 where
  fetching_last_modified parsing_last_modified : DiffError
  fetching parsing : Str → DiffError

pub data Answer (A : Type 0) : Type 0 where
  ok : A → Answer A
  err : DiffError → Answer A

-- if up, ok := upstream[p.String]; ok && up != lm.Int64
unfoldable pub has_moved : Dict ℕ → SetRow → Bool
has_moved upstream r = elim (lookup r.info.prefix upstream) [
  | none ↦ false
  | some up ↦ not (up == r.last_modified)
]

-- changedPrefixes, of the rows WHERE last_modified > 0
unfoldable pub changed_prefixes : Fetched (Dict ℕ) → Db → Answer (List Str)
changed_prefixes unreachable db = err fetching_last_modified
changed_prefixes malformed db = err parsing_last_modified
changed_prefixes (got upstream) db = ok (
    sort_strings (
      map (λ r. r.info.prefix)
        (keep (λ r. ltb 0 r.last_modified && has_moved upstream r) db.icon_sets)))

pub record DiffSet : Type 0 where
  pub prefix : Str
  pub added : List Str
  pub removed : List Str
  pub changed : Bool
  pub indexed_count : ℕ
  pub upstream_now : ℕ
  pub noted : Bool

abbrev pub is_nil : List Str → Bool
is_nil [] = true
is_nil (x ∷ xs) = false

-- The names of the rows that are not hidden.
unfoldable pub live_names : List IconRow → List Str
live_names rows = map (λ r. r.name) (keep (λ r. not r.hidden) rows)

unfoldable pub diff_set : Str → List Str → List Str → DiffSet
diff_set prefix indexed live =
    let (added, removed) = diff_names indexed live in
    record {
      prefix = prefix;
      added = added;
      removed = removed;
      changed = not (is_nil added) || not (is_nil removed);
      indexed_count = length indexed;
      upstream_now = length live;
      noted = is_nil indexed;
    }

-- One round of the loop; the rounds after it are made if it does not fail.
unfoldable pub with_diff :
    Str → Db → Fetched CollectionPayload → Answer (List DiffSet) → Answer (List DiffSet)
with_diff prefix db unreachable rest = err (fetching prefix)
with_diff prefix db malformed rest = err (parsing prefix)
with_diff prefix db (got payload) (err e) = err e
with_diff prefix db (got payload) (ok ds) =
    ok (diff_set prefix (set_names prefix db) (live_names (parse_collection prefix payload)) ∷ ds)

-- The loop over the sets.
unfoldable pub diff_sets : (Str → Fetched CollectionPayload) → Db → List Str → Answer (List DiffSet)
diff_sets collection db [] = ok []
diff_sets collection db (prefix ∷ targets) =
    with_diff prefix db (collection prefix) (diff_sets collection db targets)
