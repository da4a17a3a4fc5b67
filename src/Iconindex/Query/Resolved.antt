-- ===== src/Iconindex/Query/Resolved.antt =====
-- Resolve and CrossSet of internal/iconindex/query.go: the two agree on what a name stands for.
use iconify_cli.Base.{
  ◌≡◌, refl, ◌∙◌, false, not, ◌&&◌, none, some, List, [], ◌∷◌, ◌++◌, arith, keep, map,
  if◌then◌else◌,
}
use iconify_cli.Base.Strings.{Str, str, str_eq, str_eq_iff}
use iconify_cli.Iconindex.Collection.{IconRow}
use iconify_cli.Iconindex.Collection.Index.{find}
use iconify_cli.Iconindex.Db.{Db}
use iconify_cli.Iconindex.Replace.{has_icon}
use iconify_cli.Iconindex.Replace.Mirror.{UniqueKeys, IsMirror}
use iconify_cli.Iconindex.Query.{
  visible, covered, renamed, missing, Resolution, select_icon, resolve, SwapRow, cross_set,
}
use iconify_cli.Iconindex.Query.Swap.{verdict, verdicts, asked, cross_set_lem}

find-shown_absent :
    (q n : Str) (rows : List IconRow)
    → has_icon q n rows ≡ false
    → find n (keep (λ r. str_eq r.prefix q && not r.hidden) rows) ≡ none
unfolding has_icon find
find-shown_absent q n [] h = refl
find-shown_absent q n (r ∷ rows) h = ground (arith, find-shown_absent q n rows)

-- Where keys are unique, the visible row of a name is its row, if that is not hidden.
find-shown :
    (q n : Str) (rows : List IconRow)
    → UniqueKeys rows
    → find n (keep (λ r. str_eq r.prefix q && not r.hidden) rows)
      ≡ elim (find n (keep (λ r. str_eq r.prefix q) rows)) [
        | none ↦ none
        | some r ↦ if r.hidden then none else some r
      ]
unfolding find
find-shown q n [] u = refl
find-shown q n (r ∷ rows) u = ground (
  arith,
  find-shown q n rows u.1,
  find-shown_absent r.prefix r.name rows u.0,
  str_eq_iff r.prefix q,
  str_eq_iff r.name n,
)

-- The row that a resolution in the target set stands for: what is not there or hidden is missing.
unfoldable pub swap_of : Resolution → SwapRow
swap_of r =
    if r.is_there && not r.hidden
    then (if r.aliased
        then record {
          name = r.name;
          status = renamed;
          target = r.prefix ++ b':' ∷ r.canonical;
          note = str "resolves through an alias in " ++ r.prefix;
        }
        else record {
          name = r.name;
          status = covered;
          target = r.prefix ++ b':' ∷ r.name;
          note = [];
        })
    else record {
      name = r.name;
      status = missing;
      target = [];
      note = str "no icon of this name in " ++ r.prefix;
    }

verdict-resolve :
    (to n : Str) (db : Db)
    → UniqueKeys db.icons
    → verdict to n (find n (visible to db)) ≡ swap_of (resolve to n db)
unfolding verdict visible swap_of resolve select_icon
verdict-resolve to n db u = ground (arith, find-shown to n db.icons u)

verdicts-resolve :
    (to : Str) (db : Db) (names : List Str)
    → UniqueKeys db.icons
    → verdicts to db names ≡ map (λ n. swap_of (resolve to n db)) names
unfolding verdicts
verdicts-resolve to db [] u = refl
verdicts-resolve to db (n ∷ names) u =
    rw (verdict-resolve to n db u, verdicts-resolve to db names u) refl

-- In a mirror, CrossSet answers each trimmed non-empty name as Resolve does in the target set:
-- covered if the name is there by itself, renamed to the canonical name if it is an alias, and
-- missing if it is not there or hidden.
pub cross_set-resolve :
    (to : Str) (names : List Str) (db : Db)
    → IsMirror db
    → cross_set to names db ≡ map (λ n. swap_of (resolve to n db)) (asked names)
cross_set-resolve to names db m =
    cross_set_lem to names db m ∙ verdicts-resolve to db (asked names) m.keys
