-- ===== src/Iconindex/Collection.antt =====
-- internal/iconindex/index.go: a /collection payload is flattened into icon rows.
-- encoding/json decodes the payload; it is given here decoded, its two maps as the lists of their
-- entries in the order in which `range` visits them.
pub mod Index
pub mod Spec
pub mod Distinct
pub mod Parse
use iconify_cli.Base.{
  ℕ, zero, suc, ◌≡◌, Bool, true, false, not, ◌&&◌, Option, none, some, List, [], ◌∷◌, ◌++◌,
  if◌then◌else◌, length,
}
use iconify_cli.Base.Strings.{Str, str_ltb, is_empty}
use iconify_cli.Base.Sort.{sort}
use iconify_cli.Base.Dict.{Dict, lookup, put}

-- One icon in the local mirror.
pub record IconRow : Type 0 where
  pub prefix : Str
  pub name : Str
  pub category : Str
  pub hidden : Bool
  pub alias_of : Str

pub record CollectionPayload : Type 0 where
  pub uncategorized : List Str
  pub categories : Dict (List Str)
  pub hidden : List Str
  pub aliases : Dict Str

-- "prefix:name"
unfoldable pub full_name : IconRow → Str
full_name r = r.prefix ++ b':' ∷ r.name

-- The variables of ParseCollection: `seen` maps a name to its index in `rows`.
pub record Adding : Type 0 where
  pub seen : Dict ℕ
  pub rows : List IconRow

-- rows[i] = f(rows[i])
unfoldable pub modify : ℕ → (IconRow → IconRow) → List IconRow → List IconRow
modify i f [] = []
modify zero f (r ∷ rows) = f r ∷ rows
modify (suc i) f (r ∷ rows) = r ∷ modify i f rows

-- A name can appear in a category and in hidden; keep the richer row.
unfoldable pub enrich : Str → Bool → IconRow → IconRow
enrich category hidden r =
    let named =
      if not (is_empty category) && is_empty r.category
      then record r { category = category }
      else r in
    if hidden then record named { hidden = true } else named

-- The closure `add`.
unfoldable pub add : Str → Str → Str → Bool → Str → Adding → Adding
add prefix name category hidden alias_of st =
    if is_empty name then st else elim (lookup name st.seen) [
      | some i ↦ record st { rows = modify i (enrich category hidden) st.rows }
      | none ↦ record {
        seen = put name (length st.rows) st.seen;
        rows =
            st.rows
            ++ record {
              prefix = prefix;
              name = name;
              category = category;
              hidden = hidden;
              alias_of = alias_of;
            }
              ∷ [];
      }
    ]

-- for _, n := range names { add(n, category, hidden, "") }
unfoldable pub add_names : Str → Str → Bool → List Str → Adding → Adding
add_names prefix category hidden [] st = st
add_names prefix category hidden (n ∷ names) st =
    add_names prefix category hidden names (add prefix n category hidden [] st)

-- for cat, names := range p.Categories { ... }
unfoldable pub add_categories : Str → Dict (List Str) → Adding → Adding
add_categories prefix [] st = st
add_categories prefix ((cat, names) ∷ rest) st =
    add_categories prefix rest (add_names prefix cat false names st)

-- for alias, parent := range p.Aliases { add(alias, "", false, parent) }
unfoldable pub add_aliases : Str → Dict Str → Adding → Adding
add_aliases prefix [] st = st
add_aliases prefix ((alias, parent) ∷ rest) st =
    add_aliases prefix rest (add prefix alias [] false parent st)

unfoldable pub no_rows : Adding
no_rows = record { seen = []; rows = [] }

unfoldable pub flatten : Str → CollectionPayload → Adding
flatten prefix p = add_aliases prefix p.aliases (
    add_names prefix [] true p.hidden
      (add_names prefix [] false p.uncategorized (add_categories prefix p.categories no_rows)))

-- rows[i].Name < rows[j].Name
unfoldable pub row_ltb : IconRow → IconRow → Bool
row_ltb a b = str_ltb a.name b.name

unfoldable pub parse_collection : Str → CollectionPayload → List IconRow
parse_collection prefix p = sort row_ltb (flatten prefix p).rows
