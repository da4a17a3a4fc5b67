-- ===== src/Cli/Diff/Fresh.antt =====
-- The diff of a set that has just been indexed.
use mathlib.Core.List.{Permᴰ, map}
use iconify_cli.Base.{
  ℕ, ◌≡◌, refl, ap, ◌∙◌, Bool, true, false, not, ◌&&◌, some, List, [], ◌∷◌, keep, arith,
}
use iconify_cli.Base.Strings.{Str, str_eq, str_eq_refl, has}
use iconify_cli.Base.Sort.{has-sort}
use iconify_cli.Iconindex.Collection.{IconRow, CollectionPayload, parse_collection}
use iconify_cli.Iconindex.Db.{Db, Faults}
use iconify_cli.Iconindex.Build.{got, Api, Arrival, BuildResult, build}
use iconify_cli.Iconindex.Build.Icons.{build-icons}
use iconify_cli.Iconindex.Build.Finished.{fetched_rows}
use iconify_cli.Iconindex.Replace.Frame.{icons_of}
use iconify_cli.Iconindex.Query.{set_names, diff_names, visible}
use iconify_cli.Iconindex.Query.Diff.{diff_names_lem}
use iconify_cli.Cli.Diff.{ok, DiffSet, live_names, diff_set, with_diff, diff_sets}

nil_of-has : (xs : List Str) → ((k : Str) → has k xs ≡ false) → xs ≡ []
unfolding has
nil_of-has [] h = refl
nil_of-has (x ∷ xs) h = ground (arith, h x, str_eq_refl x)

-- The same names, whatever their order, are no change.
diff_set-unchanged :
    (prefix : Str) (indexed live : List Str)
    → ((n : Str) → has n indexed ≡ has n live)
    → (diff_set prefix indexed live).changed ≡ false
unfolding diff_set
diff_set-unchanged prefix indexed live h =
    let (_, _, a, b) = diff_names_lem indexed live in
    let added : (diff_names indexed live).0 ≡ [] = nil_of-has _ (λ k. ground (arith, a k, h k)) in
    let removed : (diff_names indexed live).1 ≡ [] = nil_of-has _ (λ k. ground (arith, b k, h k)) in
    rw (added, removed) refl

keep-keep :
    (p q : IconRow → Bool) (rows : List IconRow)
    → keep (λ r. p r && q r) rows ≡ keep q (keep p rows)
keep-keep p q [] = refl
keep-keep p q (r ∷ rows) = ground (arith, keep-keep p q rows)

module _ (api : Api) (only : List Str) (force : Bool) (now : ℕ)
    (arrive : List Arrival → List Arrival)
    (order : (xs : List Arrival) → Permᴰ (arrive xs) xs) where
  -- Right after a build that lists a set as refreshed, and with the same answer of the API, the diff of
  -- the set reports no change.
  pub diff_sets-build :
      (db : Db) (fs : Faults) (r : BuildResult) (q : Str) (payload : CollectionPayload)
      → (build api only force now arrive db fs).result ≡ some r
      → has q r.refreshed ≡ true
      → api.collection q ≡ got payload
      → (d : DiffSet) × (diff_sets api.collection
            (build api only force now arrive db fs).db
            (q ∷ [])
          ≡ ok (d ∷ []))
        × (d.changed ≡ false)
  unfolding diff_sets with_diff live_names set_names visible icons_of
  diff_sets-build db fs r q payload h f g =
      let after = (build api only force now arrive db fs).db in
      let live = live_names (parse_collection q payload) in
      let rows : icons_of q after ≡ parse_collection q payload =
        build-icons api only force now arrive order db fs r q h
        ∙ rw f (unfold fetched_rows in ap (λ c. fetched_rows c q) g) in
      let same : visible q after ≡ keep (λ r. not r.hidden) (parse_collection q payload) =
        keep-keep (λ r. str_eq r.prefix q) (λ r. not r.hidden) after.icons
        ∙ ap (keep (λ r. not r.hidden)) rows in
      (
        diff_set q (set_names q after) live,
        ap (λ c. with_diff q after c (ok [])) g,
        diff_set-unchanged q (set_names q after) live (λ n.
            has-sort n (map (λ r. r.name) (visible q after))
            ∙ ap (λ rs. has n (map (λ r. r.name) rs)) same),
      )
