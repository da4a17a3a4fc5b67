-- ===== src/Iconindex/Build/Icons.antt =====
-- The icons after a build that returns a result.
use mathlib.Core.List.{Permᴰ, map}
use iconify_cli.Base.{
  ℕ, ◌≡◌, refl, sym, ap, ◌∙◌, subst, Bool, some, List, [], ◌∷◌, arith, if◌then◌else◌, All, length,
}
use iconify_cli.Base.Strings.{Str, str_eq_iff, has}
use iconify_cli.Iconindex.Collection.{CollectionPayload}
use iconify_cli.Iconindex.Collection.Distinct.{HasPrefix}
use iconify_cli.Iconindex.Collection.Parse.{parse_collection-HasPrefix}
use iconify_cli.Iconindex.Db.{Db, Faults}
use iconify_cli.Iconindex.Replace.Frame.{icons_of, icons_of-replaced}
use iconify_cli.Iconindex.Replace.Sets.{upserted, stamps}
use iconify_cli.Iconindex.Build.{
  Fetched, Api, BuildResult, Arrival, Progress, begin, drain, fetch, todo, upstream, build,
}
use iconify_cli.Iconindex.Build.Loop.{Refreshes, Fails, drain_inv, has-append}
use iconify_cli.Iconindex.Build.Order.{All-Permᴰ, IsFetched, fetch-IsFetched}
use iconify_cli.Iconindex.Build.Content.{fetched_payload, db-finish}
use iconify_cli.Iconindex.Build.Finished.{
  selected, fetched_rows, has-refreshed-finish, start, arrivals, build-Finished,
}

-- The sets refreshed so far have their new icons, and the others those of `db`.
abbrev Holds : (Str → Fetched CollectionPayload) → Db → Progress → Type 0
Holds collection db p =
    (q : Str)
    → icons_of q p.db
      ≡ (if has q p.result.refreshed then fetched_rows (collection q) q else icons_of q db)

module _ (collection : Str → Fetched CollectionPayload) (now : ℕ) (db : Db) where
  Holds-write :
      (a : Arrival) (p q : Progress)
      → IsFetched collection a
      → Refreshes now a p q
      → Holds collection db p
      → Holds collection db q
  unfolding fetched_rows has
  Holds-write a p q f w h k =
      let (payload, found, e) =
        fetched_payload (collection a.prefix) a.prefix (sym f.rows_of ∙ w.fetched) in
      let prefixed : All (HasPrefix a.prefix) w.rows =
        subst (All (HasPrefix a.prefix)) (sym e) (parse_collection-HasPrefix a.prefix payload) in
      let new : fetched_rows (collection a.prefix) a.prefix ≡ w.rows =
        ap (λ c. fetched_rows c a.prefix) found ∙ sym e in
      ap (icons_of k) w.db
      ∙ (icons_of-replaced now a.prefix w.rows a.lm p.db k prefixed
          ∙ ground (
            arith,
            h k,
            new,
            w.refreshed,
            has-append k p.result.refreshed (a.prefix ∷ []),
            str_eq_iff k a.prefix,
          ))

  Holds-fail :
      (a : Arrival) (p q : Progress)
      → IsFetched collection a
      → Fails a p q
      → Holds collection db p
      → Holds collection db q
  Holds-fail a p q f w h k =
      ap (icons_of k) w.db
      ∙ (h k
          ∙ ap (λ l. if has k l then fetched_rows (collection k) k else icons_of k db)
              (sym w.refreshed))

module _ (api : Api) (only : List Str) (force : Bool) (now : ℕ)
    (arrive : List Arrival → List Arrival)
    (order : (xs : List Arrival) → Permᴰ (arrive xs) xs) where
  -- When a build returns a result, each set that it lists as refreshed has exactly the rows that
  -- its collection parses to, and every other set has the rows that it had, whatever failed and in
  -- whatever order the fetches finished.
  pub build-icons :
      (db : Db) (fs : Faults) (r : BuildResult) (q : Str)
      → (build api only force now arrive db fs).result ≡ some r
      → icons_of q (build api only force now arrive db fs).db
        ≡ (if has q r.refreshed then fetched_rows (api.collection q) q else icons_of q db)
  unfolding arrivals start begin upserted has icons_of
  build-icons db fs r q h =
      let f = build-Finished api only force now arrive db fs r h in
      let p =
        drain now (arrivals api only force now arrive db)
          (start api only force now arrive db f.faults) in
      let n = length (selected api only) in
      let jobs = todo force (upstream api.last_modified) (stamps db) (selected api only) in
      let same : icons_of q p.db ≡ (
          if has q p.result.refreshed then fetched_rows (api.collection q) q else icons_of q db) =
        drain_inv (Holds api.collection db) (IsFetched api.collection) now
          (Holds-write api.collection now db) (Holds-fail api.collection now db) _ _
          (All-Permᴰ (IsFetched api.collection) (order (map (fetch api.collection) jobs))
            (fetch-IsFetched api.collection jobs))
          (λ k. refl) q in
      ap (λ b. icons_of q b.db) f.ends
      ∙ (ap (icons_of q) (db-finish n p)
          ∙ (same
              ∙ ap (λ b. if b then fetched_rows (api.collection q) q else icons_of q db)
                  (sym (has-refreshed-finish n p r q (ap (λ b. b.result) (sym f.ends) ∙ h)).0)))
