-- ===== src/Iconindex/Build/Repeat.antt =====
-- A repeated build has nothing to fetch.
use mathlib.Core.List.{Permᴰ, map}
use iconify_cli.Base.{
  ℕ, ◌≡◌, refl, sym, ap, ◌∙◌, subst, ◌⊎◌, inl, inr, ◌≢◌, Bool, true, false, not, none, some, List,
  [], ◌∷◌, arith, All, All-zip, keep, length,
}
use iconify_cli.Base.Strings.{Str, has}
use iconify_cli.Base.Sort.{sort_strings}
use iconify_cli.Base.Dict.{Dict, lookup}
use iconify_cli.Iconindex.Db.{SetInfo, Db, Faults, done, call, exec, transaction}
use iconify_cli.Iconindex.Replace.{upsert_row, upsert_each, upsert_sets}
use iconify_cli.Iconindex.Replace.Frame.{stamp, stamp-none}
use iconify_cli.Iconindex.Replace.Sets.{
  upserted, stamps, lookup-stamps, stored_last_modified-done, stamp-upsert_rows,
}
use iconify_cli.Iconindex.Sets.{InfoBlock, parse_sets}
use iconify_cli.Iconindex.Build.{
  Api, Fetched, unreachable, malformed, got, BuildResult, job, Arrival, Progress, begin, drain,
  fetch, or_zero, is_current, todo, upstream, select, finish, refused, refresh, after_reading,
  mirror, after_collections, build, Built, skipped,
}
use iconify_cli.Iconindex.Build.Loop.{drain_inv, settled-drain}
use iconify_cli.Iconindex.Build.Order.{All-Permᴰ, length-Permᴰ, has-prefixes-Permᴰ}
use iconify_cli.Iconindex.Build.Content.{db-finish}
use iconify_cli.Iconindex.Build.Finished.{
  selected, has-refreshed-finish, start, arrivals, build-Finished,
}
use iconify_cli.Iconindex.Build.Stamps.{
  IsDated, Stamped, Stamped-write, Stamped-fail, fetch-IsDated, All-Covered, sets_present,
}

-- Without faults the sets are written and the timestamps are read.
upsert_each-done :
    (now : ℕ) (sets : List SetInfo) (db : Db)
    → (d : Db) × (upsert_each now sets db [] ≡ done tt d []) × (d.icons ≡ db.icons)
unfolding upsert_each exec
upsert_each-done now [] db = (db, refl, refl)
upsert_each-done now (s ∷ sets) db =
    upsert_each-done now sets (record db { icon_sets = upsert_row now s db.icon_sets })

upsert_sets-done :
    (now : ℕ) (sets : List SetInfo) (db : Db)
    → (d : Db) × (upsert_sets now sets db [] ≡ record { error = none; db = d; faults = [] })
      × (d.icons ≡ db.icons)
unfolding upsert_sets transaction call
upsert_sets-done now sets db = let (d, e, i) = upsert_each-done now sets db in (d, rw e refl, i)

no_jobs :
    (last_mod stored : Dict ℕ) (sets : List SetInfo)
    → All (λ s. is_current false last_mod stored s ≡ true) sets
    → (todo false last_mod stored sets ≡ []) × (skipped false last_mod stored sets ≡ length sets)
unfolding todo skipped
no_jobs last_mod stored [] h = (refl, refl)
no_jobs last_mod stored (s ∷ sets) h = ground (arith, no_jobs last_mod stored sets h.1, h.0)

nil_of-length : (xs : List Arrival) → length xs ≡ 0 → xs ≡ []
nil_of-length [] h = refl
nil_of-length (x ∷ xs) h = absurd (omega arith)

-- What is current after a build: each set that has an upstream timestamp, if no set failed.
current_after :
    (last_mod : Dict ℕ) (force : Bool) (db d : Db) (now : ℕ) (sets : List SetInfo) (p : Progress)
    (s : SetInfo)
    → or_zero (lookup s.prefix last_mod) ≢ 0
    → (not (is_current force last_mod (stamps db) s) ≡ false)
      ⊎ (has s.prefix p.result.refreshed ≡ true)
    → Stamped last_mod (upserted now sets db).icon_sets p
    → d ≡ p.db
    → is_current false last_mod (stamps d) s ≡ true
unfolding is_current or_zero upserted
current_after last_mod force db d now sets p s dated c h e = ground (
  arith,
  dated,
  c,
  h.stamped s.prefix,
  lookup-stamps s.prefix d,
  lookup-stamps s.prefix db,
  ap (λ (x : Db). stamp s.prefix x.icon_sets) e,
  stamp-none s.prefix db.icon_sets,
  stamp-upsert_rows now sets s.prefix db.icon_sets,
)

-- The build fetches nothing: it succeeds, skips every set and leaves the icons of `db`.
pub record Idle (db : Db) (sets : List SetInfo) (b : Built) : Type 0 where
  pub result : BuildResult
  pub returned : b.result ≡ some result
  pub succeeded : b.error ≡ none
  pub nothing_new : (result.refreshed ≡ []) × (result.failed ≡ [])
  pub all_skipped : result.skipped ≡ length sets
  pub icons : b.db.icons ≡ db.icons

module _ (api : Api) (only : List Str) (now : ℕ) (arrive : List Arrival → List Arrival)
    (order : (xs : List Arrival) → Permᴰ (arrive xs) xs) where
  refresh-Idle :
      (db d : Db) (sets : List SetInfo) (stored : Dict ℕ)
      → All (λ s. is_current false (upstream api.last_modified) stored s ≡ true) sets
      → d.icons ≡ db.icons
      → Idle db sets (refresh api only false now arrive stored sets none d [])
  unfolding refresh
  refresh-Idle db d sets stored h e =
      let (idle, all) = no_jobs (upstream api.last_modified) stored sets h in
      rw (idle, nil_of-length (arrive []) (length-Permᴰ (order [])))
        (unfold drain begin finish sort_strings in
          record {
            result = record {
              sets = length sets;
              icons = 0;
              refreshed = [];
              skipped = skipped false (upstream api.last_modified) stored sets;
              failed = [];
            };
            returned = refl;
            succeeded = refl;
            nothing_new = (refl, refl);
            all_skipped = all;
            icons = e;
          })

  mirror-Idle :
      (db : Db) (sets : List SetInfo)
      → sets ≢ []
      → All (λ s. is_current false (upstream api.last_modified) (stamps db) s ≡ true) sets
      → Idle db sets (mirror api only false now arrive sets db [])
  unfolding mirror
  mirror-Idle db [] ne h = absurd (ne refl)
  mirror-Idle db (s ∷ sets) ne h =
      let (d, written, same) = upsert_sets-done now (s ∷ sets) db in
      rw (stored_last_modified-done db)
        (unfold after_reading in rw written (refresh-Idle db d (s ∷ sets) (stamps db) h same))

module _ (api : Api) (only : List Str) (force : Bool) (now : ℕ)
    (arrive : List Arrival → List Arrival) where
  mirror_sets :
      (sets : List SetInfo) (db : Db) (fs : Faults) (r : BuildResult)
      → (mirror api only force now arrive sets db fs).result ≡ some r
      → sets ≢ []
  unfolding mirror refused
  mirror_sets [] db fs r h = cc
  mirror_sets (s ∷ sets) db fs r h = λ e. cc

  chosen :
      (c : Fetched (Dict InfoBlock)) (db : Db) (fs : Faults) (r : BuildResult)
      → c ≡ api.collections
      → (after_collections api only force now arrive c db fs).result ≡ some r
      → (selected api only ≢ [])
        × ((n : ℕ) (order : List Arrival → List Arrival) (d : Db)
            → after_collections api only false n order c d []
              ≡ mirror api only false n order (selected api only) d [])
  unfolding after_collections refused selected
  chosen unreachable db fs r e h = cc
  chosen malformed db fs r e h = cc
  chosen (got m) db fs r e h =
      rw (← e) (mirror_sets (select only (parse_sets m)) db fs r h, λ n order d. refl)

module _ (api : Api) (only : List Str) (force : Bool) (now : ℕ)
    (arrive : List Arrival → List Arrival)
    (order : (xs : List Arrival) → Permᴰ (arrive xs) xs) where
  current-All :
      (db : Db) (fs : Faults) (r : BuildResult)
      → (build api only force now arrive db fs).result ≡ some r
      → r.failed ≡ []
      → All (λ s. or_zero (lookup s.prefix (upstream api.last_modified)) ≢ 0) (selected api only)
      → All
          (λ s.
            is_current false
              (upstream api.last_modified)
              (stamps (build api only force now arrive db fs).db)
              s
            ≡ true)
          (selected api only)
  unfolding arrivals start begin has todo
  current-All db fs r h nf dated =
      let f = build-Finished api only force now arrive db fs r h in
      let last_mod = upstream api.last_modified in
      let sets = selected api only in
      let stale = λ (s : SetInfo). not (is_current force last_mod (stamps db) s) in
      let p0 = start api only force now arrive db f.faults in
      let found = arrivals api only force now arrive db in
      let p = drain now found p0 in
      let rows = (upserted now sets db).icon_sets in
      let n = length sets in
      let jobs = map (job last_mod) (keep stale sets) in
      let marks = has-refreshed-finish n p r in
      let stamped : Stamped last_mod rows p =
        drain_inv (Stamped last_mod rows) (IsDated last_mod rows) now
          (Stamped-write last_mod rows now) (Stamped-fail last_mod rows now) found p0
          (All-Permᴰ (IsDated last_mod rows) (order (map (fetch api.collection) jobs))
            (fetch-IsDated last_mod rows api.collection stale sets (sets_present now sets db)))
          (record { stamped = λ q. refl; sets = λ q. refl }) in
      let same : (build api only force now arrive db fs).db ≡ p.db =
        ap (λ b. b.db) f.ends ∙ db-finish n p in
      let settled = λ (q : Str). settled-drain q now found p0 in
      let known = λ (q : Str). has-prefixes-Permᴰ q (order (map (fetch api.collection) jobs)) in
      let result : (finish n p).result ≡ some r = ap (λ b. b.result) (sym f.ends) ∙ h in
      let none_failed = λ (q : Str). ap (has q) nf in
      All-zip _ _ _
        (λ s d c.
          current_after last_mod force db _ now sets p s d
            (elim c [
              | inl old ↦ inl old
              | inr new ↦ inr (
                  ground (
                    arith,
                    new,
                    settled s.prefix,
                    known s.prefix,
                    (marks s.prefix result).1,
                    none_failed s.prefix,
                  ))
            ])
            stamped same)
        sets dated (All-Covered last_mod api.collection stale sets)

  -- After a build without failed sets, a build of the same sets from the same upstream state, with
  -- no fault and without force, fetches nothing: it succeeds, skips every set and leaves the icons
  -- as they are. Every set must have an upstream timestamp other than 0.
  pub build-Idle :
      (db : Db) (fs : Faults) (r : BuildResult) (later : ℕ)
      → (build api only force now arrive db fs).result ≡ some r
      → r.failed ≡ []
      → All (λ s. or_zero (lookup s.prefix (upstream api.last_modified)) ≢ 0) (selected api only)
      → let first = (build api only force now arrive db fs).db in
        Idle first (selected api only) (build api only false later arrive first [])
  unfolding build
  build-Idle db fs r later h nf dated =
      let (some_sets, same) = chosen api only force now arrive api.collections db fs r refl h in
      subst (Idle _ (selected api only)) (sym (same later arrive _)) (
        mirror-Idle api only later arrive order _ (selected api only) some_sets
          (current-All db fs r h nf dated))
