-- ===== src/Iconindex/Build/Report.antt =====
-- What Build reports.
use mathlib.Core.List.{Permᴰ}
use iconify_cli.Base.{
  ℕ, ◌+◌, ◌*◌, ◌≤◌, ◌≡◌, refl, sym, ap, ◌∙◌, subst, ◌↔◌, Bool, true, not, ◌&&◌, none, some, List,
  arith, length, keep, map, if◌then◌else◌,
}
use iconify_cli.Base.Strings.{Str, has}
use iconify_cli.Base.Dict.{Dict, keys}
use iconify_cli.Iconindex.Db.{SetInfo, Db, Faults}
use iconify_cli.Iconindex.Replace.Sets.{stamps}
use iconify_cli.Iconindex.Sets.{InfoBlock, parse_sets}
use iconify_cli.Iconindex.Build.{
  Api, Fetched, unreachable, malformed, got, BuildResult, Arrival, fetch, job, is_current, todo,
  skipped, upstream, Progress, drain, Built, refused, finish, begin, after_collections, build,
}
use iconify_cli.Iconindex.Build.Loop.{drain-counts, drain-Remembers, accounted-drain}
use iconify_cli.Iconindex.Build.Order.{length-Permᴰ}
use iconify_cli.Iconindex.Build.Finished.{selected, start, arrivals, build-Finished}
use iconify_cli.Iconindex.Build.Unchanged.{
  IsUnchanged, is_same, has-keep, is_same→IsUnchanged, IsUnchanged→is_same,
}
use iconify_cli.Iconindex.Build.Counts.{
  count, set_prefixes, count-keep-not, count-fetch, count-Permᴰ, settled, settled-drain, takes,
  count-select, count-parse_sets,
}
use iconify_cli.Iconindex.Build.Totals.{
  length-set_prefixes, has_of-count, length-map-fetch, length-keep-not, finish_counts,
  settled-finish, finish_error,
}

-- `m` is the answer of /collections. `names` are the sets that are skipped: the chosen ones that are
-- unchanged. Each chosen set of the answer stands in one of the three lists as often as in the answer,
-- that is once, and no other set does.
pub record Accounts (api : Api) (only : List Str) (force : Bool) (db : Db) (m : Dict InfoBlock)
    (r : BuildResult) : Type 0 where
  pub names : List Str
  pub total : r.skipped + length r.refreshed + length r.failed ≡ r.sets
  pub skips : r.skipped ≡ length names
  pub unchanged :
      (k : Str)
      → (has k names ≡ true)
        ↔ ((has k (keys m) ≡ true) × (takes only k ≡ true) × IsUnchanged api force db k)
  pub once :
      (k : Str)
      → count k names + count k r.refreshed + count k r.failed
        ≡ (if takes only k then count k (keys m) else 0)

module _ (api : Api) (only : List Str) (force : Bool) (now : ℕ)
    (arrive : List Arrival → List Arrival) (order : (xs : List Arrival) → Permᴰ (arrive xs) xs)
    (db : Db) where
  -- A build that returns a result has got an answer of /collections.
  collections-got :
      (c : Fetched (Dict InfoBlock)) (fs : Faults) (r : BuildResult)
      → (after_collections api only force now arrive c db fs).result ≡ some r
      → (m : Dict InfoBlock) × (c ≡ got m)
  unfolding after_collections refused
  collections-got unreachable fs r h = absurd (ground arith)
  collections-got malformed fs r h = absurd (ground arith)
  collections-got (got m) fs r h = (m, refl)

  abbrev sets : List SetInfo
  sets = selected api only

  abbrev unmoved : SetInfo → Bool
  unmoved = is_current force (upstream api.last_modified) (stamps db)

  abbrev skipped_names : List Str
  skipped_names = set_prefixes (keep unmoved sets)

  abbrev ran : Faults → Progress
  ran fs = drain now (arrivals api only force now arrive db) (start api only force now arrive db fs)

  settled-ran :
      (fs : Faults) (k : Str)
      → count k skipped_names + settled k (ran fs) ≡ count k (set_prefixes sets)
  unfolding arrivals start begin todo count
  settled-ran fs k =
      let times = upstream api.last_modified in
      let moved = keep (λ s. not (unmoved s)) sets in
      omega (
        arith,
        settled-drain k now (arrivals api only force now arrive db)
            (start api only force now arrive db fs),
        count-Permᴰ k (order (map (fetch api.collection) (map (job times) moved))),
        count-fetch k api.collection times moved,
        count-keep-not k unmoved sets,
      )

  accounted-ran :
      (fs : Faults)
      → let r = (ran fs).result in
        (r.skipped + length r.refreshed + length r.failed ≡ r.sets)
        × (r.skipped ≡ length skipped_names)
        × (r.sets ≡ length sets)
  unfolding arrivals start begin todo skipped
  accounted-ran fs =
      let times = upstream api.last_modified in
      let moved = keep (λ s. not (unmoved s)) sets in
      let todo = map (fetch api.collection) (map (job times) moved) in
      let first = start api only force now arrive db fs in
      omega (
        arith,
        drain-counts now (arrivals api only force now arrive db) first,
        accounted-drain now (arrivals api only force now arrive db) first,
        length-Permᴰ (order todo),
        length-map-fetch api times moved,
        length-keep-not unmoved sets,
        length-set_prefixes (keep unmoved sets),
      )

  has-sets :
      (m : Dict InfoBlock) (k : Str)
      → api.collections ≡ got m
      → (count k (set_prefixes sets) ≡ (if takes only k then count k (keys m) else 0))
        × (has k (set_prefixes sets) ≡ (has k (keys m) && takes only k))
  unfolding selected
  has-sets m k e =
      let c : count k (set_prefixes sets) ≡ (if takes only k then count k (keys m) else 0) = rw e (
        count-select k only (parse_sets m)
        ∙ ap (λ n. if takes only k then n else 0) (count-parse_sets k m)) in
      (c, ground (arith, c, has_of-count k (set_prefixes sets), has_of-count k (keys m)))

  has-skipped_names :
      (k : Str)
      → has k skipped_names
        ≡ (has k (set_prefixes sets) && is_same force (upstream api.last_modified) (stamps db) k)
  unfolding is_current
  has-skipped_names k = has-keep k (is_same force (upstream api.last_modified) (stamps db)) sets

  Accounts-ran :
      (m : Dict InfoBlock) (fs : Faults) (r : BuildResult)
      → api.collections ≡ got m
      → (finish (length sets) (ran fs)).result ≡ some r
      → Accounts api only force db m r
  Accounts-ran m fs r e h =
      let (s, t, l, f) = finish_counts (length sets) (ran fs) r h in
      let (a, b, _) = accounted-ran fs in
      record {
        names = skipped_names;
        total = omega (arith, s, t, l, f, a);
        skips = s ∙ b;
        unchanged = λ k.
            let (_, g) = has-sets m k e in
            let w = has-skipped_names k in
            (
              λ q. (
                ground (arith, q, g, w),
                ground (arith, q, g, w),
                is_same→IsUnchanged api force db k (ground (arith, q, g, w)),
              ),
              λ (x, y, u).
                  let v = IsUnchanged→is_same api force db k u in ground (arith, g, w, x, y, v),
            );
        once = λ k.
            let (c, _) = has-sets m k e in
            omega (arith, c, settled-finish (length sets) (ran fs) r h k, settled-ran fs k);
      }

-- Whatever fails and in whatever order the fetches finish, a result that Build returns accounts for the
-- sets of the answer of /collections: there are sets that it skipped, as many as it counts, namely the
-- chosen ones that are unchanged; the skipped, refreshed and failed sets together are the chosen sets of
-- the answer, each as often as there (that is once), and no other set. They add up to the number of sets
-- that it reports, and no error is reported exactly if at most a tenth of them failed. A set is chosen
-- if the selection is empty or names it.
pub build-Accounts :
    (api : Api) (only : List Str) (force : Bool) (now : ℕ) (arrive : List Arrival → List Arrival)
    → ((xs : List Arrival) → Permᴰ (arrive xs) xs)
    → (db : Db) (fs : Faults) (r : BuildResult)
    → (build api only force now arrive db fs).result ≡ some r
    → ((m : Dict InfoBlock) × (api.collections ≡ got m) × Accounts api only force db m r)
      × (((build api only force now arrive db fs).error ≡ none) ↔ (10 * length r.failed ≤ r.sets))
build-Accounts api only force now arrive order db fs r h =
    let fin = build-Finished api only force now arrive db fs r h in
    let n = length (sets api only force now arrive order db) in
    let p = ran api only force now arrive order db fin.faults in
    let g : (finish n p).result ≡ some r = subst (λ (b : Built). b.result ≡ some r) fin.ends h in
    let (m, e) =
      collections-got api only force now arrive order db api.collections fs r (unfold build in h) in
    let (_, _, s) = accounted-ran api only force now arrive order db fin.faults in
    let first = start api only force now arrive db fin.faults in
    (
      (m, e, Accounts-ran api only force now arrive order db m fin.faults r e g),
      subst (λ (b : Built). (b.error ≡ none) ↔ (10 * length r.failed ≤ r.sets)) (sym fin.ends)
          (finish_error n p r g
            (drain-Remembers now (arrivals api only force now arrive db) first
              (unfold start begin in λ _. refl))
            s),
    )
