-- ===== src/Iconindex/Build/Finished.antt =====
-- A build that returns a result has gone through the loop, from the tables with the sets written.
use mathlib.Core.List.{map}
use iconify_cli.Base.{
  ℕ, ◌≡◌, refl, Bool, Option, none, some, List, [], ◌∷◌, arith, inl, inr, length,
}
use iconify_cli.Base.Strings.{Str, has}
use iconify_cli.Base.Sort.{has-sort}
use iconify_cli.Base.Dict.{Dict}
use iconify_cli.Iconindex.Collection.{IconRow, CollectionPayload, parse_collection}
use iconify_cli.Iconindex.Db.{SetInfo, Db, Error, Faults, Outcome, done, failed}
use iconify_cli.Iconindex.Replace.{upsert_sets, stored_last_modified}
use iconify_cli.Iconindex.Replace.Effect.{Ends}
use iconify_cli.Iconindex.Replace.Atomic.{AllOrNothing}
use iconify_cli.Iconindex.Replace.Sets.{
  upserted, upsert_sets_atomic, stamps, Ends-stored_last_modified,
}
use iconify_cli.Iconindex.Sets.{InfoBlock, parse_sets}
use iconify_cli.Iconindex.Build.{
  Fetched, unreachable, malformed, got, Api, BuildResult, Arrival, fetch, todo, select, upstream,
  Progress, begin, drain, Built, refused, finish, refresh, after_reading, mirror, after_collections,
  build,
}

-- The sets that a build works on.
unfoldable pub selected : Api → List Str → List SetInfo
selected api only = elim api.collections [
  | unreachable ↦ []
  | malformed ↦ []
  | got m ↦ select only (parse_sets m)
]

-- The rows that a set's collection parses to.
unfoldable pub fetched_rows : Fetched CollectionPayload → Str → List IconRow
fetched_rows unreachable prefix = []
fetched_rows malformed prefix = []
fetched_rows (got p) prefix = parse_collection prefix p

pub has-refreshed-finish :
    (n : ℕ) (p : Progress) (r : BuildResult) (q : Str)
    → (finish n p).result ≡ some r
    → (has q r.refreshed ≡ has q p.result.refreshed) × (has q r.failed ≡ has q p.result.failed)
unfolding finish
has-refreshed-finish n p r q h =
    ground (arith, has-sort q p.result.refreshed, has-sort q p.result.failed)

module _ (api : Api) (only : List Str) (force : Bool) (now : ℕ)
    (arrive : List Arrival → List Arrival) where
  unfoldable pub start : Db → Faults → Progress
  start db fs =
      let sets = selected api only in
      begin force (upstream api.last_modified) (stamps db) sets (upserted now sets db) fs

  unfoldable pub arrivals : Db → List Arrival
  arrivals db = arrive (
      map (fetch api.collection)
        (todo force (upstream api.last_modified) (stamps db) (selected api only)))

  -- The build came to the end of its loop.
  pub record Finished (db : Db) (b : Built) : Type 0 where
    pub faults : Faults
    pub ends : b ≡ finish (length (selected api only)) (drain now (arrivals db) (start db faults))

  refresh-Finished :
      (db : Db) (sets : List SetInfo) (o : Option Error) (d : Db) (fs : Faults) (r : BuildResult)
      → sets ≡ selected api only
      → AllOrNothing db (upserted now sets db) (record { error = o; db = d; faults = fs })
      → (refresh api only force now arrive (stamps db) sets o d fs).result ≡ some r
      → Finished db (refresh api only force now arrive (stamps db) sets o d fs)
  unfolding refresh refused start arrivals
  refresh-Finished db sets (some e) d fs r s w h = cc
  refresh-Finished db sets none d fs r s (inl (e, w)) h = record {
    faults = fs;
    ends = rw (w, s) refl;
  }
  refresh-Finished db sets none d fs r s (inr (x, e, w)) h = cc

  after_reading-Finished :
      (db : Db) (sets : List SetInfo) (o : Outcome (Dict ℕ)) (r : BuildResult)
      → sets ≡ selected api only
      → Ends (stamps db) db o
      → (after_reading api only force now arrive sets db o).result ≡ some r
      → Finished db (after_reading api only force now arrive sets db o)
  unfolding after_reading refused
  after_reading-Finished db sets (failed e fs) r s g h = cc
  after_reading-Finished db sets (done stored db' fs) r s g h =
      let ran = upsert_sets now sets db fs in
      rw (g.0, g.1)
        (refresh-Finished db sets ran.error ran.db ran.faults r s
          (upsert_sets_atomic now sets db fs) (rw (g.0, g.1) at h))

  mirror-Finished :
      (db : Db) (fs : Faults) (sets : List SetInfo) (r : BuildResult)
      → sets ≡ selected api only
      → (mirror api only force now arrive sets db fs).result ≡ some r
      → Finished db (mirror api only force now arrive sets db fs)
  unfolding mirror refused
  mirror-Finished db fs [] r s h = cc
  mirror-Finished db fs (x ∷ sets) r s h =
      after_reading-Finished db (x ∷ sets) (stored_last_modified db fs) r s
        (Ends-stored_last_modified db fs) h

  after_collections-Finished :
      (db : Db) (fs : Faults) (c : Fetched (Dict InfoBlock)) (r : BuildResult)
      → c ≡ api.collections
      → (after_collections api only force now arrive c db fs).result ≡ some r
      → Finished db (after_collections api only force now arrive c db fs)
  unfolding after_collections refused selected
  after_collections-Finished db fs unreachable r e h = cc
  after_collections-Finished db fs malformed r e h = cc
  after_collections-Finished db fs (got m) r e h =
      mirror-Finished db fs (select only (parse_sets m)) r (ground (arith, e)) h

  pub build-Finished :
      (db : Db) (fs : Faults) (r : BuildResult)
      → (build api only force now arrive db fs).result ≡ some r
      → Finished db (build api only force now arrive db fs)
  unfolding build
  build-Finished db fs r h = after_collections-Finished db fs api.collections r refl h
