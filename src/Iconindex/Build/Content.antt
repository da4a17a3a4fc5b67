-- ===== src/Iconindex/Build/Content.antt =====
-- What a build leaves in the tables.
use mathlib.Core.List.{Permᴰ, map}
use iconify_cli.Base.{
  ℕ, ◌≡◌, refl, sym, ◌∙◌, subst, Bool, Option, none, some, List, [], ◌∷◌, arith, inl, inr,
}
use iconify_cli.Base.Strings.{Str}
use iconify_cli.Base.Dict.{Dict}
use iconify_cli.Iconindex.Collection.{IconRow, CollectionPayload, parse_collection}
use iconify_cli.Iconindex.Collection.Parse.{parse_collection-Distinct, parse_collection-HasPrefix}
use iconify_cli.Iconindex.Db.{SetInfo, Db, Error, Faults, Outcome, done, failed}
use iconify_cli.Iconindex.Replace.{upsert_sets}
use iconify_cli.Iconindex.Replace.Effect.{Ends, replaced}
use iconify_cli.Iconindex.Replace.Mirror.{IsMirror, replaced-IsMirror}
use iconify_cli.Iconindex.Replace.Sets.{
  upserted, upsert_sets_atomic, stamps, Ends-stored_last_modified,
}
use iconify_cli.Iconindex.Sets.{InfoBlock, parse_sets}
use iconify_cli.Iconindex.Build.{
  Fetched, unreachable, malformed, got, Api, Arrival, fetch, todo, select, upstream, Progress,
  begin, refused, finish, refresh, after_reading, mirror, after_collections, build,
}
use iconify_cli.Iconindex.Build.Loop.{Refreshes, drain_inv}
use iconify_cli.Iconindex.Build.Order.{All-Permᴰ, IsFetched, fetch-IsFetched}

-- The rows of an arrival come from the collection of its set.
pub fetched_payload :
    (c : Fetched CollectionPayload) (prefix : Str) {rows : List IconRow}
    → elim c [ unreachable ↦ none | malformed ↦ none | got p ↦ some (parse_collection prefix p) ]
      ≡ some rows
    → (p : CollectionPayload) × (c ≡ got p) × (rows ≡ parse_collection prefix p)
fetched_payload unreachable prefix h = ground arith
fetched_payload malformed prefix h = ground arith
fetched_payload (got p) prefix h = (p, refl, ground arith)

pub db-finish : (n : ℕ) (p : Progress) → (finish n p).db ≡ p.db
unfolding finish
db-finish n p = ground arith

module _ (api : Api) (only : List Str) (force : Bool) (now : ℕ)
    (arrive : List Arrival → List Arrival)
    (order : (xs : List Arrival) → Permᴰ (arrive xs) xs) where
  -- A property of the tables that each write of a build keeps.
  module _ (P : Db → Type 0)
      (keep_upsert : (d : Db) (sets : List SetInfo) → P d → P (upserted now sets d))
      (keep_replace : (d : Db) (prefix : Str) (p : CollectionPayload) (lm : ℕ)
        → P d
        → P (replaced now prefix (parse_collection prefix p) lm d)) where
    keep_write :
        (a : Arrival) (p q : Progress)
        → IsFetched api.collection a
        → Refreshes now a p q
        → P p.db
        → P q.db
    keep_write a p q f w h =
        let (payload, _, e) =
          fetched_payload (api.collection a.prefix) a.prefix (sym f.rows_of ∙ w.fetched) in
        subst P (sym w.db) (
          subst (λ rows. P (replaced now a.prefix rows a.lm p.db)) (sym e)
            (keep_replace p.db a.prefix payload a.lm h))

    finish_keeps : (n : ℕ) (p : Progress) → P p.db → P (finish n p).db
    finish_keeps n p h = subst P (sym (db-finish n p)) h

    refresh_keeps :
        (stored : Dict ℕ) (sets : List SetInfo) (o : Option Error) (db : Db) (fs : Faults)
        → P db
        → P (refresh api only force now arrive stored sets o db fs).db
    unfolding refresh refused begin
    refresh_keeps stored sets (some e) db fs h = h
    refresh_keeps stored sets none db fs h =
        let jobs = todo force (upstream api.last_modified) stored sets in
        finish_keeps _ _ (
          drain_inv (λ q. P q.db) (IsFetched api.collection) now keep_write
            (λ a p q f w. subst P (sym w.db)) _ _
            (All-Permᴰ (IsFetched api.collection) (order (map (fetch api.collection) jobs))
              (fetch-IsFetched api.collection jobs))
            h)

    upsert_keeps :
        (sets : List SetInfo) (db : Db) (fs : Faults) → P db → P (upsert_sets now sets db fs).db
    upsert_keeps sets db fs h = elim (upsert_sets_atomic now sets db fs) [
      | inl (_, e) ↦ subst P (sym e) (keep_upsert db sets h)
      | inr (_, _, e) ↦ subst P (sym e) h
    ]

    after_reading_keeps :
        (sets : List SetInfo) (db : Db) (o : Outcome (Dict ℕ))
        → Ends (stamps db) db o
        → P db
        → P (after_reading api only force now arrive sets db o).db
    unfolding after_reading refused
    after_reading_keeps sets db (failed e fs) g h = h
    after_reading_keeps sets db (done stored db' fs) g h =
        refresh_keeps stored sets _ _ _ (upsert_keeps sets db' fs (subst P (sym g.1) h))

    mirror_keeps :
        (sets : List SetInfo) (db : Db) (fs : Faults)
        → P db
        → P (mirror api only force now arrive sets db fs).db
    unfolding mirror refused
    mirror_keeps [] db fs h = h
    mirror_keeps (s ∷ sets) db fs h =
        after_reading_keeps (s ∷ sets) db _ (Ends-stored_last_modified db fs) h

    build_keeps :
        (c : Fetched (Dict InfoBlock)) (db : Db) (fs : Faults)
        → P db
        → P (after_collections api only force now arrive c db fs).db
    unfolding after_collections refused
    build_keeps unreachable db fs h = h
    build_keeps malformed db fs h = h
    build_keeps (got m) db fs h = mirror_keeps (select only (parse_sets m)) db fs h

  -- A build that starts from a mirror ends in one, whatever fails on the way: the primary key
  -- holds, and the search index has exactly the visible icons.
  pub build-IsMirror :
      (db : Db) (fs : Faults) → IsMirror db → IsMirror (build api only force now arrive db fs).db
  unfolding build upserted
  build-IsMirror =
      build_keeps IsMirror (λ d sets m. record { keys = m.keys; searchable = m.searchable })
        (λ d prefix p lm.
          replaced-IsMirror now prefix (parse_collection prefix p) lm d
            (parse_collection-HasPrefix prefix p) (parse_collection-Distinct prefix p))
        api.collections
