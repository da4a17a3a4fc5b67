-- ===== src/Iconindex/Build.antt =====
-- internal/iconindex/index.go: Build mirrors the corpus. The fetches run side by side and hand their
-- outcomes over in the order in which they finish, which `arrive` decides; the writes are made one
-- by one in that order. The context, the progress callback, the number of workers and the duration
-- are left out: they change no result.
pub mod Loop
pub mod Order
pub mod Counts
pub mod Unchanged
pub mod Totals
pub mod Report
pub mod Content
pub mod Finished
pub mod Icons
pub mod Stamps
pub mod Repeat
use mathlib.Core.List.{map}
use iconify_cli.Base.{
  ℕ, suc, ◌+◌, ◌/◌, Bool, true, false, not, ◌&&◌, ltb, ◌==◌, Option, none, some, List, [], ◌∷◌,
  ◌++◌, keep, length, if◌then◌else◌,
}
use iconify_cli.Base.Strings.{Str, has}
use iconify_cli.Base.Sort.{sort_strings}
use iconify_cli.Base.Dict.{Dict, lookup}
use iconify_cli.Iconindex.Collection.{IconRow, CollectionPayload, parse_collection}
use iconify_cli.Iconindex.Db.{SetInfo, Db, Error, Faults, Outcome, done, failed, Ran}
use iconify_cli.Iconindex.Replace.{upsert_sets, replace_icons, stored_last_modified}
use iconify_cli.Iconindex.Sets.{InfoBlock, parse_sets}

-- What a request gives: no answer, an answer that does not decode, or the decoded answer.
pub data Fetched {ℓ} (A : Type ℓ) : Type ℓ where
  unreachable malformed : Fetched A
  got : A → Fetched A

-- The Iconify API, for the length of one build.
pub record Api : Type 0 where
  pub collections : Fetched (Dict InfoBlock)
  pub last_modified : Fetched (Dict ℕ)
  pub collection : Str → Fetched CollectionPayload

pub data BuildError : Type 0 where
  fetching_collections parsing_collections no_sets : BuildError
  store : Error → BuildError
  fetching : Str → BuildError
  writing : Str → Error → BuildError
  -- How many of how many sets failed, and the first of the errors.
  indexing_failed : ℕ → ℕ → BuildError → BuildError

pub record BuildResult : Type 0 where
  pub sets : ℕ
  pub icons : ℕ
  pub refreshed : List Str
  pub skipped : ℕ
  pub failed : List Str

-- A set to fetch, with its upstream timestamp.
pub record Job : Type 0 where
  pub set : SetInfo
  pub lm : ℕ

-- What a fetch hands over: the rows, or none after an error.
pub record Arrival : Type 0 where
  pub prefix : Str
  pub rows : Option (List IconRow)
  pub lm : ℕ

-- if len(opts.Only) > 0 { ... }
unfoldable pub select : List Str → List SetInfo → List SetInfo
select [] sets = sets
select (p ∷ only) sets = keep (λ s. has s.prefix (p ∷ only)) sets

-- A missing timestamp reads as 0.
unfoldable pub or_zero : Option ℕ → ℕ
or_zero none = 0
or_zero (some n) = n

unfoldable pub upstream : Fetched (Dict ℕ) → Dict ℕ
upstream unreachable = []
upstream malformed = []
upstream (got m) = m

-- Whether the set has not changed since it was indexed.
unfoldable pub is_current : Bool → Dict ℕ → Dict ℕ → SetInfo → Bool
is_current force last_mod stored s =
    let lm = or_zero (lookup s.prefix last_mod) in
    not force && (not (lm == 0) && or_zero (lookup s.prefix stored) == lm)

unfoldable pub job : Dict ℕ → SetInfo → Job
job last_mod s = record { set = s; lm = or_zero (lookup s.prefix last_mod) }

unfoldable pub fetch : (Str → Fetched CollectionPayload) → Job → Arrival
fetch collection j = record {
  prefix = j.set.prefix;
  rows = elim (collection j.set.prefix) [
    | unreachable ↦ none
    | malformed ↦ none
    | got p ↦ some (parse_collection j.set.prefix p)
  ];
  lm = j.lm;
}

-- The variables of the loop over the results.
pub record Progress : Type 0 where
  pub result : BuildResult
  pub first_error : Option BuildError
  pub db : Db
  pub faults : Faults

unfoldable pub first : Option BuildError → BuildError → Option BuildError
first none e = some e
first (some e) _ = some e

unfoldable pub fail : Str → BuildError → Progress → Progress
fail prefix e p = record p {
  result = record p.result { failed = p.result.failed ++ prefix ∷ [] };
  first_error = first p.first_error e;
}

-- The result of a write.
unfoldable pub written : Str → List IconRow → Ran → Progress → Progress
written prefix rows ran p = elim ran.error [
  | some e ↦ fail prefix (writing prefix e) (record p { db = ran.db; faults = ran.faults })
  | none ↦ record p {
    result = record p.result {
      refreshed = p.result.refreshed ++ prefix ∷ [];
      icons = p.result.icons + length rows;
    };
    db = ran.db;
    faults = ran.faults;
  }
]

unfoldable pub arrived : ℕ → Arrival → Progress → Progress
arrived now a p = elim a.rows [
  | none ↦ fail a.prefix (fetching a.prefix) p
  | some rows ↦ written a.prefix rows (replace_icons now a.prefix rows a.lm p.db p.faults) p
]

unfoldable pub drain : ℕ → List Arrival → Progress → Progress
drain now [] p = p
drain now (a ∷ arrivals) p = drain now arrivals (arrived now a p)

-- What Build returns, with the tables and the faults that are left.
pub record Built : Type 0 where
  pub result : Option BuildResult
  pub error : Option BuildError
  pub db : Db
  pub faults : Faults

unfoldable pub refused : BuildError → Db → Faults → Built
refused e db fs = record { result = none; error = some e; db = db; faults = fs }

-- A partial index is worse than a loud failure.
unfoldable pub finish : ℕ → Progress → Built
finish sets p =
    let sorted = record p.result {
      refreshed = sort_strings p.result.refreshed;
      failed = sort_strings p.result.failed;
    } in
    let succeeded : Built = record {
      result = some sorted;
      error = none;
      db = p.db;
      faults = p.faults;
    } in
    elim p.first_error [
      | none ↦ succeeded
      | some e ↦
          if ltb (sets / 10) (length p.result.failed)
          then record {
            result = some p.result;
            error = some (indexing_failed (length p.result.failed) sets e);
            db = p.db;
            faults = p.faults;
          }
          else succeeded
    ]

-- The jobs, and how many sets are skipped.
unfoldable pub todo : Bool → Dict ℕ → Dict ℕ → List SetInfo → List Job
todo force last_mod stored sets =
    map (job last_mod) (keep (λ s. not (is_current force last_mod stored s)) sets)

unfoldable pub skipped : Bool → Dict ℕ → Dict ℕ → List SetInfo → ℕ
skipped force last_mod stored sets = length (keep (is_current force last_mod stored) sets)

-- The variables before the first arrival.
unfoldable pub begin : Bool → Dict ℕ → Dict ℕ → List SetInfo → Db → Faults → Progress
begin force last_mod stored sets db fs = record {
  result = record {
    sets = length sets;
    icons = 0;
    refreshed = [];
    skipped = skipped force last_mod stored sets;
    failed = [];
  };
  first_error = none;
  db = db;
  faults = fs;
}

module _ (api : Api) (only : List Str) (force : Bool) (now : ℕ)
    (arrive : List Arrival → List Arrival) where
  -- After the sets have been written, or not.
  unfoldable pub refresh : Dict ℕ → List SetInfo → Option Error → Db → Faults → Built
  refresh stored sets (some e) db fs = refused (store e) db fs
  refresh stored sets none db fs =
      let last_mod = upstream api.last_modified in
      finish (length sets) (
        drain now (arrive (map (fetch api.collection) (todo force last_mod stored sets)))
          (begin force last_mod stored sets db fs))

  -- After the stored timestamps have been read.
  unfoldable pub after_reading : List SetInfo → Db → Outcome (Dict ℕ) → Built
  after_reading sets db (failed e fs) = refused (store e) db fs
  after_reading sets db (done stored db' fs) =
      let ran = upsert_sets now sets db' fs in refresh stored sets ran.error ran.db ran.faults

  unfoldable pub mirror : List SetInfo → Db → Faults → Built
  mirror [] db fs = refused no_sets db fs
  mirror (s ∷ sets) db fs = after_reading (s ∷ sets) db (stored_last_modified db fs)

  unfoldable pub after_collections : Fetched (Dict InfoBlock) → Db → Faults → Built
  after_collections unreachable db fs = refused fetching_collections db fs
  after_collections malformed db fs = refused parsing_collections db fs
  after_collections (got m) db fs = mirror (select only (parse_sets m)) db fs

  unfoldable pub build : Db → Faults → Built
  build db fs = after_collections api.collections db fs
