-- ===== src/Iconindex/Build/Unchanged.antt =====
-- When Build skips a set.
use iconify_cli.Base.{
  ℕ, ◌≡◌, refl, ◌≢◌, sym, ap, ◌∙◌, Bool, true, false, not, ◌&&◌, ◌==◌, Option, none, some, List, [],
  ◌∷◌, arith, keep,
}
use iconify_cli.Base.Strings.{Str, str_eq_iff, has}
use iconify_cli.Base.Dict.{Dict, lookup}
use iconify_cli.Iconindex.Db.{SetInfo, Db}
use iconify_cli.Iconindex.Replace.Frame.{stamp}
use iconify_cli.Iconindex.Replace.Sets.{stamps, lookup-stamps}
use iconify_cli.Iconindex.Build.{Api, Fetched, unreachable, malformed, got, or_zero, upstream}
use iconify_cli.Iconindex.Build.Counts.{set_prefixes}

-- The set has the same timestamp, other than 0, upstream and in the tables, and the build does not
-- force a refresh.
abbrev pub IsUnchanged : Api → Bool → Db → Str → Type 0
IsUnchanged api force db k =
    (force ≡ false)
    × ((upstream_times : Dict ℕ) × (n : ℕ) × (api.last_modified ≡ got upstream_times)
        × (n ≢ 0)
        × (lookup k upstream_times ≡ some n)
        × (stamp k db.icon_sets ≡ some n))

-- is_current, of the prefix of a set.
abbrev pub is_same : Bool → Dict ℕ → Dict ℕ → Str → Bool
is_same force last_mod stored k =
    let lm = or_zero (lookup k last_mod) in
    not force && (not (lm == 0) && or_zero (lookup k stored) == lm)

pub has-keep :
    (k : Str) (f : Str → Bool) (sets : List SetInfo)
    → has k (set_prefixes (keep (λ s. f s.prefix) sets)) ≡ (has k (set_prefixes sets) && f k)
unfolding has set_prefixes
has-keep k f [] = refl
has-keep k f (s ∷ sets) = ground (arith, has-keep k f sets, str_eq_iff k s.prefix)

times-cases :
    (k : Str) (times : Fetched (Dict ℕ)) (n : ℕ)
    → lookup k (upstream times) ≡ some n
    → (t : Dict ℕ) × (times ≡ got t) × (lookup k t ≡ some n)
unfolding upstream lookup
times-cases k unreachable n h = absurd (ground arith)
times-cases k malformed n h = absurd (ground arith)
times-cases k (got t) n h = (t, refl, h)

or_zero-some : (o : Option ℕ) (n : ℕ) → or_zero o ≡ n → n ≢ 0 → o ≡ some n
unfolding or_zero
or_zero-some none n h z = absurd (z (sym h))
or_zero-some (some m) n h z = ap (λ x. some x) h

module _ (api : Api) (force : Bool) (db : Db) (k : Str) where
  pub is_same→IsUnchanged :
      is_same force (upstream api.last_modified) (stamps db) k ≡ true → IsUnchanged api force db k
  is_same→IsUnchanged h =
      let lm = or_zero (lookup k (upstream api.last_modified)) in
      let f : force ≡ false = ground (arith, h) in
      let z : lm ≢ 0 = λ e. ground (arith, h, e) in
      let w : or_zero (lookup k (stamps db)) ≡ lm = ground (arith, h) in
      let (t, e, u) =
        times-cases k api.last_modified lm
          (or_zero-some (lookup k (upstream api.last_modified)) lm refl z) in
      (f, (t, lm, e, z, u, sym (lookup-stamps k db) ∙ or_zero-some (lookup k (stamps db)) lm w z))

  pub IsUnchanged→is_same :
      IsUnchanged api force db k → is_same force (upstream api.last_modified) (stamps db) k ≡ true
  unfolding upstream or_zero
  IsUnchanged→is_same (f, (t, n, e, z, u, s)) =
      let v : lookup k (stamps db) ≡ some n = lookup-stamps k db ∙ s in
      rw (e, v, u) (ground (arith, f, z))
