-- ===== src/Iconindex/Build/Totals.antt =====
-- What the end of Build makes of the loop's result, and lengths of the lists that it goes through.
use iconify_cli.Base.{
  ℕ, suc, ◌+◌, ◌*◌, ◌/◌, ◌≤◌, ◌≡◌, refl, ap, ◌∙◌, ◌↔◌, Bool, false, not, ◌==◌, ltb, none, some,
  List, [], ◌∷◌, arith, length, keep, map, Option-cases, inl, inr,
}
use iconify_cli.Base.Strings.{Str, str_ltb, has}
use iconify_cli.Base.Sort.{insert, sort, sort_strings}
use iconify_cli.Base.Dict.{Dict}
use iconify_cli.Iconindex.Db.{SetInfo}
use iconify_cli.Iconindex.Build.{Api, BuildResult, fetch, job, Progress, finish}
use iconify_cli.Iconindex.Build.Loop.{Remembers}
use iconify_cli.Iconindex.Build.Counts.{count, count-sort, set_prefixes, settled}

pub length-set_prefixes : (sets : List SetInfo) → length (set_prefixes sets) ≡ length sets
unfolding set_prefixes
length-set_prefixes [] = refl
length-set_prefixes (s ∷ sets) = ap suc (length-set_prefixes sets)

pub has_of-count : (k : Str) (xs : List Str) → has k xs ≡ not (count k xs == 0)
unfolding has count
has_of-count k [] = refl
has_of-count k (x ∷ xs) = ground (arith, has_of-count k xs)

length-insert : (x : Str) (ys : List Str) → length (insert str_ltb x ys) ≡ suc (length ys)
unfolding insert
length-insert x [] = refl
length-insert x (y ∷ ys) = ground (arith, length-insert x ys)

length-sort : (xs : List Str) → length (sort_strings xs) ≡ length xs
unfolding sort_strings sort
length-sort [] = refl
length-sort (x ∷ xs) = length-insert x (sort_strings xs) ∙ ap suc (length-sort xs)

pub length-map-fetch :
    (api : Api) (last_mod : Dict ℕ) (sets : List SetInfo)
    → length (map (fetch api.collection) (map (job last_mod) sets)) ≡ length sets
length-map-fetch api last_mod [] = refl
length-map-fetch api last_mod (s ∷ sets) = ap suc (length-map-fetch api last_mod sets)

pub length-keep-not :
    (f : SetInfo → Bool) (sets : List SetInfo)
    → length (keep f sets) + length (keep (λ s. not (f s)) sets) ≡ length sets
length-keep-not f [] = omega arith
length-keep-not f (s ∷ sets) = ground (arith, length-keep-not f sets)

module _ (n : ℕ) (p : Progress) (r : BuildResult) (h : (finish n p).result ≡ some r) where
  -- The result is that of the loop, but for the order of its lists.
  pub finish_counts :
      (r.skipped ≡ p.result.skipped)
      × (r.sets ≡ p.result.sets)
      × (length r.refreshed ≡ length p.result.refreshed)
      × (length r.failed ≡ length p.result.failed)
  unfolding finish
  finish_counts = ground (arith, h, length-sort p.result.refreshed, length-sort p.result.failed)

  pub settled-finish : (k : Str) → count k r.refreshed + count k r.failed ≡ settled k p
  unfolding finish
  settled-finish k =
      ground (arith, h, count-sort k p.result.refreshed, count-sort k p.result.failed)

  -- No error is reported exactly if at most a tenth of the sets failed.
  pub finish_error :
      Remembers p
      → p.result.sets ≡ n
      → ((finish n p).error ≡ none) ↔ (10 * length r.failed ≤ r.sets)
  finish_error m s =
      let (_, t, _, l) = finish_counts in
      elim (Option-cases p.first_error) [
        | inl e ↦ (λ _. omega (arith, l, ap length (m e)), λ _. unfold finish in ground (arith, e))
        | inr (x, e) ↦ (
          λ q.
              let w : ltb (n / 10) (length p.result.failed) ≡ false =
                unfold finish in ground (arith, e, q) in
              ground (arith, w, l, t, s),
          λ q.
              let w : ltb (n / 10) (length p.result.failed) ≡ false = ground (arith, q, l, t, s) in
              unfold finish in ground (arith, e, w),
        )
      ]
