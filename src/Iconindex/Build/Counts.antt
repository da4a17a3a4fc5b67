-- ===== src/Iconindex/Build/Counts.antt =====
-- How often a set stands in the lists that Build goes through.
use mathlib.Core.List.{Permᴰ}
use iconify_cli.Base.{
  ℕ, ◌+◌, ◌≡◌, refl, ap, ◌∙◌, Bool, true, not, List, [], ◌∷◌, ◌++◌, arith, keep, map, if◌then◌else◌,
  inl, inr,
}
use iconify_cli.Base.Strings.{Str, str_eq, str_eq_iff, str_ltb, has}
use iconify_cli.Base.Sort.{insert, sort, sort_strings}
use iconify_cli.Base.Dict.{Dict, keys}
use iconify_cli.Iconindex.Db.{SetInfo}
use iconify_cli.Iconindex.Collection.{CollectionPayload}
use iconify_cli.Iconindex.Sets.{InfoBlock, set_info, set_infos, set_ltb, parse_sets}
use iconify_cli.Iconindex.Build.{Fetched, Arrival, Progress, select, fetch, job, arrived, drain}
use iconify_cli.Iconindex.Build.Loop.{arrived-cases, prefixes}

-- How often `k` stands in the list.
unfoldable pub count : Str → List Str → ℕ
count k [] = 0
count k (x ∷ xs) = (if str_eq k x then 1 else 0) + count k xs

pub count-append : (k : Str) (xs ys : List Str) → count k (xs ++ ys) ≡ count k xs + count k ys
unfolding count
count-append k [] ys = omega arith
count-append k (x ∷ xs) ys = omega (arith, count-append k xs ys)

count-insert : (k x : Str) (ys : List Str) → count k (insert str_ltb x ys) ≡ count k (x ∷ ys)
unfolding insert count
count-insert k x [] = refl
count-insert k x (y ∷ ys) = ground (arith, count-insert k x ys)

pub count-sort : (k : Str) (xs : List Str) → count k (sort_strings xs) ≡ count k xs
unfolding sort_strings sort count
count-sort k [] = refl
count-sort k (x ∷ xs) = omega (arith, count-insert k x (sort_strings xs), count-sort k xs)

-- The prefixes of the sets.
unfoldable pub set_prefixes : List SetInfo → List Str
set_prefixes [] = []
set_prefixes (s ∷ sets) = s.prefix ∷ set_prefixes sets

pub count-keep-not :
    (k : Str) (f : SetInfo → Bool) (sets : List SetInfo)
    → count k (set_prefixes (keep f sets)) + count k (set_prefixes (keep (λ s. not (f s)) sets))
      ≡ count k (set_prefixes sets)
unfolding count set_prefixes
count-keep-not k f [] = omega arith
count-keep-not k f (s ∷ sets) = ground (arith, count-keep-not k f sets)

pub count-fetch :
    (k : Str) (collection : Str → Fetched CollectionPayload) (last_mod : Dict ℕ)
    (sets : List SetInfo)
    → count k (prefixes (map (fetch collection) (map (job last_mod) sets)))
      ≡ count k (set_prefixes sets)
unfolding count set_prefixes prefixes fetch job
count-fetch k collection last_mod [] = refl
count-fetch k collection last_mod (s ∷ sets) =
    ap (λ n. (if str_eq k s.prefix then 1 else 0) + n) (count-fetch k collection last_mod sets)

pub count-Permᴰ :
    (k : Str) {xs ys : List Arrival} → Permᴰ xs ys → count k (prefixes xs) ≡ count k (prefixes ys)
unfolding count prefixes
count-Permᴰ k Permᴰ.nil = refl
count-Permᴰ k (Permᴰ.cons e p) = ground (arith, ap (λ (x : Arrival). x.prefix) e, count-Permᴰ k p)
count-Permᴰ k (Permᴰ.swap {a = a} {b = b} e f) =
    ground (arith, ap (λ (x : Arrival). x.prefix) e, ap (λ (x : Arrival). x.prefix) f)
count-Permᴰ k (Permᴰ.trans p q) = count-Permᴰ k p ∙ count-Permᴰ k q

-- How often `k` has been refreshed or has failed.
abbrev pub settled : Str → Progress → ℕ
settled k p = count k p.result.refreshed + count k p.result.failed

pub settled-drain :
    (k : Str) (now : ℕ) (arrivals : List Arrival) (p : Progress)
    → settled k (drain now arrivals p) ≡ settled k p + count k (prefixes arrivals)
unfolding drain prefixes count
settled-drain k now [] p = omega arith
settled-drain k now (a ∷ arrivals) p =
    let rest = settled-drain k now arrivals (arrived now a p) in
    elim (arrived-cases now a p) [
      | inl w ↦ omega (
        arith,
        rest,
        ap (count k) w.refreshed,
        ap (count k) w.failed,
        count-append k p.result.refreshed (a.prefix ∷ []),
      )
      | inr f ↦ omega (
        arith,
        rest,
        ap (count k) f.refreshed,
        ap (count k) f.failed,
        count-append k p.result.failed (a.prefix ∷ []),
      )
    ]

-- Whether a selection takes a set: it takes all, or names it.
abbrev pub takes : List Str → Str → Bool
takes [] k = true
takes (p ∷ only) k = has k (p ∷ only)

count-keep :
    (k : Str) (f : Str → Bool) (sets : List SetInfo)
    → count k (set_prefixes (keep (λ s. f s.prefix) sets))
      ≡ (if f k then count k (set_prefixes sets) else 0)
unfolding count set_prefixes
count-keep k f [] = ground arith
count-keep k f (s ∷ sets) = ground (arith, count-keep k f sets, str_eq_iff k s.prefix)

pub count-select :
    (k : Str) (only : List Str) (sets : List SetInfo)
    → count k (set_prefixes (select only sets))
      ≡ (if takes only k then count k (set_prefixes sets) else 0)
unfolding select
count-select k [] sets = refl
count-select k (p ∷ only) sets = count-keep k (λ j. has j (p ∷ only)) sets

count-insert_set :
    (k : Str) (s : SetInfo) (sets : List SetInfo)
    → count k (set_prefixes (insert set_ltb s sets)) ≡ count k (set_prefixes (s ∷ sets))
unfolding insert count set_prefixes
count-insert_set k s [] = refl
count-insert_set k s (t ∷ sets) = ground (arith, count-insert_set k s sets)

count-sort_sets :
    (k : Str) (sets : List SetInfo)
    → count k (set_prefixes (sort set_ltb sets)) ≡ count k (set_prefixes sets)
unfolding sort count set_prefixes
count-sort_sets k [] = refl
count-sort_sets k (s ∷ sets) =
    omega (arith, count-insert_set k s (sort set_ltb sets), count-sort_sets k sets)

count-set_infos :
    (k : Str) (m : Dict InfoBlock) → count k (set_prefixes (set_infos m)) ≡ count k (keys m)
unfolding set_infos set_info keys count set_prefixes
count-set_infos k [] = refl
count-set_infos k ((prefix, b) ∷ m) =
    ap (λ n. (if str_eq k prefix then 1 else 0) + n) (count-set_infos k m)

pub count-parse_sets :
    (k : Str) (m : Dict InfoBlock) → count k (set_prefixes (parse_sets m)) ≡ count k (keys m)
unfolding parse_sets
count-parse_sets k m = count-sort_sets k (set_infos m) ∙ count-set_infos k m
