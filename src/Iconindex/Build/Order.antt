-- ===== src/Iconindex/Build/Order.antt =====
-- The order in which fetches finish is any order of them.
use mathlib.Core.List.{Permᴰ}
use iconify_cli.Base.{
  ◌≡◌, refl, sym, ap, ◌∙◌, subst, List, [], ◌∷◌, arith, length, All, suc, none, some, map,
}
use iconify_cli.Base.Strings.{Str, has}
use iconify_cli.Iconindex.Collection.{CollectionPayload, parse_collection}
use iconify_cli.Iconindex.Build.{Fetched, unreachable, malformed, got, Job, Arrival, fetch}
use iconify_cli.Iconindex.Build.Loop.{prefixes}

module _ {ℓ} {A : Type ℓ} where
  pub All-Permᴰ : (P : A → Type 0) {xs ys : List A} → Permᴰ xs ys → All P ys → All P xs
  All-Permᴰ P Permᴰ.nil h = tt
  All-Permᴰ P (Permᴰ.cons e p) h = (subst P (sym e) h.0, All-Permᴰ P p h.1)
  All-Permᴰ P (Permᴰ.swap e f) h = (subst P (sym e) h.1.0, (subst P (sym f) h.0, h.1.1))
  All-Permᴰ P (Permᴰ.trans p q) h = All-Permᴰ P p (All-Permᴰ P q h)

  pub length-Permᴰ : {xs ys : List A} → Permᴰ xs ys → length xs ≡ length ys
  length-Permᴰ Permᴰ.nil = refl
  length-Permᴰ (Permᴰ.cons e p) = ap suc (length-Permᴰ p)
  length-Permᴰ (Permᴰ.swap e f) = refl
  length-Permᴰ (Permᴰ.trans p q) = length-Permᴰ p ∙ length-Permᴰ q

pub has-prefixes-Permᴰ :
    (k : Str) {xs ys : List Arrival} → Permᴰ xs ys → has k (prefixes xs) ≡ has k (prefixes ys)
unfolding has prefixes
has-prefixes-Permᴰ k Permᴰ.nil = refl
has-prefixes-Permᴰ k (Permᴰ.cons e p) = cc (e, has-prefixes-Permᴰ k p)
has-prefixes-Permᴰ k (Permᴰ.swap {a = a} {b = b} e f) =
    ground (arith, ap (λ (x : Arrival). x.prefix) e, ap (λ (x : Arrival). x.prefix) f)
has-prefixes-Permᴰ k (Permᴰ.trans p q) = has-prefixes-Permᴰ k p ∙ has-prefixes-Permᴰ k q

-- The rows of an arrival are the parsed collection of its set.
pub record IsFetched (collection : Str → Fetched CollectionPayload) (a : Arrival) : Type 0 where
  pub rows_of : a.rows ≡ elim (collection a.prefix) [
    | unreachable ↦ none
    | malformed ↦ none
    | got p ↦ some (parse_collection a.prefix p)
  ]

pub fetch-IsFetched :
    (collection : Str → Fetched CollectionPayload) (jobs : List Job)
    → All (IsFetched collection) (map (fetch collection) jobs)
unfolding fetch
fetch-IsFetched collection [] = tt
fetch-IsFetched collection (j ∷ jobs) = (record { rows_of = refl }, fetch-IsFetched collection jobs)
