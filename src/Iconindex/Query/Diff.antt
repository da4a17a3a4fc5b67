-- ===== src/Iconindex/Query/Diff.antt =====
-- DiffNames: the names to add and to remove.
use iconify_cli.Base.{
  ◌≡◌, refl, sym, ap, ◌∙◌, Bool, true, false, not, ◌&&◌, ◌||◌, List, [], ◌∷◌, arith, keep, inl, inr,
  Bool-cases, All,
}
use iconify_cli.Base.Strings.{Str, str_eq, str_eq_iff, str_ltb, str_ltb_total, has}
use iconify_cli.Base.Sort.{
  sort, sort_strings, insert, has-sort, IsSorted, sort-IsSorted, str_ltb-IsStrict, IsAscending,
  IsAscending-ext,
}
use iconify_cli.Iconindex.Query.{dedup, diff_names}

pub has-dedup : (k : Str) (xs : List Str) → has k (dedup xs) ≡ has k xs
unfolding has dedup
has-dedup k [] = refl
has-dedup k (x ∷ xs) = ground (arith, has-dedup k xs, has-dedup x xs, str_eq_iff k x)

has-keep : (k : Str) (f : Str → Bool) (xs : List Str) → has k (keep f xs) ≡ (f k && has k xs)
unfolding has
has-keep k f [] = ground arith
has-keep k f (x ∷ xs) = ground (arith, has-keep k f xs, str_eq_iff k x)

-- No string is there twice.
abbrev Once : List Str → Type 0
Once [] = Unit
Once (x ∷ xs) = (has x xs ≡ false) × Once xs

Once-dedup : (xs : List Str) → Once (dedup xs)
unfolding dedup
Once-dedup [] = tt
Once-dedup (x ∷ xs) = elim (Bool-cases (has x (dedup xs))) [
  | inl e ↦ rw e (Once-dedup xs)
  | inr e ↦ rw e (e, Once-dedup xs)
]

Once-keep : (f : Str → Bool) (xs : List Str) → Once xs → Once (keep f xs)
Once-keep f [] h = tt
Once-keep f (x ∷ xs) h = elim (Bool-cases (f x)) [
  | inl e ↦ rw e (has-keep x f xs ∙ ground (arith, h.0), Once-keep f xs h.1)
  | inr e ↦ rw e (Once-keep f xs h.1)
]

has-insert : (k x : Str) (ys : List Str) → has k (insert str_ltb x ys) ≡ (str_eq k x || has k ys)
unfolding insert has
has-insert k x [] = refl
has-insert k x (y ∷ ys) = ground (arith, has-insert k x ys)

Once-insert : (x : Str) (ys : List Str) → has x ys ≡ false → Once ys → Once (insert str_ltb x ys)
unfolding insert has
Once-insert x [] h o = (refl, tt)
Once-insert x (y ∷ ys) h o = elim (Bool-cases (str_ltb x y)) [
  | inl e ↦ rw e (h, o)
  | inr e ↦ rw e (
    has-insert y x ys ∙ ground (arith, o.0, str_eq_iff y x, str_eq_iff x y),
    Once-insert x ys (ground arith) o.1,
  )
]

Once-sort : (xs : List Str) → Once xs → Once (sort_strings xs)
unfolding sort_strings sort
Once-sort [] h = tt
Once-sort (x ∷ xs) h = Once-insert x (sort_strings xs) (has-sort x xs ∙ h.0) (Once-sort xs h.1)

above-All :
    (x : Str) (xs : List Str)
    → All (λ y. str_ltb y x ≡ false) xs
    → has x xs ≡ false
    → All (λ y. str_ltb x y ≡ true) xs
unfolding has
above-All x [] h n = tt
above-All x (y ∷ xs) h n =
    (ground (arith, str_ltb_total x y, str_eq_iff x y, h.0), above-All x xs h.1 (ground arith))

pub ascending : (xs : List Str) → IsSorted str_ltb xs → Once xs → IsAscending xs
ascending [] s o = tt
ascending (x ∷ xs) s o = (above-All x xs s.0 o.0, ascending xs s.1 o.1)

difference : (xs ys : List Str) → List Str
difference xs ys = sort_strings (keep (λ n. not (has n ys)) (dedup xs))

difference-IsAscending : (xs ys : List Str) → IsAscending (difference xs ys)
unfolding difference
difference-IsAscending xs ys =
    ascending _
      (unfold sort_strings in
        sort-IsSorted str_ltb str_ltb-IsStrict (keep (λ n. not (has n ys)) (dedup xs)))
      (Once-sort _ (Once-keep (λ n. not (has n ys)) (dedup xs) (Once-dedup xs)))

has-difference :
    (k : Str) (xs ys : List Str) → has k (difference xs ys) ≡ (not (has k ys) && has k xs)
unfolding difference
has-difference k xs ys =
    has-sort k _
    ∙ (has-keep k (λ n. not (has n ys)) (dedup xs) ∙ ap (λ b. not (has k ys) && b) (has-dedup k xs))

-- The two lists of DiffNames are strictly ascending; a name is added exactly if it is in the new
-- list and not in the old one, and removed exactly if it is in the old list and not in the new one.
pub diff_names_lem :
    (before after : List Str)
    → let (added, removed) = diff_names before after in
      IsAscending added
      × IsAscending removed
      × ((n : Str) → has n added ≡ (not (has n before) && has n after))
      × ((n : Str) → has n removed ≡ (not (has n after) && has n before))
unfolding diff_names difference
diff_names_lem before after = (
  difference-IsAscending after before,
  difference-IsAscending before after,
  λ n. has-difference n after before,
  λ n. has-difference n before after,
)

-- Equal contents give the same difference, in whatever order and how often the names are listed.
pub diff_names-ext :
    (before before' after after' : List Str)
    → ((n : Str) → has n before ≡ has n before')
    → ((n : Str) → has n after ≡ has n after')
    → diff_names before after ≡ diff_names before' after'
unfolding diff_names difference
diff_names-ext b b' a a' h k =
    let added : difference a b ≡ difference a' b' =
      IsAscending-ext _ _ (difference-IsAscending a b) (difference-IsAscending a' b')
        (λ n. has-difference n a b ∙ (ground (arith, h n, k n) ∙ sym (has-difference n a' b'))) in
    let removed : difference b a ≡ difference b' a' =
      IsAscending-ext _ _ (difference-IsAscending b a) (difference-IsAscending b' a')
        (λ n. has-difference n b a ∙ (ground (arith, h n, k n) ∙ sym (has-difference n b' a'))) in
    λ i. (added i, removed i)
