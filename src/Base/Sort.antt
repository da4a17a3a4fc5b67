-- ===== src/Base/Sort.antt =====
-- sort.Slice and sort.Strings. Their contract is a sorted permutation, which insertion gives; where
-- the order is total on the elements there is one such list, so the algorithm does not matter.
use mathlib.Core.List.{Perm}
use mathlib.Core.List.Perm
use iconify_cli.Base.{
  ◌≡◌, refl, ap, ◌∙◌, Bool, true, false, ◌||◌, List, [], ◌∷◌, arith, if◌then◌else◌, Bool-cases, inl,
  inr, All, All-map,
}
use iconify_cli.Base.Strings.{
  Str, str_eq, str_eq_iff, str_eq_refl, str_ltb, str_ltb_irrefl, str_ltb_asym, str_ltb_total,
  str_ltb_neg_trans, has,
}

-- What sort.Slice asks of its `less`.
pub record IsStrict {ℓ} {A : Type ℓ} (less : A → A → Bool) : Type ℓ where
  pub asym : (a b : A) → less a b ≡ true → less b a ≡ false
  pub neg_trans : (a b c : A) → less b a ≡ false → less c b ≡ false → less c a ≡ false

module _ {ℓ} {A : Type ℓ} (less : A → A → Bool) where
  unfoldable pub insert : A → List A → List A
  insert x [] = x ∷ []
  insert x (y ∷ ys) = let rest = insert x ys in if less x y then x ∷ y ∷ ys else y ∷ rest

  unfoldable pub sort : List A → List A
  unfolding insert
  sort [] = []
  sort (x ∷ xs) = insert x (sort xs)

  -- No element stands before a smaller one.
  abbrev pub IsSorted : List A → Type 0
  IsSorted [] = Unit
  IsSorted (x ∷ xs) = All (λ y. less y x ≡ false) xs × IsSorted xs

  insert-perm : (x : A) (ys : List A) → Perm (insert x ys) (x ∷ ys)
  unfolding insert
  insert-perm x [] = Perm.refl (x ∷ [])
  insert-perm x (y ∷ ys) = elim (Bool-cases (less x y)) [
    | inl e ↦ rw e (Perm.refl (x ∷ y ∷ ys))
    | inr e ↦ rw e (Perm.trans (Perm.cons y (insert-perm x ys)) (Perm.swap x y ys))
  ]

  pub sort-perm : (xs : List A) → Perm (sort xs) xs
  unfolding sort
  sort-perm [] = Perm.refl []
  sort-perm (x ∷ xs) = Perm.trans (insert-perm x (sort xs)) (Perm.cons x (sort-perm xs))

  insert-All : (P : A → Type 0) (x : A) (ys : List A) → P x → All P ys → All P (insert x ys)
  unfolding insert
  insert-All P x [] p h = (p, tt)
  insert-All P x (y ∷ ys) p h = elim (Bool-cases (less x y)) [
    | inl e ↦ rw e (p, h)
    | inr e ↦ rw e (h.0, insert-All P x ys p h.1)
  ]

  pub sort-All : (P : A → Type 0) (xs : List A) → All P xs → All P (sort xs)
  unfolding sort
  sort-All P [] h = tt
  sort-All P (x ∷ xs) h = insert-All P x (sort xs) h.0 (sort-All P xs h.1)

  insert-IsSorted : IsStrict less → (x : A) (ys : List A) → IsSorted ys → IsSorted (insert x ys)
  unfolding insert
  insert-IsSorted o x [] h = (tt, tt)
  insert-IsSorted o x (y ∷ ys) h = elim (Bool-cases (less x y)) [
    | inl e ↦
        rw e ((o.asym x y e, All-map _ _ (λ z p. o.neg_trans x y z (o.asym x y e) p) ys h.0), h)
    | inr e ↦ rw e (insert-All _ x ys e h.0, insert-IsSorted o x ys h.1)
  ]

  pub sort-IsSorted : IsStrict less → (xs : List A) → IsSorted (sort xs)
  unfolding sort
  sort-IsSorted o [] = tt
  sort-IsSorted o (x ∷ xs) = insert-IsSorted o x (sort xs) (sort-IsSorted o xs)

pub str_ltb-IsStrict : IsStrict str_ltb
str_ltb-IsStrict = record { asym = str_ltb_asym; neg_trans = str_ltb_neg_trans }

-- sort.Strings
unfoldable pub sort_strings : List Str → List Str
unfolding sort str_ltb
sort_strings xs = sort str_ltb xs

insert-has : (k x : Str) (ys : List Str) → has k (insert str_ltb x ys) ≡ (str_eq k x || has k ys)
unfolding insert has
insert-has k x [] = refl
insert-has k x (y ∷ ys) = ground (arith, insert-has k x ys)

-- Sorting keeps the strings.
pub has-sort : (k : Str) (xs : List Str) → has k (sort_strings xs) ≡ has k xs
unfolding sort_strings has sort
has-sort k [] = refl
has-sort k (x ∷ xs) = insert-has k x (sort_strings xs) ∙ ap (λ b. str_eq k x || b) (has-sort k xs)

-- Each string stands before all that follow it, so none is there twice.
abbrev pub IsAscending : List Str → Type 0
IsAscending [] = Unit
IsAscending (x ∷ xs) = All (λ y. str_ltb x y ≡ true) xs × IsAscending xs

above-has : (x : Str) (xs : List Str) → All (λ y. str_ltb x y ≡ true) xs → has x xs ≡ false
unfolding has
above-has x [] h = refl
above-has x (y ∷ ys) h = ground (arith, str_eq_iff x y, str_ltb_irrefl x, above-has x ys h.1, h.0)

above_of-has :
    (x k : Str) (xs : List Str)
    → All (λ y. str_ltb x y ≡ true) xs
    → has k xs ≡ true
    → str_ltb x k ≡ true
unfolding has
above_of-has x k [] h m = ground arith
above_of-has x k (y ∷ ys) h m = ground (arith, str_eq_iff k y, above_of-has x k ys h.1, h.0)

head_le :
    (x y : Str) (xs ys : List Str)
    → All (λ z. str_ltb y z ≡ true) ys
    → has x (y ∷ ys) ≡ true
    → str_ltb x y ≡ false
unfolding has
head_le x y xs ys h m =
    ground (arith, str_eq_iff x y, str_ltb_irrefl x, above_of-has y x ys h, str_ltb_asym y x)

-- An ascending list is determined by what stands in it.
pub IsAscending-ext :
    (xs ys : List Str)
    → IsAscending xs
    → IsAscending ys
    → ((k : Str) → has k xs ≡ has k ys)
    → xs ≡ ys
unfolding has
IsAscending-ext [] [] h k e = refl
IsAscending-ext [] (y ∷ ys) h k e = ground (arith, e y, str_eq_refl y)
IsAscending-ext (x ∷ xs) [] h k e = ground (arith, e x, str_eq_refl x)
IsAscending-ext (x ∷ xs) (y ∷ ys) h k e =
    let same : x ≡ y = ground (
      arith,
      str_ltb_total x y,
      e x,
      e y,
      str_eq_refl x,
      str_eq_refl y,
      head_le x y xs ys k.0,
      head_le y x ys xs h.0,
    ) in
    let rest : xs ≡ ys = IsAscending-ext xs ys h.1 k.1 (λ j.
      ground (
        arith,
        e j,
        same,
        str_eq_iff j x,
        str_eq_iff j y,
        above-has x xs h.0,
        above-has y ys k.0,
      )) in
    cc (same, rest)
