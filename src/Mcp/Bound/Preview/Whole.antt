-- ===== src/Mcp/Bound/Preview/Whole.antt =====
-- previewString of a UTF-8 text: the longest run of whole runes that the limit allows.
use mathlib.Core.List.{append-nil, append_assoc}
use iconify_cli.Base.{
  ℕ, zero, suc, ◌-◌, ◌≤◌, ◌<◌, ◌≡◌, refl, sym, ap, subst, ◌∙◌, ◌⊎◌, Bool, true, false, ◌&&◌, ◌||◌,
  ltb, leb, ◌==◌, List, [], ◌∷◌, ◌++◌, arith, length, take, All, Bool-cases, inl, inr, min,
  length-take, length-append,
}
use iconify_cli.Mcp.Bound.Json.{Bytes}
use iconify_cli.Mcp.Bound.Preview.{is_rune, ends_in_rune, cut_back, preview_string}
use iconify_cli.Mcp.Bound.Preview.Runes.{ends-append_rune, ends-append_part}

abbrev pub AllRunes : List Bytes → Type 0
AllRunes = All (λ r. is_rune r ≡ true)

-- The text of some runes.
abbrev pub join : List Bytes → Bytes
join [] = []
join (r ∷ rs) = r ++ join rs

-- A rune ends after `m` bytes, or `m` is 0.
unfoldable boundary : List Bytes → ℕ → Bool
boundary [] m = m == 0
boundary (r ∷ rs) m = (m == 0) || (leb (length r) m && boundary rs (m - length r))

take-append_ge : (m : ℕ) (r s : Bytes) → length r ≤ m → take m (r ++ s) ≡ r ++ take (m - length r) s
take-append_ge m [] s h = ap (λ n. take n s) (omega arith)
take-append_ge zero (a ∷ r) s h = absurd (omega arith)
take-append_ge (suc m) (a ∷ r) s h =
    ap (λ t. a ∷ t) (take-append_ge m r s (omega arith) ∙ ap (λ n. r ++ take n s) (omega arith))

take-append_lt : (m : ℕ) (r s : Bytes) → m < length r → take m (r ++ s) ≡ take m r
take-append_lt zero r s h = refl
take-append_lt (suc m) [] s h = absurd (omega arith)
take-append_lt (suc m) (a ∷ r) s h = ap (λ t. a ∷ t) (take-append_lt m r s (omega arith))

-- A proper beginning of a list, and the element after it.
split_at : (m : ℕ) (r : Bytes) → m < length r → (b : ℕ) × (t : Bytes) × (r ≡ take m r ++ b ∷ t)
split_at m [] h = absurd (omega arith)
split_at zero (b ∷ t) h = (b, t, refl)
split_at (suc m) (a ∷ r) h = let (b, t, e) = split_at m r (omega arith) in (b, t, ap (λ u. a ∷ u) e)

ends_inside :
    (p r : Bytes) (m : ℕ)
    → is_rune r ≡ true
    → 0 < m
    → m < length r
    → ends_in_rune (p ++ take m r) ≡ false
ends_inside p r zero h k l = absurd (omega arith)
ends_inside p [] (suc m) h k l = absurd (omega arith)
ends_inside p (a ∷ r) (suc m) h k l =
    let (b, t, e) = split_at m r (omega arith) in
    ends-append_part p a (take m r) b t (subst (λ u. is_rune (a ∷ u) ≡ true) e h)

boundary_zero : (rs : List Bytes) → boundary rs 0 ≡ true
unfolding boundary
boundary_zero [] = refl
boundary_zero (r ∷ rs) = refl

ends-boundary :
    (p : Bytes) (rs : List Bytes) (m : ℕ)
    → AllRunes rs
    → 0 < m
    → m ≤ length (join rs)
    → ends_in_rune (p ++ take m (join rs)) ≡ boundary rs m
unfolding boundary
ends-boundary p [] m h k l = absurd (omega arith)
ends-boundary p (r ∷ rs) m h k l = elim (Bool-cases (ltb m (length r))) [
  | inl lt ↦
      rw (take-append_lt m r (join rs) (ground arith), ends_inside p r m h.0 k (ground arith))
        (ground arith)
  | inr ge ↦ elim (Bool-cases (m - length r == 0)) [
    | inl at ↦ rw (take-append_ge m r (join rs) (ground arith)) (
        let e : m - length r ≡ 0 = ground arith in
        rw (e, append-nil r, ends-append_rune p r h.0) (ground (arith, boundary_zero rs)))
    | inr past ↦
        rw
          (
            take-append_ge m r (join rs) (ground arith),
            ← append_assoc p r (take (m - length r) (join rs)),
          )
          (let l' : m - length r ≤ length (join rs) = omega (arith, length-append r (join rs)) in
            let k' : 0 < m - length r = ground arith in
            ends-boundary (p ++ r) rs (m - length r) h.1 k' l' ∙ ground arith)
  ]
]

cut_back-whole :
    (s : Bytes) (n : ℕ) → ends_in_rune (take (suc n) s) ≡ true → cut_back s (suc n) ≡ suc n
unfolding cut_back
cut_back-whole s n e = rw (e, cut_back) refl

cut_back-broken :
    (s : Bytes) (n : ℕ) → ends_in_rune (take (suc n) s) ≡ false → cut_back s (suc n) ≡ cut_back s n
unfolding cut_back
cut_back-broken s n e = rw (e, cut_back) refl

cut_back_lem :
    (s : Bytes) (n : ℕ)
    → (cut_back s n ≤ n)
      × ((cut_back s n ≡ 0) ⊎ (ends_in_rune (take (cut_back s n) s) ≡ true))
      × ((m : ℕ) → cut_back s n < m → m ≤ n → ends_in_rune (take m s) ≡ false)
cut_back_lem s zero = unfold cut_back in (omega arith, inl refl, λ m h k. absurd (omega arith))
cut_back_lem s (suc n) = elim (Bool-cases (ends_in_rune (take (suc n) s))) [
  | inl e ↦ rw (cut_back-whole s n e) (omega arith, inr e, λ m h k. absurd (omega arith))
  | inr e ↦
      let (below, whole, last) = cut_back_lem s n in
      rw (cut_back-broken s n e) (
        omega arith,
        whole,
        λ m h k. elim (Bool-cases (m == suc n)) [
          | inl q ↦
              let p : suc n ≡ m = ground arith in subst (λ l. ends_in_rune (take l s) ≡ false) p e
          | inr q ↦ last m h (ground arith)
        ],
      )
]

-- What ends at a boundary is a run of whole runes.
runes_below :
    (rs : List Bytes) (m : ℕ)
    → boundary rs m ≡ true
    → (j : ℕ) × (take m (join rs) ≡ join (take j rs))
unfolding boundary
runes_below [] zero h = (0, refl)
runes_below [] (suc m) h = (0, refl)
runes_below (r ∷ rs) m h = elim (Bool-cases (m == 0)) [
  | inl z ↦ (0, let e : m ≡ 0 = ground arith in rw e refl)
  | inr z ↦
      let (j, e) = runes_below rs (m - length r) (ground arith) in
      (suc j, take-append_ge m r (join rs) (ground arith) ∙ ap (λ u. r ++ u) e)
]

boundary-join : (rs : List Bytes) (i : ℕ) → boundary rs (length (join (take i rs))) ≡ true
unfolding boundary
boundary-join rs zero = boundary_zero rs
boundary-join [] (suc i) = refl
boundary-join (r ∷ rs) (suc i) =
    let l = length-append r (join (take i rs)) in
    let e : length (r ++ join (take i rs)) - length r ≡ length (join (take i rs)) =
      omega (arith, l) in
    rw e (ground (arith, boundary-join rs i, l))

length-join-take : (rs : List Bytes) (i : ℕ) → length (join (take i rs)) ≤ length (join rs)
length-join-take rs zero = omega arith
length-join-take [] (suc i) = omega arith
length-join-take (r ∷ rs) (suc i) =
    omega
      (arith, length-join-take rs i, length-append r (join (take i rs)), length-append r (join rs))

ends_at :
    (rs : List Bytes) (k : ℕ)
    → AllRunes rs
    → k ≤ length (join rs)
    → (k ≡ 0) ⊎ (ends_in_rune (take k (join rs)) ≡ true)
    → boundary rs k ≡ true
ends_at rs zero h l w = boundary_zero rs
ends_at rs (suc k) h l (inl e) = absurd (omega arith)
ends_at rs (suc k) h l (inr e) = sym (ends-boundary [] rs (suc k) h (omega arith) l) ∙ e

longest :
    (rs : List Bytes) (n k i : ℕ)
    → AllRunes rs
    → n ≤ length (join rs)
    → length (join (take i rs)) ≤ n
    → ((m : ℕ) → k < m → m ≤ n → ends_in_rune (take m (join rs)) ≡ false)
    → length (join (take i rs)) ≤ k
longest rs n k i h p q last = elim (Bool-cases (leb (length (join (take i rs))) k)) [
  | inl e ↦ ground arith
  | inr e ↦
      let m = length (join (take i rs)) in
      let no = last m (ground arith) q in
      let yes' = ends-boundary [] rs m h (ground arith) (omega arith) ∙ boundary-join rs i in cc
]

-- The preview of a UTF-8 text is a run of its whole runes, within the limit, and no longer run of
-- them is within it.
pub preview_string-join :
    (rs : List Bytes) (limit : ℕ)
    → AllRunes rs
    → (j : ℕ) × (preview_string (join rs) limit ≡ join (take j rs))
      × (length (preview_string (join rs) limit) ≤ limit)
      × ((i : ℕ)
          → length (join (take i rs)) ≤ limit
          → length (join (take i rs)) ≤ length (preview_string (join rs) limit))
unfolding preview_string
preview_string-join rs limit h =
    let n = min limit (length (join rs)) in
    let k = cut_back (join rs) n in
    let (below, whole, last) = cut_back_lem (join rs) n in
    let at : boundary rs k ≡ true = ends_at rs k h (omega arith) whole in
    let (j, e) = runes_below rs k at in
    let l : length (take k (join rs)) ≡ k = omega (arith, length-take k (join rs)) in
    (
      j,
      e,
      omega arith,
      λ i b.
          omega
            (arith, longest rs n k i h (omega arith) (omega (arith, length-join-take rs i)) last),
    )
