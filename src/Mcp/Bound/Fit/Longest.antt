-- ===== src/Mcp/Bound/Fit/Longest.antt =====
-- What fitJSONItems returns, and that it is within the budget.
use iconify_cli.Base.{
  ℕ, zero, suc, ◌≤◌, ◌<◌, ◌≡◌, refl, subst, ◌⊎◌, inl, inr, Option, none, some, List, [], arith,
  length, take, min, Option-cases, Bool-cases, ◌==◌,
}
use iconify_cli.Mcp.Bound.Json.{Bytes, Any, Codec, max_bytes, max_items, fitting, or_nil}
use iconify_cli.Mcp.Bound.Preview.Rounds.{fitting-le}
use iconify_cli.Mcp.Bound.Fit.{
  fit_down, fit_json_items, bounded_single_array_object, array_in, array_object,
}

-- A bound on what does not fit, one further down.
pub none_above :
    (fits : ℕ → Option Bytes) (n : ℕ) (P : ℕ → Type 0)
    → fits (suc n) ≡ none
    → ((m : ℕ) → P m → m ≤ n → fits m ≡ none)
    → (m : ℕ) → P m
    → m ≤ suc n
    → fits m ≡ none
none_above fits n P e h m p l = elim (Bool-cases (m == suc n)) [
  | inl q ↦ let r : suc n ≡ m = ground arith in subst (λ k. fits k ≡ none) r e
  | inr q ↦ h m p (ground arith)
]

module _ (codec : Codec) (build : List Bytes → Any) (items : List Bytes) where
  -- The result of a prefix of the items, if it fits.
  abbrev pub fits : ℕ → Option Bytes
  fits n = fitting (codec.marshal (build (take n items)))

  -- What the loop over n gives: the longest prefix that fits, or none where none fits.
  abbrev pub LongestFit : ℕ → Option Bytes → Type 0
  LongestFit limit found =
      ((n : ℕ) × (out : Bytes) × (found ≡ some out)
        × (0 < n)
        × (n ≤ limit)
        × (fits n ≡ some out)
        × ((m : ℕ) → n < m → m ≤ limit → fits m ≡ none))
      ⊎ ((found ≡ none) × ((m : ℕ) → 0 < m → m ≤ limit → fits m ≡ none))

  fit_down-some :
      (n : ℕ) (out : Bytes)
      → fits (suc n) ≡ some out
      → fit_down codec build items (suc n) ≡ some out
  unfolding fit_down
  fit_down-some n out e = rw (e, fit_down) refl

  fit_down-none :
      (n : ℕ)
      → fits (suc n) ≡ none
      → fit_down codec build items (suc n) ≡ fit_down codec build items n
  unfolding fit_down
  fit_down-none n e = rw (e, fit_down) refl

  fit_down-LongestFit : (n : ℕ) → LongestFit n (fit_down codec build items n)
  fit_down-LongestFit zero = unfold fit_down in inr (refl, λ m p q. absurd (omega arith))
  fit_down-LongestFit (suc n) = elim (Option-cases (fits (suc n))) [
    | inl e ↦ elim (fit_down-LongestFit n) [
      | inl (k, out, f, p, l, g, above) ↦ inl (
        k,
        out,
        rw (fit_down-none n e) f,
        p,
        omega arith,
        g,
        none_above fits n (λ m. k < m) e above,
      )
      | inr (f, above) ↦ inr (rw (fit_down-none n e) f, none_above fits n (λ m. 0 < m) e above)
    ]
    | inr (out, e) ↦ inl (
      suc n,
      out,
      fit_down-some n out e,
      omega arith,
      omega arith,
      e,
      λ m p q. absurd (omega arith),
    )
  ]

  -- fitJSONItems returns the longest prefix of at most 50 items that fits the budget; where none
  -- of one item or more fits, it returns the result of no items.
  pub fit_json_items_lem :
      ((n : ℕ) × (0 < n)
        × (n ≤ min (length items) max_items)
        × (fits n ≡ some (fit_json_items codec items build))
        × ((m : ℕ) → n < m → m ≤ min (length items) max_items → fits m ≡ none))
      ⊎ ((fit_json_items codec items build ≡ or_nil (codec.marshal (build [])))
          × ((m : ℕ) → 0 < m → m ≤ min (length items) max_items → fits m ≡ none))
  unfolding fit_json_items
  fit_json_items_lem = elim (fit_down-LongestFit (min (length items) max_items)) [
    | inl (n, out, f, p, l, g, above) ↦ inl (n, p, l, rw (f, fit_json_items) g, above)
    | inr (f, above) ↦ inr (rw (f, fit_json_items) refl, above)
  ]

  pub length-fit_json_items :
      length (or_nil (codec.marshal (build []))) ≤ max_bytes
      → length (fit_json_items codec items build) ≤ max_bytes
  length-fit_json_items h = elim fit_json_items_lem [
    | inl (n, p, l, g, above) ↦ fitting-le _ _ g
    | inr (e, above) ↦ rw e h
  ]

-- The envelope of one array field is within the budget wherever there is one.
pub length-bounded_single_array_object :
    (codec : Codec) (s note out : Bytes)
    → bounded_single_array_object codec s note ≡ some out
    → length out ≤ max_bytes
unfolding bounded_single_array_object
length-bounded_single_array_object codec s note out h =
    elim (Option-cases (array_in codec (codec.unmarshal_object s))) [
      | inl e ↦ ground (arith, h, e)
      | inr ((obj, name, items), e) ↦
          fitting-le
            (some (fit_json_items codec items (array_object obj name items (length s) note))) out
            (rw (e, bounded_single_array_object) at h)
    ]
