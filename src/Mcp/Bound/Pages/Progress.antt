-- ===== src/Mcp/Bound/Pages/Progress.antt =====
-- What fitJSONPageItems shows from an offset, and where its cursor goes on.
use iconify_cli.Base.{
  ℕ, zero, suc, ◌+◌, ◌-◌, ◌≤◌, ◌<◌, ◌≡◌, refl, ◌⊎◌, inl, inr, Option, none, some, List, [], arith,
  length, take, drop, get_elem?, min, Option-cases,
}
use iconify_cli.Mcp.Bound.Json.{Bytes, Any, Codec, max_items, max_preview_bytes, fitting}
use iconify_cli.Mcp.Bound.Preview.{preview_string, try_limits}
use iconify_cli.Mcp.Bound.Preview.Rounds.{try_limits-some, try_limits-none}
use iconify_cli.Mcp.Bound.Fit.Longest.{none_above}
use iconify_cli.Mcp.Bound.Pages.{
  Page, cursor_at, run_down, nothing_shown, item_previewed, fit_json_page_items,
}

module _ (codec : Codec) (build : Option (List Bytes) → Bytes → Bytes → Any)
    (items : List Bytes) where
  module _ (start : ℕ) (current_upstream next_upstream : Bytes) where
    -- The result of a run of n items.
    abbrev pub run_fits : ℕ → Option Bytes
    run_fits n = fitting (
        codec.marshal (
          build (some (take n (drop start items))) []
            (cursor_at codec build items start current_upstream next_upstream (start + n))))

    -- A run of items from the offset, with the cursor after it.
    pub record Runs (n : ℕ) (p : Page) : Type 0 where
      pub shown : p.shown ≡ some (take n (drop start items))
      pub next :
          p.next ≡ cursor_at codec build items start current_upstream next_upstream (start + n)
      pub out : run_fits n ≡ some p.out

    run_down-some :
        (n : ℕ) (out : Bytes)
        → run_fits (suc n) ≡ some out
        → (p : Page) × (run_down codec build items start current_upstream next_upstream (suc n)
            ≡ some p)
          × Runs (suc n) p
    unfolding run_down
    run_down-some n out e = (
      record {
        shown = some (take (suc n) (drop start items));
        preview = [];
        next = cursor_at codec build items start current_upstream next_upstream (start + suc n);
        out = out;
      },
      rw (e, run_down) refl,
      record { shown = refl; next = refl; out = e },
    )

    run_down-none :
        (n : ℕ)
        → run_fits (suc n) ≡ none
        → run_down codec build items start current_upstream next_upstream (suc n)
          ≡ run_down codec build items start current_upstream next_upstream n
    unfolding run_down
    run_down-none n e = rw (e, run_down) refl

    -- The loop over n: the longest run that fits, or none where none fits.
    run_down_lem :
        (k : ℕ)
        → ((p : Page) × (n : ℕ) × (run_down codec build items start current_upstream next_upstream k
              ≡ some p)
            × (0 < n)
            × (n ≤ k)
            × Runs n p
            × ((m : ℕ) → n < m → m ≤ k → run_fits m ≡ none))
          ⊎ ((run_down codec build items start current_upstream next_upstream k ≡ none)
              × ((m : ℕ) → 0 < m → m ≤ k → run_fits m ≡ none))
    run_down_lem zero = unfold run_down in inr (refl, λ m p q. absurd (omega arith))
    run_down_lem (suc k) = elim (Option-cases (run_fits (suc k))) [
      | inl e ↦ elim (run_down_lem k) [
        | inl (p, n, f, a, b, r, above) ↦ inl (
          p,
          n,
          rw (run_down-none k e) f,
          a,
          omega arith,
          r,
          none_above run_fits k (λ m. n < m) e above,
        )
        | inr (f, above) ↦
            inr (rw (run_down-none k e) f, none_above run_fits k (λ m. 0 < m) e above)
      ]
      | inr (out, e) ↦
          let (p, f, r) = run_down-some k out e in
          inl (p, suc k, f, omega arith, omega arith, r, λ m a b. absurd (omega arith))
    ]

    -- An item's preview, with the cursor after the item.
    pub record Previews (item : Bytes) (l : ℕ) (p : Page) : Type 0 where
      pub shown : p.shown ≡ none
      pub preview : p.preview ≡ preview_string item l
      pub next :
          p.next ≡ cursor_at codec build items start current_upstream next_upstream (start + 1)
      pub out : fitting (codec.marshal (build none (preview_string item l) p.next)) ≡ some p.out

    -- The first item does not even fit with an empty preview.
    pub record ShowsNothing (item : Bytes) (p : Page) : Type 0 where
      pub page : p ≡ nothing_shown codec build items start current_upstream next_upstream
      pub too_large :
          fitting (
            codec.marshal (
              build none
                (preview_string item 0)
                (cursor_at codec build items start current_upstream next_upstream (start + 1))))
          ≡ none

    item_previewed_lem :
        (item : Bytes)
        → let p = item_previewed codec build items start current_upstream next_upstream item in
          ((l : ℕ) × (l ≤ max_preview_bytes) × Previews item l p) ⊎ ShowsNothing item p
    unfolding item_previewed
    item_previewed_lem item =
        let next = cursor_at codec build items start current_upstream next_upstream (start + 1) in
        let attempt : ℕ → Option Bytes =
          λ l. codec.marshal (build none (preview_string item l) next) in
        elim (Option-cases (try_limits attempt max_preview_bytes)) [
          | inl e ↦
              rw (e, item_previewed)
                (inr
                  (record { page = refl; too_large = try_limits-none attempt max_preview_bytes e }))
          | inr ((l, out), e) ↦
              let (b, f) = try_limits-some attempt max_preview_bytes l out e in
              rw (e, item_previewed)
                (inl (l, b, record { shown = refl; preview = refl; next = refl; out = f }))
        ]

    -- From an offset inside the items, a page is the longest run of at most 50 items that fits; if no
    -- run fits, a preview of the first item, which is passed over; and if no preview of it fits
    -- either, a page that shows nothing. The cursor of a run goes on after it.
    pub fit_json_page_items_lem :
        (item : Bytes)
        → get_elem? items start ≡ some item
        → let p = fit_json_page_items codec build items start current_upstream next_upstream in
          let limit = min (length items - start) max_items in
          ((n : ℕ) × (0 < n)
            × (n ≤ limit)
            × Runs n p
            × ((m : ℕ) → n < m → m ≤ limit → run_fits m ≡ none))
          ⊎ (((m : ℕ) → 0 < m → m ≤ limit → run_fits m ≡ none)
              × (((l : ℕ) × (l ≤ max_preview_bytes) × Previews item l p) ⊎ ShowsNothing item p))
    unfolding fit_json_page_items
    fit_json_page_items_lem item h = elim (run_down_lem (min (length items - start) max_items)) [
      | inl (p, n, f, a, b, r, above) ↦ rw (f, fit_json_page_items) (inl (n, a, b, r, above))
      | inr (f, above) ↦ rw (f, fit_json_page_items) (rw h (inr (above, item_previewed_lem item)))
    ]
