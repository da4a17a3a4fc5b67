-- ===== src/Mcp/Bound/Pages/Walk.antt =====
-- A caller that follows the cursors of one API page: it sees every item, once and in order.
use mathlib.Core.List.{append-nil}
use iconify_cli.Base.{
  ℕ, zero, suc, ◌+◌, ◌-◌, ◌≤◌, ◌<◌, ◌≡◌, refl, sym, ap, ◌∙◌, ◌≢◌, inl, inr, true, false, ltb,
  Option, none, some, List, [], ◌∷◌, ◌++◌, arith, length, drop, get_elem?, min, Bool-cases,
  length-drop, take-append-drop,
}
use iconify_cli.Base.Strings.{is_empty}
use iconify_cli.Base.Int.{pos}
use iconify_cli.Mcp.Bound.Json.{Bytes, Any, Codec, CursorState, max_items}
use iconify_cli.Mcp.Bound.Cursor.{
  ok, err, decode_endpoint_cursor, encode_endpoint_cursor, next_page_cursor,
}
use iconify_cli.Mcp.Bound.Cursor.RoundTrip.{IsFaithful, decode-encode_endpoint_cursor}
use iconify_cli.Mcp.Bound.Pages.{
  Page, cursor_at, start_of, nothing_shown, run_down, fit_json_page_items,
}
use iconify_cli.Mcp.Bound.Pages.Progress.{run_fits, Runs, fit_json_page_items_lem}

abbrev pub shown_of : Option (List Bytes) → List Bytes
shown_of none = []
shown_of (some xs) = xs

element_at : (xs : List Bytes) (i : ℕ) → i < length xs → (x : Bytes) × (get_elem? xs i ≡ some x)
element_at [] i h = absurd (omega arith)
element_at (x ∷ xs) zero h = (x, refl)
element_at (x ∷ xs) (suc i) h = element_at xs i (omega arith)

no_element : (xs : List Bytes) → get_elem? xs (length xs) ≡ none
no_element [] = refl
no_element (x ∷ xs) = no_element xs

drop-nil : (n : ℕ) → drop {A = Bytes} n [] ≡ []
drop-nil zero = refl
drop-nil (suc n) = refl

drop-drop : (n m : ℕ) (xs : List Bytes) → drop n (drop m xs) ≡ drop (m + n) xs
drop-drop n zero xs = let e : n ≡ 0 + n = omega arith in ap (λ k. drop k xs) e
drop-drop n (suc m) [] = drop-nil n ∙ sym (drop-nil (suc m + n))
drop-drop n (suc m) (x ∷ xs) =
    let e : suc (m + n) ≡ suc m + n = omega arith in drop-drop n m xs ∙ ap (λ k. drop k (x ∷ xs)) e

drop_past : (n : ℕ) (xs : List Bytes) → length xs ≤ n → drop n xs ≡ []
drop_past zero [] h = refl
drop_past (suc n) [] h = refl
drop_past zero (x ∷ xs) h = absurd (omega arith)
drop_past (suc n) (x ∷ xs) h = drop_past n xs (omega arith)

module _ (codec : Codec) (build : Option (List Bytes) → Bytes → Bytes → Any) (items : List Bytes)
    (u : Bytes) where
  -- The page at an offset of the last API page.
  abbrev pub page_at : ℕ → Page
  page_at start = fit_json_page_items codec build items start u []

  -- The items of the pages that the cursors lead to, from an offset on.
  unfoldable pub follow : ℕ → ℕ → List Bytes
  follow zero start = []
  follow (suc fuel) start = shown_of (page_at start).shown ++ elim (is_empty (page_at start).next) [
    | true ↦ []
    | false ↦ elim (decode_endpoint_cursor codec (page_at start).next) [
      | ok s ↦ follow fuel (start_of s.offset (length items))
      | err e ↦ []
    ]
  ]

  next_inside :
      (start n : ℕ)
      → start + n < length items
      → cursor_at codec build items start u [] (start + n)
        ≡ encode_endpoint_cursor codec
            (record { version = pos 1; offset = pos (start + n); upstream = u })
  unfolding next_page_cursor
  next_inside start n h = ground arith

  next_end : (start n : ℕ) → length items ≤ n → cursor_at codec build items start u [] n ≡ []
  unfolding next_page_cursor
  next_end start n h = ground arith

  follow_on :
      (fuel start : ℕ) (s : CursorState)
      → is_empty (page_at start).next ≡ false
      → decode_endpoint_cursor codec (page_at start).next ≡ ok s
      → follow (suc fuel) start
        ≡ shown_of (page_at start).shown ++ follow fuel (start_of s.offset (length items))
  unfolding follow
  follow_on fuel start s e d = rw (e, follow) (rw d refl)

  follow_last :
      (fuel start : ℕ)
      → (page_at start).next ≡ []
      → follow (suc fuel) start ≡ shown_of (page_at start).shown
  unfolding follow
  follow_last fuel start e = rw (e, follow) (append-nil _)

  page_end : page_at (length items) ≡ nothing_shown codec build items (length items) u []
  unfolding fit_json_page_items
  page_end =
      let e : min (length items - length items) max_items ≡ 0 = omega arith in
      rw (e, fit_json_page_items) (unfold run_down in rw (no_element items) refl)

  follow_end : (fuel : ℕ) → follow (suc fuel) (length items) ≡ []
  follow_end fuel =
      unfold nothing_shown in
      follow_last fuel (length items)
        (rw page_end (next_end (length items) (length items) (omega arith)))
      ∙ rw page_end refl

  module _ (IsText : Bytes → Type 0) (faithful : IsFaithful codec IsText) (t : IsText u) where
    -- One page of a run, and what follows.
    follow_run :
        (fuel start n : ℕ)
        → 0 < n
        → n ≤ length items - start
        → Runs codec build items start u [] n (page_at start)
        → (start + n < length items → follow fuel (start + n) ≡ drop (start + n) items)
        → follow (suc fuel) start ≡ drop start items
    follow_run fuel start n p q r ih = elim (Bool-cases (ltb (start + n) (length items))) [
      | inl more ↦
          let (d, f) = decode-encode_endpoint_cursor codec IsText faithful (start + n) u t in
          let c = r.next ∙ next_inside start n (ground arith) in
          let at : start_of (pos (start + n)) (length items) ≡ start + n =
            unfold start_of in ground arith in
          let state : CursorState = record {
            version = pos 1;
            offset = pos (start + n);
            upstream = u;
          } in
          let f' : is_empty (page_at start).next ≡ false = rw c f in
          let d' : decode_endpoint_cursor codec (page_at start).next ≡ ok state = rw c d in
          follow_on fuel start state f' d'
          ∙ rw (r.shown, at, ih (ground arith), ← drop-drop n start items)
              (take-append-drop n (drop start items))
      | inr done ↦
          let l : length items ≤ start + n = ground arith in
          follow_last fuel start (r.next ∙ next_end start (start + n) l)
          ∙ rw r.shown (
              sym (append-nil _)
              ∙ rw (sym (drop_past n (drop start items) (omega (arith, length-drop start items))))
                  (take-append-drop n (drop start items)))
    ]

    follow_start :
        ((i : ℕ) → i < length items → run_fits codec build items i u [] 1 ≢ none)
        → (fuel start : ℕ) → start ≤ length items
        → length items - start < fuel
        → follow fuel start ≡ drop start items
    follow_start small zero start l h = absurd (omega arith)
    follow_start small (suc fuel) start l h = elim (Bool-cases (ltb start (length items))) [
      | inl inside ↦
          let (item, e) = element_at items start (ground arith) in
          elim (fit_json_page_items_lem codec build items start u [] item e) [
            | inl (n, p, q, r, _) ↦
                follow_run fuel start n p (omega arith) r
                  λ more. follow_start small fuel (start + n) (omega arith) (omega arith)
            | inr (none_fits, _) ↦
                absurd (small start (ground arith) (none_fits 1 (omega arith) (ground arith)))
          ]
      | inr outside ↦
          let e : start ≡ length items = ground arith in
          rw e (follow_end fuel ∙ sym (drop_past (length items) items (omega arith)))
    ]

    -- A caller that starts at the front and follows the cursors gets every item, once and in order,
    -- after at most as many requests as there are items and one, if each item fits a page of its
    -- own. It is the last API page, and the cursor that led to it is text.
    pub follow_all :
        (fuel : ℕ)
        → ((i : ℕ) → i < length items → run_fits codec build items i u [] 1 ≢ none)
        → length items < fuel
        → follow fuel 0 ≡ items
    follow_all fuel small h = follow_start small fuel 0 (omega arith) (omega arith)
