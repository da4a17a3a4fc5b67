-- ===== src/Mcp/Bound/Respond/Limits.antt =====
-- Every result of the package is within the byte budget.
use iconify_cli.Base.{
  ℕ, ◌≤◌, ◌<◌, ◌^◌, ◌≡◌, refl, subst, ◌⊎◌, inl, inr, Bool, true, false, not, ◌&&◌, leb, Option,
  none, some, List, [], arith, length, Option-cases, some-inj, Bool-cases, if◌then◌else◌,
}
use iconify_cli.Base.Strings.{Str, str, is_empty}
use iconify_cli.Base.Dict.{Dict}
use iconify_cli.Mcp.Bound.Json.{
  Bytes, Any, object, Codec, max_bytes, fitting, or_nil, starts_with, trim, elements,
}
use iconify_cli.Mcp.Bound.Preview.{bare_preview}
use iconify_cli.Mcp.Bound.Preview.Rounds.{fitting-le, length-preview_envelope}
use iconify_cli.Mcp.Bound.Fit.{
  endpoint_list_note, endpoint_preview_note, json_result_note, text_result_note, list_object,
  bounded_list_envelope, bounded_single_array_object, array_in,
}
use iconify_cli.Mcp.Bound.Fit.Longest.{length-fit_json_items, length-bounded_single_array_object}
use iconify_cli.Mcp.Bound.Pages.{bounded_page_list_envelope, state_of, page_of, PageShape}
use iconify_cli.Mcp.Bound.Cursor.{decode_endpoint_cursor}
use iconify_cli.Mcp.Bound.Respond.{
  PageOptions, no_options, is_get, bounded_single_array_page_object, next_upstream, pass_or_bound,
  respond_object, endpoint_response_with, endpoint_page_response, json_bounded, json, text_result,
}

-- What is relied on of encoding/json: envelopes of a note of at most 300 bytes and some int fields,
-- without any item or preview, take less than the budget. The numbers are lengths, which an int holds.
pub record IsCompact (codec : Codec) : Type 0 where
  pub previews :
      (n : ℕ) (note : Bytes)
      → n < 2 ^ 63
      → length note ≤ 300
      → length (or_nil (codec.marshal (object (bare_preview n note)))) ≤ max_bytes
  pub lists :
      (items : List Bytes) (n : ℕ) (note : Bytes)
      → length items < 2 ^ 63
      → n < 2 ^ 63
      → length note ≤ 300
      → length (or_nil (codec.marshal (list_object (str "items") items n note []))) ≤ max_bytes

-- What is relied on of json.Unmarshal: an array has fewer elements than bytes.
pub record IsShort (codec : Codec) : Type 0 where
  pub elements :
      (s : Bytes) (xs : List Bytes) → codec.unmarshal_array s ≡ some xs → length xs ≤ length s

listed :
    (b : Bool) (o : Option (List Bytes)) (xs : List Bytes)
    → (if b then o else none) ≡ some xs
    → o ≡ some xs
listed true o xs h = h
listed false o xs h = ground arith

module _ (codec : Codec) (c : IsCompact codec) (sh : IsShort codec) where
  length-page_list :
      (name : Str) (items : List Bytes) (original note cursor : Bytes) (base : Option (Dict Bytes))
      (next : Bytes)
      → length original < 2 ^ 63
      → length (bounded_page_list_envelope codec name items original note cursor base next)
        ≤ max_bytes
  unfolding bounded_page_list_envelope
  length-page_list name items original note cursor base next h =
      let state = state_of (decode_endpoint_cursor codec cursor) in
      let shape : PageShape = record {
        name = name;
        items = items;
        original = length original;
        note = note;
        base = base;
        current_upstream = state.upstream;
        next_upstream = next;
      } in
      elim (Option-cases (fitting (some (page_of codec shape state.offset).out))) [
        | inl e ↦
            rw (e, bounded_page_list_envelope)
              (length-preview_envelope codec original endpoint_preview_note
                (c.previews (length original) endpoint_preview_note h (omega arith)))
        | inr (out, e) ↦ rw (e, bounded_page_list_envelope) (fitting-le _ out e)
      ]

  length-option :
      (o : Option Bytes) (last : Bytes)
      → ((out : Bytes) → o ≡ some out → length out ≤ max_bytes)
      → length last ≤ max_bytes
      → length (elim o as (λ _. Bytes) [ some out ↦ out | none ↦ last ]) ≤ max_bytes
  length-option none last f h = h
  length-option (some out) last f h = f out refl

  length-list :
      (s note : Bytes) (items : List Bytes)
      → length s < 2 ^ 63
      → elements codec s ≡ some items
      → length note ≤ 300
      → length (bounded_list_envelope codec (str "items") items (length s) note) ≤ max_bytes
  unfolding bounded_list_envelope elements
  length-list s note items h e n =
      let l : length items ≤ length s = ground (arith, sh.elements s items) in
      length-fit_json_items codec _ items (c.lists items (length s) note (omega arith) h n)

  length-if_option :
      (b : Bool) (o : Option Bytes)
      → ((out : Bytes) → o ≡ some out → length out ≤ max_bytes)
      → (out : Bytes) → (if b then o else none) ≡ some out
      → length out ≤ max_bytes
  length-if_option true o f out h = f out h
  length-if_option false o f out h = ground arith

  length-pass_or_bound :
      (get : Bool) (s : Bytes) → length s < 2 ^ 63 → length (pass_or_bound codec get s) ≤ max_bytes
  unfolding pass_or_bound
  length-pass_or_bound get s h = elim (Bool-cases (leb (length s) max_bytes)) [
    | inl e ↦ rw (e, pass_or_bound) (ground arith)
    | inr e ↦
        rw (e, pass_or_bound)
          (length-option
            (if get then bounded_single_array_object codec s endpoint_list_note else none) _
            (length-if_option get _ (length-bounded_single_array_object codec s endpoint_list_note))
            (length-preview_envelope codec s endpoint_preview_note
              (c.previews (length s) endpoint_preview_note h (omega arith))))
  ]

  length-array_page :
      (s : Bytes) (opts : PageOptions)
      → length s < 2 ^ 63
      → (out : Bytes) → bounded_single_array_page_object codec s opts ≡ some out
      → length out ≤ max_bytes
  length-array_page s opts h out e =
      elim (Option-cases (array_in codec (codec.unmarshal_object s))) [
        | inl n ↦
            let q : ◌≡◌ {A = Option Bytes} none (some out) =
              unfold bounded_single_array_page_object in
              rw (n, bounded_single_array_page_object) at e in
            cc
        | inr ((obj, name, items), n) ↦
            let made =
              bounded_page_list_envelope codec name items s endpoint_list_note opts.cursor
                (some obj) (next_upstream codec s opts) in
            let q : ◌≡◌ {A = Option Bytes} (some made) (some out) =
              unfold bounded_single_array_page_object in
              rw (n, bounded_single_array_page_object) at e in
            let l : length made ≤ max_bytes =
              length-page_list name items s endpoint_list_note opts.cursor (some obj)
                (next_upstream codec s opts) h in
            subst (λ (b : Bytes). length b ≤ max_bytes) (some-inj q) l
      ]

  length-respond_object :
      (get : Bool) (s : Bytes) (opts : PageOptions)
      → length s < 2 ^ 63
      → length (respond_object codec get s opts) ≤ max_bytes
  unfolding respond_object
  length-respond_object get s opts h =
      length-option _ _
        (length-if_option (get && not (is_empty opts.cursor_param)) _ (length-array_page s opts h))
        (length-pass_or_bound get s h)

  length-endpoint_response_with :
      (method s : Bytes) (opts : PageOptions)
      → length s < 2 ^ 63
      → length (endpoint_response_with codec method s opts) ≤ max_bytes
  length-endpoint_response_with method s opts h =
      elim (Option-cases (if is_get method then elements codec s else none)) [
        | inl e ↦
            unfold endpoint_response_with in
            rw (e, endpoint_response_with) (length-respond_object (is_get method) s opts h)
        | inr (items, e) ↦
            unfold endpoint_response_with in
            rw (e, endpoint_response_with)
              (elim (Bool-cases (not (is_empty opts.cursor_param))) [
                | inl p ↦ rw p (
                    length-page_list (str "items") items s endpoint_list_note opts.cursor none [] h)
                | inr p ↦ rw p (
                    length-list s endpoint_list_note items h (listed (is_get method) _ items e)
                      (omega arith))
              ])
      ]

  -- Whatever the method, the response and the options, a response is within the budget.
  pub length-endpoint_page_response :
      (method s : Bytes) (opts : PageOptions)
      → length s < 2 ^ 63
      → length (endpoint_page_response codec method s opts) ≤ max_bytes
  unfolding endpoint_page_response
  length-endpoint_page_response method s opts h = ground (
    arith,
    length-endpoint_response_with method s opts h,
    length-endpoint_response_with method s no_options h,
  )

  length-json_bounded : (s : Bytes) → length s < 2 ^ 63 → length (json_bounded codec s) ≤ max_bytes
  unfolding json_bounded
  length-json_bounded s h = elim (Option-cases (elements codec s)) [
    | inl e ↦
        rw (e, json_bounded)
          (length-option _ _
            (length-if_option (starts_with b'{' (trim s)) _
              (length-bounded_single_array_object codec s json_result_note))
            (length-preview_envelope codec s json_result_note
              (c.previews (length s) json_result_note h (omega arith))))
    | inr (items, e) ↦ rw (e, json_bounded) (length-list s json_result_note items h e (omega arith))
  ]

  json_compact :
      (v : Any) (long compact : Bytes)
      → length compact < 2 ^ 63
      → codec.marshal_indent v ≡ some long
      → leb (length long) max_bytes ≡ false
      → codec.marshal v ≡ some compact
      → (out : Bytes) × (json codec v ≡ some out) × (length out ≤ max_bytes)
  unfolding json
  json_compact v long compact h e b m = elim (Bool-cases (leb (length compact) max_bytes)) [
    | inl k ↦ (compact, rw (e, json) (rw b (rw m (rw k refl))), ground arith)
    | inr k ↦ (
      json_bounded codec compact,
      rw (e, json) (rw b (rw m (rw k refl))),
      length-json_bounded compact h,
    )
  ]

  -- JSON: a result is within the budget, and it is an error only if encoding/json refuses the value.
  pub length-json :
      (v : Any)
      → ((out : Bytes) → codec.marshal v ≡ some out → length out < 2 ^ 63)
      → ((out : Bytes) × (json codec v ≡ some out) × (length out ≤ max_bytes))
        ⊎ ((json codec v ≡ none) × ((codec.marshal_indent v ≡ none) ⊎ (codec.marshal v ≡ none)))
  unfolding json
  length-json v short = elim (Option-cases (codec.marshal_indent v)) [
    | inl e ↦ inr (rw (e, json) refl, inl e)
    | inr (long, e) ↦ elim (Bool-cases (leb (length long) max_bytes)) [
      | inl b ↦ inl (long, rw (e, json) (rw b refl), ground arith)
      | inr b ↦ elim (Option-cases (codec.marshal v)) [
        | inl m ↦ inr (rw (e, json) (rw b (rw m refl)), inr m)
        | inr (compact, m) ↦ inl (json_compact v long compact (short compact m) e b m)
      ]
    ]
  ]

  -- Text: command output is within the budget.
  pub length-text_result :
      (out : Bytes) → length out < 2 ^ 63 → length (text_result codec out) ≤ max_bytes
  unfolding text_result
  length-text_result out h = elim (Bool-cases (leb (length out) max_bytes)) [
    | inl e ↦ rw (e, text_result) (ground arith)
    | inr e ↦
        rw (e, text_result)
          (length-preview_envelope codec out text_result_note
            (c.previews (length out) text_result_note h (omega arith)))
  ]
