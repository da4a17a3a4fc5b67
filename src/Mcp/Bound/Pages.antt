-- ===== src/Mcp/Bound/Pages.antt =====
-- internal/mcp/bound/bound.go: list pages that a caller resumes with an opaque cursor.
pub mod Progress
pub mod Walk
use mathlib.Core.List.{map}
use iconify_cli.Base.{
  ℕ, zero, suc, ◌+◌, ◌-◌, Bool, true, false, ◌&&◌, ◌||◌, not, ltb, Option, none, some, List, [],
  ◌∷◌, length, take, drop, get_elem?, min, keep, if◌then◌else◌,
}
use iconify_cli.Base.Strings.{Str, str, str_eq, is_empty}
use iconify_cli.Base.Dict.{Dict}
use iconify_cli.Base.Int.{ℤ, pos, negsuc}
use iconify_cli.Mcp.Bound.Json.{
  Bytes, Any, null, Object, bool, int, text, array, object, CursorState, Codec, max_bytes,
  max_items, max_preview_bytes, fitting, or_nil, set_field, raw_fields,
}
use iconify_cli.Mcp.Bound.Cursor.{
  Decoded, ok, err, start_state, decode_endpoint_cursor, next_page_cursor,
}
use iconify_cli.Mcp.Bound.Preview.{preview_string, try_limits, preview_envelope}
use iconify_cli.Mcp.Bound.Fit.{endpoint_preview_note}

-- A slice that may be nil.
abbrev pub slice : Option (List Bytes) → Any
slice none = null
slice (some xs) = array xs

abbrev pub size : Option (List Bytes) → ℕ
size none = 0
size (some xs) = length xs

-- if start < 0 { start = 0 }; if start > len(items) { start = len(items) }
unfoldable pub start_of : ℤ → ℕ → ℕ
start_of (pos n) count = if ltb count n then count else n
start_of (negsuc n) count = 0

-- What `build` of boundedPageListEnvelope closes over. `base` is `none` for a bare array.
pub record PageShape : Type 0 where
  pub name : Str
  pub items : List Bytes
  pub original : ℕ
  pub note : Bytes
  pub base : Option (Dict Bytes)
  pub current_upstream : Bytes
  pub next_upstream : Bytes

unfoldable pub base_fields : PageShape → Object
base_fields p = elim p.base [
  | none ↦ Object.end
  | some obj ↦ raw_fields (keep (λ e. not (str_eq e.0 p.name)) obj)
]

-- -1 where there are further pages upstream, or this is one.
unfoldable pub count_of : PageShape → ℤ
count_of p =
    if not (is_empty p.next_upstream) || not (is_empty p.current_upstream)
    then negsuc 0
    else pos (length p.items)

unfoldable pub page_object : PageShape → Option (List Bytes) → Bytes → Bytes → Any
page_object p subset preview next =
    let counted = set_field (str "count") (int (count_of p)) (base_fields p) in
    let shown =
      set_field (str "returned_count") (int (pos (size subset)))
        (set_field p.name (slice subset) counted) in
    let previewed =
      if is_empty preview then shown else set_field (str "item_preview") (text preview) shown in
    object (
      if is_empty next
      then previewed
      else set_field (str "note") (text p.note) (
          set_field (str "max_bytes") (int (pos max_bytes)) (
            set_field (str "original_bytes") (int (pos p.original)) (
              set_field (str "next_cursor") (text next) (
                set_field (str "_pp_truncated") (bool true)
                  (set_field (str "truncated") (bool true) previewed))))))

-- What fitJSONPageItems returns, with the arguments of `build` that it comes from.
pub record Page : Type 0 where
  pub shown : Option (List Bytes)
  pub preview : Bytes
  pub next : Bytes
  pub out : Bytes

module _ (codec : Codec) (build : Option (List Bytes) → Bytes → Bytes → Any)
    (items : List Bytes) where
  module _ (start : ℕ) (current_upstream next_upstream : Bytes) where
    abbrev pub cursor_at : ℕ → Bytes
    cursor_at offset = next_page_cursor codec offset (length items) current_upstream next_upstream

    -- The loop over n: the longest run of items that fits.
    unfoldable pub run_down : ℕ → Option Page
    run_down zero = none
    run_down (suc n) =
        let subset = some (take (suc n) (drop start items)) in
        let next = cursor_at (start + suc n) in
        elim (fitting (codec.marshal (build subset [] next))) [
          | some out ↦ some (record { shown = subset; preview = []; next = next; out = out })
          | none ↦ run_down n
        ]

    -- The last resort.
    unfoldable pub nothing_shown : Page
    nothing_shown =
        let next = cursor_at (length items) in
        record {
          shown = none;
          preview = [];
          next = next;
          out = or_nil (codec.marshal (build none [] next));
        }

    -- A preview of one item that does not fit.
    unfoldable pub item_previewed : Bytes → Page
    item_previewed item =
        let next = cursor_at (start + 1) in
        elim (try_limits (λ limit. codec.marshal (build none (preview_string item limit) next))
          max_preview_bytes) [
            | some (limit, out) ↦ record {
              shown = none;
              preview = preview_string item limit;
              next = next;
              out = out;
            }
            | none ↦ nothing_shown
          ]

    unfoldable pub fit_json_page_items : Page
    fit_json_page_items = elim (run_down (min (length items - start) max_items)) [
      | some page ↦ page
      | none ↦ elim (get_elem? items start) [
        | some item ↦ item_previewed item
        | none ↦ nothing_shown
      ]
    ]

-- The state that a cursor stands for; one that does not decode starts anew.
unfoldable pub state_of : Decoded CursorState → CursorState
state_of (ok s) = s
state_of (err e) = start_state

module _ (codec : Codec) where
  unfoldable pub page_of : PageShape → ℤ → Page
  page_of p offset =
      fit_json_page_items codec (page_object p) p.items (start_of offset (length p.items))
        p.current_upstream p.next_upstream

  unfoldable pub bounded_page_list_envelope :
      Str → List Bytes → Bytes → Bytes → Bytes → Option (Dict Bytes) → Bytes → Bytes
  bounded_page_list_envelope name items original note cursor base next_upstream =
      let state = state_of (decode_endpoint_cursor codec cursor) in
      let page =
        page_of
          (record {
            name = name;
            items = items;
            original = length original;
            note = note;
            base = base;
            current_upstream = state.upstream;
            next_upstream = next_upstream;
          })
          state.offset in
      elim (fitting (some page.out)) [
        | some out ↦ out
        | none ↦ preview_envelope codec original endpoint_preview_note
      ]
