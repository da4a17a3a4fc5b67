-- ===== src/Mcp/Bound/Fit.antt =====
-- internal/mcp/bound/bound.go: fitJSONItems, the longest prefix of the items that fits.
pub mod Longest
use iconify_cli.Base.{
  ℕ, zero, suc, ltb, Option, none, some, List, [], ◌∷◌, ◌++◌, length, take, min, keep, not,
  if◌then◌else◌,
}
use iconify_cli.Base.Strings.{Str, str, str_eq, is_empty}
use iconify_cli.Base.Dict.{Dict}
use iconify_cli.Base.Int.{pos}
use iconify_cli.Base.{Bool, true, false}
use iconify_cli.Mcp.Bound.Json.{
  Bytes, Any, Object, end, field, bool, int, text, raw, array, object, Codec, max_bytes, max_items,
  fitting, or_nil, set_field, raw_fields, elements,
}

-- The notes that name the contract of an envelope.
abbrev pub endpoint_list_note : Bytes
endpoint_list_note =
    str
      "Typed MCP endpoint response was bounded for MCP output. Narrow the request with limit, offset, filters, search/sql, or a command-mirror tool with --agent/--compact/--select."

abbrev pub endpoint_preview_note : Bytes
endpoint_preview_note =
    str
      "Typed MCP endpoint response exceeded the tool result budget and was not a recognized list envelope. Narrow the request with filters, search/sql, or a command-mirror tool with --agent/--compact/--select."

abbrev pub json_result_note : Bytes
json_result_note =
    str
      "MCP JSON result exceeded the tool result budget. Narrow the request with limit, filters, search/sql, or --select/--compact where available."

abbrev pub text_result_note : Bytes
text_result_note =
    str
      "MCP command output exceeded the tool result budget. Rerun with narrower flags, --agent, --compact, --select, or --limit where available."

-- What `build` of boundedListEnvelope makes of a prefix of the items.
unfoldable pub list_object : Str → List Bytes → ℕ → Bytes → List Bytes → Any
list_object name items original note subset =
    let out = set_field name (array subset) (field (str "count") (int (pos (length items))) end) in
    object (
      if ltb (length subset) (length items)
      then set_field (str "note") (text note) (
          set_field (str "max_bytes") (int (pos max_bytes)) (
            set_field (str "original_bytes") (int (pos original)) (
              set_field (str "returned_count") (int (pos (length subset))) (
                set_field (str "_pp_truncated") (bool true)
                  (set_field (str "truncated") (bool true) out)))))
      else out)

-- The object with a prefix of its array.
unfoldable pub with_array : Dict Bytes → Str → List Bytes → Object
with_array [] name subset = end
with_array ((k, v) ∷ obj) name subset =
    let rest = with_array obj name subset in
    if str_eq k name then field k (array subset) rest else field k (raw v) rest

-- What `build` of boundedSingleArrayObjectWithNote makes of a prefix of the items.
unfoldable pub array_object : Dict Bytes → Str → List Bytes → ℕ → Bytes → List Bytes → Any
array_object obj name items original note subset =
    let out = with_array obj name subset in
    object (
      if ltb (length subset) (length items)
      then set_field (str "_pp_note") (text note) (
          set_field (str "_pp_max_bytes") (int (pos max_bytes)) (
            set_field (str "_pp_original_bytes") (int (pos original)) (
              set_field (str "_pp_returned_count") (int (pos (length subset))) (
                set_field (str "_pp_total_count") (int (pos (length items)))
                  (set_field (str "_pp_truncated") (bool true) out)))))
      else out)

module _ (codec : Codec) where
  -- The loop of fitJSONItems over n.
  unfoldable pub fit_down : (List Bytes → Any) → List Bytes → ℕ → Option Bytes
  fit_down build items zero = none
  fit_down build items (suc n) = elim (fitting (codec.marshal (build (take (suc n) items)))) [
    | some out ↦ some out
    | none ↦ fit_down build items n
  ]

  unfoldable pub fit_json_items : List Bytes → (List Bytes → Any) → Bytes
  fit_json_items items build = elim (fit_down build items (min (length items) max_items)) [
    | some out ↦ out
    | none ↦ or_nil (codec.marshal (build []))
  ]

  unfoldable pub bounded_list_envelope : Str → List Bytes → ℕ → Bytes → Bytes
  bounded_list_envelope name items original note =
      fit_json_items items (list_object name items original note)

  -- The loop that looks for the one array field. A field whose name is empty counts as none found.
  unfoldable pub find_array : Dict Bytes → Str → List Bytes → Option (Str × List Bytes)
  find_array [] name items = if is_empty name then none else some (name, items)
  find_array ((k, v) ∷ obj) name items = elim (elements codec v) [
    | none ↦ find_array obj name items
    | some xs ↦ elim (is_empty name) [ false ↦ none | true ↦ find_array obj k xs ]
  ]

  -- `none` is the flag false.
  unfoldable pub array_in : Option (Dict Bytes) → Option (Dict Bytes × Str × List Bytes)
  array_in none = none
  array_in (some obj) = elim (find_array obj [] []) [
    | none ↦ none
    | some (name, items) ↦ some (obj, name, items)
  ]

  unfoldable pub bounded_single_array_object : Bytes → Bytes → Option Bytes
  bounded_single_array_object s note = elim (array_in (codec.unmarshal_object s)) [
    | none ↦ none
    | some (obj, name, items) ↦
        fitting (some (fit_json_items items (array_object obj name items (length s) note)))
  ]
