-- ===== src/Mcp/Bound/Respond.antt =====
-- internal/mcp/bound/bound.go: EndpointResponse, EndpointPageResponse, JSON and Text.
pub mod Limits
use mathlib.Core.List.{map}
use iconify_cli.Base.{
  ℕ, ◌-◌, Bool, true, false, ◌&&◌, ◌||◌, not, leb, ◌==◌, Option, none, some, List, [], ◌∷◌, ◌++◌,
  length, if◌then◌else◌,
}
use iconify_cli.Base.Strings.{Str, str, str_eq, is_empty}
use iconify_cli.Base.Dict.{Dict}
use iconify_cli.Mcp.Bound.Json.{
  Bytes, Any, text, object, Object, Codec, max_bytes, fitting, get_field, starts_with, trim,
  elements,
}
use iconify_cli.Mcp.Bound.Cursor.{Decoded, ok, err, decode_endpoint_cursor}
use iconify_cli.Mcp.Bound.Preview.{preview_envelope}
use iconify_cli.Mcp.Bound.Fit.{
  endpoint_list_note, endpoint_preview_note, json_result_note, text_result_note,
  bounded_list_envelope, array_in, bounded_single_array_object,
}
use iconify_cli.Mcp.Bound.Pages.{bounded_page_list_envelope}

pub record PageOptions : Type 0 where
  pub cursor : Bytes
  pub cursor_param : Bytes
  pub next_cursor_path : Bytes

-- PageOptions{}
abbrev pub no_options : PageOptions
no_options = record { cursor = []; cursor_param = []; next_cursor_path = [] }

-- strings.EqualFold(method, "GET"); no letter outside ASCII folds to one of these three.
unfoldable pub upper : ℕ → ℕ
upper c = if leb b'a' c && leb c b'z' then c - 32 else c

unfoldable pub is_get : Bytes → Bool
unfolding upper
is_get method = str_eq (map upper method) (str "GET")

-- strings.Split(path, "."); `part` is the part so far.
unfoldable pub parts_from : Bytes → Bytes → List Bytes
parts_from part [] = part ∷ []
parts_from part (c ∷ s) = elim (c == b'.') [
  | true ↦ part ∷ parts_from [] s
  | false ↦ parts_from (part ++ c ∷ []) s
]

-- The loop over the parts, one object deeper for each.
unfoldable pub object_in : Any → Option Object
object_in (object m) = some m
object_in _ = none

unfoldable pub walk_path : List Bytes → Any → Option Any
walk_path [] v = some v
walk_path (part ∷ parts) v = elim (object_in v) [
  | none ↦ none
  | some m ↦ elim (get_field part m) [ none ↦ none | some w ↦ walk_path parts w ]
]

-- v.(string), or ""
unfoldable pub string_in : Option Any → Bytes
string_in (some (text s)) = s
string_in _ = []

module _ (codec : Codec) where
  unfoldable pub extract_string_path : Bytes → Bytes → Bytes
  extract_string_path s path = if is_empty (trim path) then [] else elim (codec.unmarshal s) [
    | none ↦ []
    | some v ↦ string_in (walk_path (parts_from [] (trim path)) v)
  ]

  -- The upstream cursor of the next page, unless it is the one of this page.
  unfoldable pub next_upstream : Bytes → PageOptions → Bytes
  next_upstream s opts =
      let next = extract_string_path s opts.next_cursor_path in
      if is_empty next then [] else elim (decode_endpoint_cursor codec opts.cursor) [
        | ok state ↦ if str_eq next state.upstream then [] else next
        | err e ↦ next
      ]

  unfoldable pub bounded_single_array_page_object : Bytes → PageOptions → Option Bytes
  bounded_single_array_page_object s opts = elim (array_in codec (codec.unmarshal_object s)) [
    | none ↦ none
    | some (obj, name, items) ↦ some (
        bounded_page_list_envelope codec name items s endpoint_list_note opts.cursor (some obj)
          (next_upstream s opts))
  ]

  -- What is left when the response is no list that is paged.
  unfoldable pub pass_or_bound : Bool → Bytes → Bytes
  pass_or_bound get s =
      if leb (length s) max_bytes
      then s
      else elim (if get then bounded_single_array_object codec s endpoint_list_note else none) [
        | some out ↦ out
        | none ↦ preview_envelope codec s endpoint_preview_note
      ]

  -- After an array has been ruled out.
  unfoldable pub respond_object : Bool → Bytes → PageOptions → Bytes
  respond_object get s opts =
      elim (if get && not (is_empty opts.cursor_param)
        then bounded_single_array_page_object s opts
        else none) [ some out ↦ out | none ↦ pass_or_bound get s ]

  unfoldable pub endpoint_response_with : Bytes → Bytes → PageOptions → Bytes
  endpoint_response_with method s opts = elim (if is_get method then elements codec s else none) [
    | some items ↦
        if not (is_empty opts.cursor_param)
        then bounded_page_list_envelope codec (str "items") items s endpoint_list_note opts.cursor
            none []
        else bounded_list_envelope codec (str "items") items (length s) endpoint_list_note
    | none ↦ respond_object (is_get method) s opts
  ]

  unfoldable pub endpoint_response : Bytes → Bytes → Bytes
  endpoint_response method s = endpoint_response_with method s no_options

  unfoldable pub endpoint_page_response : Bytes → Bytes → PageOptions → Bytes
  endpoint_page_response method s opts =
      if is_empty opts.cursor_param && (is_empty opts.cursor && is_empty opts.next_cursor_path)
      then endpoint_response_with method s no_options
      else endpoint_response_with method s opts

  -- A value that is too long in both forms.
  unfoldable pub json_bounded : Bytes → Bytes
  json_bounded compact = elim (elements codec compact) [
    | some items ↦ bounded_list_envelope codec (str "items") items (length compact) json_result_note
    | none ↦
        elim (if starts_with b'{' (trim compact)
          then bounded_single_array_object codec compact json_result_note
          else none) [ some out ↦ out | none ↦ preview_envelope codec compact json_result_note ]
  ]

  -- JSON; `none` is the error of encoding/json.
  unfoldable pub json : Any → Option Bytes
  json v = elim (codec.marshal_indent v) [
    | none ↦ none
    | some long ↦ if leb (length long) max_bytes then some long else elim (codec.marshal v) [
      | none ↦ none
      | some compact ↦
          some (if leb (length compact) max_bytes then compact else json_bounded compact)
    ]
  ]

  -- Text
  unfoldable pub text_result : Bytes → Bytes
  text_result out =
      if leb (length out) max_bytes then out else preview_envelope codec out text_result_note
