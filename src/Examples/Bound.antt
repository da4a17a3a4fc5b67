-- ===== src/Examples/Bound.antt =====
-- The theorems of internal/mcp/bound at concrete inputs, with a small codec.
use iconify_cli.Base.{
  some-inj, ℕ, ◌-◌, ◌^◌, ◌≤◌, ◌<◌, ◌≡◌, refl, ◌≢◌, ◌⊎◌, false, ◌==◌, Option, none, some, List, [],
  ◌∷◌, ◌++◌, arith, length, take, min, if◌then◌else◌, subst,
}
use iconify_cli.Base.Strings.{str, is_empty}
use iconify_cli.Base.Int.{ℤ, pos, negsuc}
use iconify_cli.Mcp.Bound.Json.{
  Bytes, Any, int, text, array, object, Object, end, field, CursorState, Codec, fitting, or_nil,
  max_bytes, max_items, max_preview_bytes,
}
use iconify_cli.Mcp.Bound.Cursor.{ok, decode_endpoint_cursor, encode_endpoint_cursor}
use iconify_cli.Mcp.Bound.Cursor.RoundTrip.{IsFaithful, decode-encode_endpoint_cursor}
use iconify_cli.Mcp.Bound.Preview.{bare_preview, preview_string}
use iconify_cli.Mcp.Bound.Preview.Whole.{join, preview_string-join}
use iconify_cli.Mcp.Bound.Fit.{list_object, fit_json_items}
use iconify_cli.Mcp.Bound.Fit.Longest.{fits, fit_json_items_lem}
use iconify_cli.Mcp.Bound.Pages.{PageShape, page_object, fit_json_page_items}
use iconify_cli.Mcp.Bound.Pages.Progress.{
  run_fits, Runs, Previews, ShowsNothing, fit_json_page_items_lem,
}
use iconify_cli.Mcp.Bound.Pages.Walk.{follow, follow_all}
use iconify_cli.Mcp.Bound.Respond.{PageOptions, endpoint_page_response, json}
use iconify_cli.Mcp.Bound.Respond.Limits.{
  IsCompact, IsShort, length-endpoint_page_response, length-json,
}

-- The field names, and the elements of arrays.
abbrev flat : Object → Bytes
flat end = []
flat (field k (array xs) m) = join xs ++ flat m
flat (field k v m) = k ++ flat m

abbrev marshal : Any → Option Bytes
marshal (object m) = some (flat m)
marshal v = none

abbrev sign : ℤ → ℕ
sign (pos n) = 0
sign (negsuc n) = 1

abbrev size : ℤ → ℕ
size (pos n) = n
size (negsuc n) = n

abbrev signed : ℕ → ℕ → ℤ
signed s n = if s == 0 then pos n else negsuc n

signed-sign : (z : ℤ) → signed (sign z) (size z) ≡ z
signed-sign (pos n) = refl
signed-sign (negsuc n) = refl

abbrev read_cursor : Bytes → Option CursorState
read_cursor (a ∷ b ∷ c ∷ d ∷ u) =
    some (record { version = signed a b; offset = signed c d; upstream = u })
read_cursor _ = none

abbrev tail : Bytes → Option Bytes
tail [] = none
tail (c ∷ s) = some s

abbrev one_element : Bytes → Option (List Bytes)
one_element [] = none
one_element (c ∷ s) = some ((c ∷ s) ∷ [])

abbrev codec : Codec
codec = record {
  marshal = marshal;
  marshal_indent = marshal;
  unmarshal = λ s. some (text s);
  unmarshal_array = one_element;
  unmarshal_object = λ s. some ((str "items", s) ∷ []);
  marshal_cursor =
      λ s. some (sign s.version ∷ size s.version ∷ sign s.offset ∷ size s.offset ∷ s.upstream);
  unmarshal_cursor = read_cursor;
  encode64 = λ d. 0 ∷ d;
  decode64 = tail;
}

abbrev IsAny : Bytes → Type 0
IsAny s = Unit {0}

faithful : IsFaithful codec IsAny
faithful = record {
  marshalled = λ s t. (_, refl, rw (signed-sign s.version, signed-sign s.offset) refl);
  encoded = λ d. refl;
  filled = λ s d h. refl;
}

decode-encode_endpoint_cursor_example :
    let s : CursorState = record { version = pos 1; offset = pos 3; upstream = str "abc" } in
    (decode_endpoint_cursor codec (encode_endpoint_cursor codec s) ≡ ok s)
    × (is_empty (encode_endpoint_cursor codec s) ≡ false)
decode-encode_endpoint_cursor_example =
    decode-encode_endpoint_cursor codec IsAny faithful 3 (str "abc") tt

-- "aé€" in UTF-8, cut inside the last rune.
abbrev runes : List Bytes
runes = (0x61 ∷ []) ∷ (0xc3 ∷ 0xa9 ∷ []) ∷ (0xe2 ∷ 0x82 ∷ 0xac ∷ []) ∷ []

preview_cut : preview_string (join runes) 5 ≡ 0x61 ∷ 0xc3 ∷ 0xa9 ∷ []
unfolding preview_string iconify_cli.Mcp.Bound.Preview.cut_back
    iconify_cli.Mcp.Bound.Preview.ends_in_rune iconify_cli.Mcp.Bound.Preview.is_rune
    iconify_cli.Mcp.Bound.Preview.last_from
preview_cut = refl

preview_string-join_example :
    (j : ℕ) × (preview_string (join runes) 5 ≡ join (take j runes))
    × (length (preview_string (join runes) 5) ≤ 5)
    × ((i : ℕ)
        → length (join (take i runes)) ≤ 5
        → length (join (take i runes)) ≤ length (preview_string (join runes) 5))
preview_string-join_example =
    preview_string-join runes 5
      (unfold iconify_cli.Mcp.Bound.Preview.is_rune in (refl, (refl, (refl, tt))))

abbrev items : List Bytes
items = str "1" ∷ str "2" ∷ str "3" ∷ []

abbrev build : List Bytes → Any
build = list_object (str "items") items 9 (str "note")

fit_json_items_lem_example :
    ((n : ℕ) × (0 < n)
      × (n ≤ min (length items) max_items)
      × (fits codec build items n ≡ some (fit_json_items codec items build))
      × ((m : ℕ) → n < m → m ≤ min (length items) max_items → fits codec build items m ≡ none))
    ⊎ ((fit_json_items codec items build ≡ or_nil (codec.marshal (build [])))
        × ((m : ℕ) → 0 < m → m ≤ min (length items) max_items → fits codec build items m ≡ none))
fit_json_items_lem_example = fit_json_items_lem codec build items

abbrev shape : PageShape
shape = record {
  name = str "items";
  items = items;
  original = 9;
  note = str "note";
  base = none;
  current_upstream = str "u";
  next_upstream = [];
}

fit_json_page_items_lem_example :
    let p = fit_json_page_items codec (page_object shape) items 1 (str "u") [] in
    ((n : ℕ) × (0 < n)
      × (n ≤ min (length items - 1) max_items)
      × Runs codec (page_object shape) items 1 (str "u") [] n p
      × ((m : ℕ)
          → n < m
          → m ≤ min (length items - 1) max_items
          → run_fits codec (page_object shape) items 1 (str "u") [] m ≡ none))
    ⊎ (((m : ℕ)
          → 0 < m
          → m ≤ min (length items - 1) max_items
          → run_fits codec (page_object shape) items 1 (str "u") [] m ≡ none)
        × (((l : ℕ) × (l ≤ max_preview_bytes)
              × Previews codec (page_object shape) items 1 (str "u") [] (str "2") l p)
            ⊎ ShowsNothing codec (page_object shape) items 1 (str "u") [] (str "2") p))
fit_json_page_items_lem_example =
    fit_json_page_items_lem codec (page_object shape) items 1 (str "u") [] (str "2") refl

-- The same with a marshaller that writes every value in two bytes.
abbrev terse : Codec
terse = record {
  marshal = λ v. some (str "{}");
  marshal_indent = λ v. some (str "{}");
  unmarshal = codec.unmarshal;
  unmarshal_array = one_element;
  unmarshal_object = codec.unmarshal_object;
  marshal_cursor = codec.marshal_cursor;
  unmarshal_cursor = read_cursor;
  encode64 = codec.encode64;
  decode64 = tail;
}

terse_faithful : IsFaithful terse IsAny
terse_faithful = record {
  marshalled = λ s t. (_, refl, rw (signed-sign s.version, signed-sign s.offset) refl);
  encoded = λ d. refl;
  filled = λ s d h. refl;
}

compact : IsCompact terse
compact = record {
  previews = λ n note h k. unfold or_nil in omega arith;
  lists = λ items n note h k l. unfold or_nil in omega arith;
}

one_element-le : (s : Bytes) (xs : List Bytes) → one_element s ≡ some xs → length xs ≤ length s
one_element-le [] xs h = ground arith
one_element-le (c ∷ s) xs h =
    let e : (c ∷ s) ∷ [] ≡ xs = cc in
    subst (λ (ys : List Bytes). length ys ≤ length (c ∷ s)) e (omega arith)

short : IsShort terse
short = record { elements = one_element-le }

one_fits :
    (i : ℕ) → i < length items → run_fits terse (page_object shape) items i (str "u") [] 1 ≢ none
unfolding fitting page_object
one_fits i h e = cc

follow_all_example : follow terse (page_object shape) items (str "u") 4 0 ≡ items
follow_all_example =
    follow_all terse (page_object shape) items (str "u") IsAny terse_faithful tt 4 one_fits
      (omega arith)

abbrev options : PageOptions
options = record { cursor_param = str "c"; next_cursor_path = []; cursor = [] }

length-endpoint_page_response_example :
    length (endpoint_page_response terse (str "get") (str "[1]") options) ≤ max_bytes
length-endpoint_page_response_example =
    length-endpoint_page_response terse compact short (str "get") (str "[1]") options (omega arith)

length-json_example :
    ((out : Bytes) × (json terse (int (pos 3)) ≡ some out) × (length out ≤ max_bytes))
    ⊎ ((json terse (int (pos 3)) ≡ none)
        × ((terse.marshal_indent (int (pos 3)) ≡ none) ⊎ (terse.marshal (int (pos 3)) ≡ none)))
length-json_example =
    length-json terse compact short (int (pos 3))
      (λ out h. subst (λ (b : Bytes). length b < 2 ^ 63) (some-inj h) (omega arith))
