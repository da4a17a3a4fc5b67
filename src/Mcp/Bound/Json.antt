-- ===== src/Mcp/Bound/Json.antt =====
-- internal/mcp/bound/bound.go: the values that are built for encoding/json, and that package as a
-- parameter. A Go string or []byte is the list of its bytes.
use iconify_cli.Base.{
  ℕ, Bool, false, ◌&&◌, ◌||◌, leb, ◌==◌, Option, none, some, List, [], ◌∷◌, length, if◌then◌else◌,
}
use iconify_cli.Base.Strings.{Str, str_eq, is_empty}
use iconify_cli.Base.Dict.{Dict}
use iconify_cli.Base.Int.{ℤ}

abbrev pub Bytes : Type 0
Bytes = List ℕ

-- Go's `any`: what the package builds (`raw` is a json.RawMessage, `array` a []json.RawMessage, `one`
-- a slice of one map), and what decoding gives (`other` stands for the numbers and lists).
mutual
  pub data Any : Type 0 where
    null : Any
    bool : Bool → Any
    int : ℤ → Any
    text : Bytes → Any
    raw : Bytes → Any
    array : List Bytes → Any
    one : Object → Any
    object : Object → Any
    other : Bytes → Any

  pub data Object : Type 0 where
    end : Object
    field : Str → Any → Object → Object

-- m[k] = v
unfoldable pub set_field : Str → Any → Object → Object
set_field k v end = field k v end
set_field k v (field j w m) =
    let rest = set_field k v m in if str_eq j k then field k v m else field j w rest

-- m[k], with the presence flag
unfoldable pub get_field : Str → Object → Option Any
get_field k end = none
get_field k (field j w m) = let rest = get_field k m in if str_eq j k then some w else rest

-- delete(m, k)
unfoldable pub delete_field : Str → Object → Object
delete_field k end = end
delete_field k (field j w m) =
    let rest = delete_field k m in if str_eq j k then rest else field j w rest

-- The fields of an object that is kept as raw messages.
unfoldable pub raw_fields : Dict Bytes → Object
raw_fields [] = end
raw_fields ((k, v) ∷ obj) = field k (raw v) (raw_fields obj)

-- The state of a cursor, as encoding/json reads and writes it.
pub record CursorState : Type 0 where
  pub version : ℤ
  pub offset : ℤ
  pub upstream : Bytes

-- encoding/json and base64.RawURLEncoding: `none` is an error.
pub record Codec : Type 0 where
  pub marshal : Any → Option Bytes
  pub marshal_indent : Any → Option Bytes
  pub unmarshal : Bytes → Option Any
  pub unmarshal_array : Bytes → Option (List Bytes)
  pub unmarshal_object : Bytes → Option (Dict Bytes)
  pub marshal_cursor : CursorState → Option Bytes
  pub unmarshal_cursor : Bytes → Option CursorState
  pub encode64 : Bytes → Bytes
  pub decode64 : Bytes → Option Bytes

abbrev pub max_bytes : ℕ
max_bytes = 60000

abbrev pub max_items : ℕ
max_items = 50

abbrev pub max_preview_bytes : ℕ
max_preview_bytes = 4000

-- err == nil && len(out) <= MaxBytes
unfoldable pub fitting : Option Bytes → Option Bytes
fitting none = none
fitting (some out) = if leb (length out) max_bytes then some out else none

-- out, _ := json.Marshal(...)
unfoldable pub or_nil : Option Bytes → Bytes
or_nil none = []
or_nil (some out) = out

-- strings.TrimSpace on bytes: the first of white space at the front, after it the rest. White space
-- outside ASCII is U+0085, U+00A0, U+1680, U+2000 to U+200A, U+2028, U+2029, U+202F, U+205F and
-- U+3000 in UTF-8.
unfoldable pub ascii_space : ℕ → Bool
ascii_space c = (leb 9 c && leb c 13) || (c == 32)

unfoldable pub space2 : ℕ → ℕ → Bool
space2 a b = (a == 0xc2) && ((b == 0x85) || (b == 0xa0))

unfoldable pub space3 : ℕ → ℕ → ℕ → Bool
space3 a b c =
    ((a == 0xe1) && ((b == 0x9a) && (c == 0x80)))
    || (((a == 0xe2)
          && (((b == 0x80)
                && (leb 0x80 c && leb c 0x8a || ((c == 0xa8) || ((c == 0xa9) || (c == 0xaf)))))
              || ((b == 0x81) && (c == 0x9f))))
        || ((a == 0xe3) && ((b == 0x80) && (c == 0x80))))

unfoldable pub trim_front : Bytes → Bytes
unfolding ascii_space space2 space3
trim_front [] = []
trim_front (a ∷ []) = if ascii_space a then [] else a ∷ []
trim_front (a ∷ b ∷ []) =
    let one = trim_front (b ∷ []) in
    if ascii_space a then one else if space2 a b then [] else a ∷ b ∷ []
trim_front (a ∷ b ∷ c ∷ s) =
    let one = trim_front (b ∷ c ∷ s) in
    let two = trim_front (c ∷ s) in
    let three = trim_front s in
    if ascii_space a
    then one
    else if space2 a b
    then two
    else if space3 a b c
    then three
    else a ∷ b ∷ c ∷ s

-- A byte inside a rune never starts white space, so the suffixes that begin there do not matter.
unfoldable pub trim_back : Bytes → Bytes
trim_back [] = []
trim_back (c ∷ s) = let rest = trim_back s in if is_empty (trim_front (c ∷ s)) then [] else c ∷ rest

unfoldable pub trim : Bytes → Bytes
trim s = trim_back (trim_front s)

-- len(trimmed) > 0 && trimmed[0] == c
unfoldable pub starts_with : ℕ → Bytes → Bool
starts_with c [] = false
starts_with c (d ∷ s) = d == c

-- The elements, if the text is a JSON array.
module _ (codec : Codec) where
  unfoldable pub elements : Bytes → Option (List Bytes)
  elements s = if starts_with b'[' (trim s) then codec.unmarshal_array s else none
