-- ===== src/Iconindex/Sets.antt =====
-- internal/iconindex/index.go: a /collections payload becomes a sorted list of icon sets.
use iconify_cli.Base.{
  ℕ, ◌+◌, ◌-◌, ◌*◌, ◌^◌, Bool, true, false, ◌&&◌, ◌==◌, ltb, leb, Option, none, some, List, [], ◌∷◌,
  if◌then◌else◌,
}
use iconify_cli.Base.Strings.{Str, str_ltb, is_space}
use iconify_cli.Base.Sort.{sort}
use iconify_cli.Base.Dict.{Dict}
use iconify_cli.Base.Int.{ℤ, pos, negsuc}
use iconify_cli.Iconindex.Db.{SetInfo}

-- What encoding/json puts into an `any`: a number is kept by the integer that `int(t)` makes of
-- it; objects, Booleans and null are `other`.
mutual
  pub data Any : Type 0 where
    number : ℤ → Any
    text : Str → Any
    array : Elements → Any
    other : Any

  pub data Elements : Type 0 where
    nil : Elements
    cons : Any → Elements → Elements

-- An info block of /collections.
pub record InfoBlock : Type 0 where
  pub name : Str
  pub total : ℤ
  pub category : Str
  pub palette : Bool
  pub height : Any
  pub author_name : Str
  pub license_title : Str
  pub license_spdx : Str
  pub license_url : Str

-- fmt.Sscanf(t, "%d", &n): spaces, a sign, digits; a newline among the spaces is an error.
unfoldable pub is_digit : ℕ → Bool
is_digit c = leb b'0' c && leb c b'9'

unfoldable pub scan_digits : Bool → ℕ → Str → Option ℕ
unfolding is_digit
scan_digits seen acc [] = if seen then some acc else none
scan_digits seen acc (c ∷ s) = elim (is_digit c) [
  | true ↦ scan_digits true (acc * 10 + (c - b'0')) s
  | false ↦ if seen then some acc else none
]

unfoldable pub skip_spaces : Str → Option Str
unfolding is_space
skip_spaces [] = some []
skip_spaces (c ∷ s) =
    if c == b'\n' then none else elim (is_space c) [ true ↦ skip_spaces s | false ↦ some (c ∷ s) ]

-- strconv.ParseInt refuses what an int64 does not hold.
unfoldable pub positive : Option ℕ → Option ℤ
positive none = none
positive (some n) = if ltb n (2 ^ 63) then some (pos n) else none

unfoldable pub negative : Option ℕ → Option ℤ
negative none = none
negative (some n) =
    if n == 0 then some (pos 0) else if leb n (2 ^ 63) then some (negsuc (n - 1)) else none

unfoldable pub scan_signed : Str → Option ℤ
unfolding scan_digits positive negative
scan_signed [] = none
scan_signed (c ∷ s) =
    if c == b'-'
    then negative (scan_digits false 0 s)
    else if c == b'+'
    then positive (scan_digits false 0 s)
    else positive (scan_digits false 0 (c ∷ s))

unfoldable pub scan_int : Str → Option ℤ
unfolding skip_spaces scan_signed
scan_int s = elim (skip_spaces s) [ none ↦ none | some t ↦ scan_signed t ]

-- A number, a string or an array whose first element is one; anything else becomes 0.
mutual
  unfolding scan_int

  pub coerce_height : Any → ℤ
  coerce_height (number n) = n
  coerce_height (text t) = elim (scan_int t) [ none ↦ pos 0 | some n ↦ n ]
  coerce_height (array xs) = coerce_first xs
  coerce_height other = pos 0

  pub coerce_first : Elements → ℤ
  coerce_first nil = pos 0
  coerce_first (cons x xs) = coerce_height x

unfoldable pub set_info : Str → InfoBlock → SetInfo
unfolding coerce_height
set_info prefix b = record {
  prefix = prefix;
  name = b.name;
  total = b.total;
  category = b.category;
  author = b.author_name;
  license = b.license_title;
  spdx = b.license_spdx;
  url = b.license_url;
  palette = b.palette;
  height = coerce_height b.height;
}

unfoldable pub set_infos : Dict InfoBlock → List SetInfo
unfolding set_info
set_infos [] = []
set_infos ((prefix, b) ∷ m) = set_info prefix b ∷ set_infos m

unfoldable pub set_ltb : SetInfo → SetInfo → Bool
set_ltb a b = str_ltb a.prefix b.prefix

-- ParseSets, after the decoding of its payload.
unfoldable pub parse_sets : Dict InfoBlock → List SetInfo
unfolding set_infos set_ltb sort
parse_sets m = sort set_ltb (set_infos m)
