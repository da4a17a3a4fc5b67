-- ===== src/Client/Path.antt =====
-- internal/client/client.go: a path in which a parameter is left open is refused.
use iconify_cli.Base.{
  ℕ, Bool, true, false, not, ◌&&◌, ◌||◌, leb, ◌==◌, Option, none, some, [], ◌∷◌, ◌++◌,
}
use iconify_cli.Base.Strings.{Str, is_empty}

-- A byte that a parameter's name may have; digits not at its front.
unfoldable pub is_name_byte : Bool → ℕ → Bool
is_name_byte first c =
    (c == b'_')
    || ((leb b'A' c && leb c b'Z')
        || ((leb b'a' c && leb c b'z') || (not first && (leb b'0' c && leb c b'9'))))

unfoldable pub all_name_bytes : Bool → Str → Bool
all_name_bytes first [] = true
all_name_bytes first (c ∷ s) = let rest = all_name_bytes false s in is_name_byte first c && rest

unfoldable pub is_path_placeholder_name : Str → Bool
is_path_placeholder_name name = not (is_empty name) && all_name_bytes true name

-- rejectUnresolvedPathParams without template variables; the result is the parameter it complains
-- of. Outside braces, and inside them with the name so far.
mutual
  unfolding is_path_placeholder_name

  pub outside : Str → Option Str
  outside [] = none
  outside (c ∷ s) = elim (c == b'{') [ true ↦ inside [] s | false ↦ outside s ]

  pub inside : Str → Str → Option Str
  inside name [] = none
  inside name (c ∷ s) = elim (c == b'}') [
    | true ↦ elim (is_path_placeholder_name name) [ true ↦ some name | false ↦ outside s ]
    | false ↦ inside (name ++ c ∷ []) s
  ]

unfoldable pub reject_unresolved_path_params : Str → Option Str
unfolding outside
reject_unresolved_path_params path = outside path
