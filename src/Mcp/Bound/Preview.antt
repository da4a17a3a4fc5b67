-- ===== src/Mcp/Bound/Preview.antt =====
-- internal/mcp/bound/bound.go: previewString and the previews of data that does not fit.
pub mod Runes
pub mod Whole
pub mod Rounds
use iconify_cli.Base.{
  ℕ, zero, suc, ◌+◌, ◌-◌, Bool, true, false, ◌&&◌, ◌||◌, ltb, leb, ◌==◌, Option, none, some, List,
  [], ◌∷◌, length, take, drop, min, if◌then◌else◌,
}
use iconify_cli.Base.Strings.{Str, str, is_empty}
use iconify_cli.Base.Int.{pos}
use iconify_cli.Mcp.Bound.Json.{
  Bytes, Any, Object, end, field, bool, int, text, object, Codec, max_bytes, max_preview_bytes,
  fitting, or_nil,
}

-- The bytes are the UTF-8 of one rune: no longer than needed, no surrogate, at most U+10FFFF.
unfoldable pub is_tail : ℕ → Bool
is_tail b = leb 0x80 b && leb b 0xbf

unfoldable pub is_rune : Bytes → Bool
unfolding is_tail
is_rune [] = false
is_rune (a ∷ []) = leb a 0x7f
is_rune (a ∷ b ∷ []) = leb 0xc2 a && (leb a 0xdf && is_tail b)
is_rune (a ∷ b ∷ c ∷ []) =
    is_tail c
    && (((a == 0xe0) && (leb 0xa0 b && leb b 0xbf))
        || (((a == 0xed) && (leb 0x80 b && leb b 0x9f))
            || (((leb 0xe1 a && leb a 0xec) || (leb 0xee a && leb a 0xef)) && is_tail b)))
is_rune (a ∷ b ∷ c ∷ d ∷ []) =
    (is_tail c && is_tail d)
    && (((a == 0xf0) && (leb 0x90 b && leb b 0xbf))
        || (((leb 0xf1 a && leb a 0xf3) && is_tail b)
            || ((a == 0xf4) && (leb 0x80 b && leb b 0x8f))))
is_rune (a ∷ b ∷ c ∷ d ∷ e ∷ s) = false

-- The bytes from the last one on that is no continuation byte.
unfoldable pub last_from : Bytes → Bytes
unfolding is_tail
last_from [] = []
last_from (b ∷ s) =
    let rest = last_from s in if is_empty rest then (if is_tail b then [] else b ∷ s) else rest

-- utf8.DecodeLastRune, which looks back for a byte that may start a rune, gives something else than
-- an error of size 1.
unfoldable pub ends_in_rune : Bytes → Bool
ends_in_rune s = is_rune (last_from s)

-- The loop of previewString over `limit`.
unfoldable pub cut_back : Bytes → ℕ → ℕ
cut_back s zero = 0
cut_back s (suc n) = elim (ends_in_rune (take (suc n) s)) [ true ↦ suc n | false ↦ cut_back s n ]

unfoldable pub preview_string : Bytes → ℕ → Bytes
preview_string s limit = take (cut_back s (min limit (length s))) s

-- if limit < 512 { limit = 0 } else { limit -= 512 }
unfoldable pub smaller : ℕ → ℕ
smaller limit = if ltb limit 512 then 0 else limit - 512

-- The loop `for limit >= 0`: the first of the limits whose attempt fits, with what it gives.
unfoldable pub first_fitting : (ℕ → Option Bytes) → ℕ → ℕ → Option (ℕ × Bytes)
first_fitting attempt zero limit = none
first_fitting attempt (suc fuel) limit = elim (fitting (attempt limit)) [
  | some out ↦ some (limit, out)
  | none ↦ elim (limit == 0) [ true ↦ none | false ↦ first_fitting attempt fuel (smaller limit) ]
]

-- `limit` falls in every round, so there are at most `limit + 1` of them.
unfoldable pub try_limits : (ℕ → Option Bytes) → ℕ → Option (ℕ × Bytes)
try_limits attempt limit = first_fitting attempt (limit + 1) limit

-- The envelope without its preview.
unfoldable pub bare_preview : ℕ → Bytes → Object
bare_preview original note = field (str "_pp_truncated") (bool true) (
    field (str "truncated") (bool true) (
      field (str "resumable") (bool false) (
        field (str "original_bytes") (int (pos original))
          (field (str "max_bytes") (int (pos max_bytes)) (field (str "note") (text note) end)))))

module _ (codec : Codec) where
  unfoldable pub preview_attempt : Bytes → Bytes → ℕ → Option Bytes
  preview_attempt s note limit = codec.marshal (
      object (field (str "preview") (text (preview_string s limit)) (bare_preview (length s) note)))

  unfoldable pub preview_envelope : Bytes → Bytes → Bytes
  preview_envelope s note =
      elim (try_limits (preview_attempt s note) (min (length s) max_preview_bytes)) [
        | some (limit, out) ↦ out
        | none ↦ or_nil (codec.marshal (object (bare_preview (length s) note)))
      ]
