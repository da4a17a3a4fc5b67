-- ===== src/Mcp/Bound/Cursor.antt =====
-- internal/mcp/bound/bound.go: the opaque cursors, and the cursor of the page after this one.
pub mod RoundTrip
use iconify_cli.Base.{
  ℕ, Bool, true, false, ◌&&◌, not, ltb, ◌==◌, Option, none, some, List, [], ◌∷◌, if◌then◌else◌,
}
use iconify_cli.Base.Strings.{Str, is_empty}
use iconify_cli.Base.Int.{ℤ, pos, negsuc, is_negative}
use iconify_cli.Mcp.Bound.Json.{Bytes, CursorState, Codec}

pub data CursorError : Type 0 where
  invalid_cursor unsupported_version invalid_offset : CursorError

pub data Decoded {ℓ} (A : Type ℓ) : Type ℓ where
  ok : A → Decoded A
  err : CursorError → Decoded A

-- endpointCursor{Version: 1}
abbrev pub start_state : CursorState
start_state = record { version = pos 1; offset = pos 0; upstream = [] }

-- state.Version == n
unfoldable pub is_version : ℕ → ℤ → Bool
is_version n (pos v) = v == n
is_version n (negsuc v) = false

unfoldable pub checked : CursorState → Decoded CursorState
unfolding is_version
checked s =
    if not (is_version 1 s.version)
    then err unsupported_version
    else if is_negative s.offset
    then err invalid_offset
    else ok s

unfoldable pub decode_state : Option CursorState → Decoded CursorState
decode_state none = err invalid_cursor
decode_state (some s) = checked s

module _ (codec : Codec) where
  unfoldable pub encode_endpoint_cursor : CursorState → Bytes
  unfolding is_version
  encode_endpoint_cursor s =
      let state : CursorState =
        if is_version 0 s.version then record s { version = pos 1 } else s in
      elim (codec.marshal_cursor state) [ none ↦ [] | some d ↦ codec.encode64 d ]

  unfoldable pub decode_data : Option Bytes → Decoded CursorState
  decode_data none = err invalid_cursor
  decode_data (some d) = decode_state (codec.unmarshal_cursor d)

  unfoldable pub decode_endpoint_cursor : Bytes → Decoded CursorState
  decode_endpoint_cursor cursor =
      if is_empty cursor then ok start_state else decode_data (codec.decode64 cursor)

  -- UpstreamCursor
  unfoldable pub upstream_cursor : Bytes → Decoded Bytes
  upstream_cursor cursor = elim (decode_endpoint_cursor cursor) [
    | ok s ↦ ok s.upstream
    | err e ↦ err e
  ]

  unfoldable pub next_page_cursor : ℕ → ℕ → Bytes → Bytes → Bytes
  next_page_cursor next_offset item_count current_upstream next_upstream =
      if ltb next_offset item_count
      then encode_endpoint_cursor
          (record start_state { offset = pos next_offset; upstream = current_upstream })
      else if not (is_empty next_upstream)
      then encode_endpoint_cursor (record start_state { upstream = next_upstream })
      else []
