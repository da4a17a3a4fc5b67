-- ===== src/Mcp/Bound/Cursor/RoundTrip.antt =====
-- A cursor read back gives the state that it was made of.
use iconify_cli.Base.{ℕ, ◌≡◌, refl, false, some, arith}
use iconify_cli.Base.Strings.{is_empty}
use iconify_cli.Base.Int.{pos}
use iconify_cli.Mcp.Bound.Json.{Bytes, CursorState, Codec}
use iconify_cli.Mcp.Bound.Cursor.{
  ok, checked, decode_state, decode_data, decode_endpoint_cursor, encode_endpoint_cursor,
}

-- What is relied on of encoding/json and encoding/base64: what they write they read back. `IsText` is
-- valid UTF-8, which json.Marshal would replace otherwise.
pub record IsFaithful (codec : Codec) (IsText : Bytes → Type 0) : Type 0 where
  pub marshalled :
      (s : CursorState)
      → IsText s.upstream
      → (d : Bytes) × (codec.marshal_cursor s ≡ some d) × (codec.unmarshal_cursor d ≡ some s)
  pub encoded : (d : Bytes) → codec.decode64 (codec.encode64 d) ≡ some d
  pub filled :
      (s : CursorState) (d : Bytes)
      → codec.marshal_cursor s ≡ some d
      → is_empty (codec.encode64 d) ≡ false

module _ (codec : Codec) (IsText : Bytes → Type 0) (c : IsFaithful codec IsText) where
  -- A cursor of version 1 decodes to its state, and is not empty, if its upstream cursor is text.
  pub decode-encode_endpoint_cursor :
      (offset : ℕ) (u : Bytes)
      → IsText u
      → let s : CursorState = record { version = pos 1; offset = pos offset; upstream = u } in
        (decode_endpoint_cursor codec (encode_endpoint_cursor codec s) ≡ ok s)
        × (is_empty (encode_endpoint_cursor codec s) ≡ false)
  unfolding decode_endpoint_cursor encode_endpoint_cursor decode_data decode_state checked
  decode-encode_endpoint_cursor offset u t =
      let s : CursorState = record { version = pos 1; offset = pos offset; upstream = u } in
      let (d, m, r) = c.marshalled s t in
      let f = c.filled s d m in
      let e : encode_endpoint_cursor codec s ≡ codec.encode64 d =
        rw (m, encode_endpoint_cursor) refl in
      rw e (ground (arith, f, c.encoded d, r), f)
