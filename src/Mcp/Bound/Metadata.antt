-- ===== src/Mcp/Bound/Metadata.antt =====
-- internal/mcp/bound/bound.go: WithMetadata, the platform's envelope around a bounded result.
use iconify_cli.Base.{ℕ, Bool, true, false, Option, none, some, length, min}
use iconify_cli.Base.Strings.{str}
use iconify_cli.Base.Int.{pos}
use iconify_cli.Mcp.Bound.Json.{
  Bytes, Any, Object, end, field, bool, int, text, one, object, Codec, max_bytes, max_preview_bytes,
  fitting, or_nil, set_field, get_field, delete_field,
}
use iconify_cli.Mcp.Bound.Preview.{preview_string, try_limits}
use iconify_cli.Mcp.Bound.Respond.{object_in}

-- []map[string]any{{"kind": "mcp_output_limit", ...}}
unfoldable pub output_limit : ℕ → Any
output_limit observed = one (
    field (str "kind") (text (str "mcp_output_limit")) (
      field (str "configured") (int (pos max_bytes)) (
        field (str "observed") (int (pos observed))
          (field (str "more_available") (bool true) end))))

-- b, _ := v.(bool)
unfoldable pub is_true : Option Any → Bool
is_true (some (bool b)) = b
is_true _ = false

-- The metadata of a payload that the package has truncated.
unfoldable pub marked : ℕ → Object → Object
marked observed meta =
    let m = set_field (str "truncated") (bool true) meta in
    elim (get_field (str "truncation_reasons") m) [
      | some reasons ↦ m
      | none ↦ set_field (str "truncation_reasons") (output_limit observed) m
    ]

abbrev pub both : Any → Any → Any
both payload meta = object (field (str "data") payload (field (str "meta") meta end))

module _ (codec : Codec) where
  unfoldable pub metadata_attempt : Object → Bytes → ℕ → Option Bytes
  metadata_attempt meta original limit = codec.marshal (
      both
        (object (
          field (str "preview") (text (preview_string original limit))
            (field (str "resumable") (bool false) end)))
        (object meta))

  -- What does not fit is replaced by a preview, and at the worst by the metadata alone.
  unfoldable pub marshal_metadata_envelope : Any → Object → Bytes → Bytes
  marshal_metadata_envelope payload meta original =
      elim (fitting (codec.marshal (both payload (object meta)))) [
        | some out ↦ out
        | none ↦
            let m =
              set_field (str "truncation_reasons") (output_limit (length original))
                (set_field (str "truncated") (bool true) meta) in
            elim (try_limits (metadata_attempt m original)
              (min max_preview_bytes (length original))) [
                | some (limit, out) ↦ out
                | none ↦ or_nil (
                    codec.marshal
                      (both (object (field (str "resumable") (bool false) end)) (object m)))
              ]
      ]

  -- The payload and the metadata, before they are put together.
  unfoldable pub with_payload : Option Object → Any → Object → Bytes → Bytes
  with_payload none payload meta result = marshal_metadata_envelope payload meta result
  with_payload (some obj) payload meta result =
      elim (is_true (get_field (str "_pp_truncated") obj)) [
        | true ↦
            marshal_metadata_envelope (object (delete_field (str "_pp_truncated") obj))
              (marked (length result) meta) result
        | false ↦ marshal_metadata_envelope payload meta result
      ]

  unfoldable pub with_meta : Bytes → Object → Bytes
  with_meta result meta =
      let payload : Any = elim (codec.unmarshal result) [ none ↦ text result | some v ↦ v ] in
      with_payload (object_in payload) payload meta result

  -- json.Unmarshal into a map: an object, or null for a nil map, into which nothing can be written.
  unfoldable pub with_metadata : Bytes → Any → Bytes
  with_metadata result metadata = elim (codec.marshal metadata) [
    | none ↦ result
    | some bytes ↦ elim (codec.unmarshal bytes) [
      | none ↦ result
      | some v ↦ elim (object_in v) [ none ↦ result | some meta ↦ with_meta result meta ]
    ]
  ]
