-- ===== src/Examples/CborRuns.antt =====
-- Runs of internal/codec/cbor.go.
use omni_schema.Prelude.{◌≡◌, refl, [], ◌∷◌, arith}
use omni_schema.Prelude.Int.{negsuc}
use omni_schema.Prelude.Bytes.{codes, valid_utf8, big_endian, text_lt, text_eq, mem_text}
use omni_schema.Prelude.Result.{ok}
use omni_schema.Uir.Types.{UirType}
use omni_schema.Uir.Node.{Any, Node, of_list, new_head, new_node}
use omni_schema.Codec.Cbor.Encode.{cbor_head, cbor_signed, encode_scalar, encode_fields}
use omni_schema.Codec.Cbor.Encode.{
  spend, collect, sort_fields, insert_field, encode_node, append_cbor,
}
use omni_schema.Codec.Cbor.Encode.{generate_cbor}
use omni_schema.Codec.Cbor.Half.{half_to_double}
use omni_schema.Codec.Cbor.Decode.{parse_cbor}
use omni_schema.Codec.Cbor.Decoded.{IsGoNode}
use omni_schema.Codec.Cbor.RoundTrip.{cbor_view, parse_cbor-generate_cbor}

abbrev pub ada : Node
ada = Node.node (new_head UirType.map (codes "Root") Any.nil) (
    of_list (
      new_node UirType.string (codes "name") (Any.text (codes "Ada"))
      ∷ new_node UirType.int32 (codes "id") (Any.int32 (negsuc 299))
      ∷ []))

-- {"id": -300, "name": "Ada"}
pub ada_bytes :
    generate_cbor ada
    ≡ ok (
        0xa2 ∷ 0x62 ∷ 0x69 ∷ 0x64 ∷ 0x39 ∷ 0x01 ∷ 0x2b ∷ 0x64 ∷ 0x6e ∷ 0x61 ∷ 0x6d ∷ 0x65 ∷ 0x63
        ∷ 0x41 ∷ 0x64 ∷ 0x61 ∷ [])
unfolding generate_cbor append_cbor encode_node encode_fields encode_scalar spend collect
    sort_fields insert_field cbor_head cbor_signed valid_utf8 big_endian text_lt text_eq mem_text
    new_node new_head
ada_bytes = refl

parse_cbor-generate_cbor_example :
    parse_cbor (
      0xa2 ∷ 0x62 ∷ 0x69 ∷ 0x64 ∷ 0x39 ∷ 0x01 ∷ 0x2b ∷ 0x64 ∷ 0x6e ∷ 0x61 ∷ 0x6d ∷ 0x65 ∷ 0x63
      ∷ 0x41 ∷ 0x64 ∷ 0x61 ∷ [])
    ≡ ok (cbor_view ada)
unfolding IsGoNode new_node new_head
parse_cbor-generate_cbor_example = parse_cbor-generate_cbor ada _ (omega arith) ada_bytes

-- 1.5 and the least subnormal half.
half_runs :
    (half_to_double 0x3e00 ≡ 0x3ff8_0000_0000_0000) × (half_to_double 1 ≡ 0x3e70_0000_0000_0000)
unfolding half_to_double
half_runs = (refl, refl)
