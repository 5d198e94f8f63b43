-- ===== src/Examples/PayloadRuns.antt =====
-- Runs of internal/codec/options.go, formats.go and cbor_target.go.
use omni_schema.Prelude.{◌≡◌, ◌≤◌, ◌↔◌, refl, ap, arith, true, false, List, [], ◌∷◌, ℕ}
use omni_schema.Prelude.Bytes.{codes, text_lt, text_eq, mem_text}
use omni_schema.Prelude.Result.{ok, err}
use omni_schema.Uir.Presence.{BytesPolicy}
use omni_schema.Uir.Node.{Node, new_head, new_node, annotation, set_annotation, lookup, insert}
use omni_schema.Prelude.Maps.{find}
use omni_schema.Uir.Project.Walk.{depth}
use omni_schema.Uir.Coerce.{LossinessPolicy}
use omni_schema.Codec.Cbor.Decoded.{
  IsGoNode, decoded_node, decoded_scalar, decoded_fields, decoded_items, kept,
}
use omni_schema.Codec.Cbor.Encode.{sort_fields, insert_field}
use omni_schema.Prelude.Float.{is_nan, is_inf}
use omni_schema.Codec.Cbor.RoundTrip.{cbor_view}
use omni_schema.Codec.MsgPack.Decoded.{decoded}
use omni_schema.Codec.MsgPack.Encode.{
  generate_message_pack, encode_items, encode_fields, child_count, encode_typed, encode_string,
  str_head, map_head, encode_integer, encode_signed,
}
use omni_schema.Codec.Options.{Options}
use omni_schema.Codec.Formats.{
  Unicode, is_ascii, to_lower, trim_left, trim_right, trim_space, trim_dot, alias_of,
  normalize_format, requires_external_schema,
}
use omni_schema.Codec.Target.{
  is_null, is_non_finite, validate_cbor_target, validate_node, check_root, check_node,
  check_graphql, check_float, check_table, check_message,
}
use omni_schema.Codec.Target.Kept.{Refuses, nowhere, validate_cbor_target-nowhere}
use omni_schema.Codec.Payload.{
  CodecError, Others, encode_payload, decode_payload, encoders, get_encoder, check_schema,
  failed_as,
}
use omni_schema.Codec.Payload.Exchange.{
  decode_payload-encode_payload_cbor, decode_payload-encode_payload_msgpack,
  encode_payload-decode_payload_nowhere,
}
use omni_schema.Examples.CborRuns.{ada, ada_bytes}
use omni_schema.Examples.MsgPackRuns.{builtins, pair, pair-Fits}
use omni_schema.Examples.ProjectRuns.{host}

abbrev unicode : Unicode
unicode = record { lower = λ s. s; trim = λ s. s }

abbrev others : Others
others = record {
  unicode = unicode;
  builtins = builtins;
  host = host;
  fuel = 10;
  parse_json = λ bytes. err CodecError.other;
  parse_graphql = λ bytes. err CodecError.other;
  parse_with = λ name bytes opts. err CodecError.other;
  generate = λ name n. ok [];
  generate_with = λ name n opts. ok [];
}

abbrev no_options : Options
no_options = record {
  schema = Node.nil;
  type_name = [];
  bytes = BytesPolicy.base64;
  lossiness = LossinessPolicy.strict;
  require_type = false;
}

format_runs :
    (normalize_format unicode (codes " .PB ") ≡ codes "protobuf")
    × (normalize_format unicode (codes " .Cbor") ≡ codes "cbor")
    × (normalize_format unicode (codes " Yaml ") ≡ codes "yaml")
unfolding normalize_format to_lower trim_space trim_left trim_right trim_dot is_ascii alias_of
    mem_text text_eq
format_runs = (refl, refl, refl)

validate_cbor_target-nowhere_example :
    (validate_cbor_target unicode ada (codes ".pb") ≡ ok tt)
    ↔ ((nowhere is_null ada ≡ true) × (depth ada ≤ 65))
unfolding normalize_format to_lower trim_space trim_left trim_right trim_dot is_ascii alias_of
    mem_text text_eq
validate_cbor_target-nowhere_example =
    validate_cbor_target-nowhere unicode (codes ".pb") is_null ada Refuses.protobuf

abbrev ada_wire : List ℕ
ada_wire =
    0xa2 ∷ 0x62 ∷ 0x69 ∷ 0x64 ∷ 0x39 ∷ 0x01 ∷ 0x2b ∷ 0x64 ∷ 0x6e ∷ 0x61 ∷ 0x6d ∷ 0x65 ∷ 0x63 ∷ 0x41
    ∷ 0x64 ∷ 0x61 ∷ []

decode_payload-encode_payload_cbor_example :
    decode_payload others (codes "CBOR") ada_wire no_options ≡ ok (cbor_view ada)
unfolding IsGoNode new_node new_head normalize_format to_lower trim_space trim_left trim_right
    trim_dot is_ascii alias_of mem_text text_eq encode_payload get_encoder encoders find
    check_schema annotation lookup requires_external_schema
decode_payload-encode_payload_cbor_example =
    decode_payload-encode_payload_cbor others (codes "CBOR") ada no_options ada_wire refl
      (omega arith) (ap (failed_as CodecError.cbor) ada_bytes)

abbrev pair_wire : List ℕ
pair_wire = 0x82 ∷ 0xa1 ∷ 97 ∷ 0xfd ∷ 0xa1 ∷ 98 ∷ 0xc3 ∷ []

decode_payload-encode_payload_msgpack_example :
    decode_payload others (codes "messagepack") pair_wire no_options ≡ ok (decoded builtins [] pair)
unfolding generate_message_pack encode_items encode_fields child_count encode_typed encode_string
    str_head map_head encode_integer encode_signed new_node new_head normalize_format to_lower
    trim_space trim_left trim_right trim_dot is_ascii alias_of mem_text text_eq encode_payload
    get_encoder encoders find check_schema annotation lookup requires_external_schema
decode_payload-encode_payload_msgpack_example =
    decode_payload-encode_payload_msgpack others (codes "messagepack") pair no_options pair_wire
      refl pair-Fits refl

encode_payload-decode_payload_nowhere_example :
    (nowhere is_non_finite (cbor_view ada) ≡ true) × (depth (cbor_view ada) ≤ 65)
unfolding normalize_format to_lower trim_space trim_left trim_right trim_dot is_ascii alias_of
    mem_text text_eq encode_payload get_encoder encoders find check_schema annotation lookup insert
    set_annotation requires_external_schema cbor_view decoded decoded_node decoded_scalar
    decoded_fields decoded_items kept new_node new_head validate_cbor_target validate_node
    check_root check_node check_graphql check_float check_table check_message is_nan is_inf
    sort_fields insert_field text_lt omni_schema.Codec.Cbor.Decoded.decoded
    omni_schema.Codec.Cbor.Decode.map_node
encode_payload-decode_payload_nowhere_example =
    encode_payload-decode_payload_nowhere others (codes "CBOR") (codes "json") ada_wire []
      (cbor_view ada) no_options no_options is_non_finite refl Refuses.json
      decode_payload-encode_payload_cbor_example refl
