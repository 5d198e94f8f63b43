-- ===== src/Examples/ProtobufRuns.antt =====
-- Runs of internal/codec/protobuf.go.
use omni_schema.Prelude.{ℕ, ◌≡◌, ◌≢◌, refl, arith, List, [], ◌∷◌, false}
use omni_schema.Prelude.Int.{negsuc}
use omni_schema.Prelude.Bytes.{Text, codes, text_eq, mem_text}
use omni_schema.Prelude.Result.{ok, err}
use omni_schema.Uir.Types.{UirType}
use omni_schema.Uir.Node.{
  Any, Node, Nodes, Head, new_head, new_node, lookup, of_list, insert, find_named_type,
}
use omni_schema.Prelude.Maps.{find, put}
use omni_schema.Codec.Protobuf.{
  ProtoError, encode_varint, decode_varint, fields_by_tag, field_by_tag, proto_tag, parse_uint,
}
use omni_schema.Codec.Protobuf.Encode.{
  encode_proto_field, copy_proto_meta, proto_type_or, present_field, index_fields,
  generate_protobuf_with_options,
}
use omni_schema.Codec.Protobuf.Decode.{message, parse_protobuf_message, parse_protobuf_with_options}
use omni_schema.Codec.Protobuf.Varint.{decode_varint-encode_varint}
use omni_schema.Codec.Protobuf.Finishes.{parse_protobuf-Fine}
use omni_schema.Codec.Protobuf.Endless.{IsOpen, encode_proto_field-IsOpen}
use omni_schema.Codec.Protobuf.Scalars.{IsScalar}
use omni_schema.Codec.Protobuf.Plain.{IsPlain}
use omni_schema.Codec.Protobuf.RoundTrip.{
  FieldValue, IsScalarField, ScalarFields, ReadAs, parse_protobuf-generate_protobuf,
}
use omni_schema.Codec.Options.{Options, require_type}
use omni_schema.Uir.Presence.{BytesPolicy}
use omni_schema.Uir.Coerce.{LossinessPolicy}
use omni_schema.Examples.ProjectRuns.{host}

decode_varint-encode_varint_example : decode_varint (0xac ∷ 0x02 ∷ 0xff ∷ []) ≡ ok (300, 2)
unfolding encode_varint
decode_varint-encode_varint_example = decode_varint-encode_varint 300 (0xff ∷ []) (omega arith)

parse_protobuf-Fine_example :
    (parse_protobuf_message 3 host Node.nil (0x08 ∷ 0x96 ∷ 0x01 ∷ []) ≢ err ProtoError.out_of_fuel)
    × (parse_protobuf_message 5 host Node.nil (0x08 ∷ 0x96 ∷ 0x01 ∷ [])
        ≡ parse_protobuf_message 3 host Node.nil (0x08 ∷ 0x96 ∷ 0x01 ∷ []))
parse_protobuf-Fine_example =
    parse_protobuf-Fine host Node.nil (0x08 ∷ 0x96 ∷ 0x01 ∷ []) 5 (omega arith)

-- message M { int32 delta = 1; string name = 2; bool gone = 3; }
abbrev typed : UirType → Text → Text → Head
typed type key proto_type = record (new_head type key Any.nil) {
  annotations = (codes "proto_type", proto_type) ∷ [];
}

abbrev delta : Head
delta = typed UirType.int32 (codes "delta") (codes "int32")

abbrev name : Head
name = typed UirType.string (codes "name") (codes "string")

abbrev gone : Head
gone = typed UirType.boolean (codes "gone") (codes "bool")

abbrev later_fields : Nodes
later_fields = of_list (Node.node name Nodes.none ∷ Node.node gone Nodes.none ∷ [])

abbrev schema_head : Head
schema_head = new_head UirType.map (codes "M") Any.nil

abbrev schema : Node
schema = Node.node schema_head (Nodes.more (Node.node delta Nodes.none) later_fields)

abbrev options : Options
options = record {
  schema = schema;
  type_name = codes "M";
  bytes = BytesPolicy.base64;
  lossiness = LossinessPolicy.strict;
  require_type = false;
}

-- The data in another order than the schema, and without the last field.
abbrev name_data : Head
name_data = new_head UirType.string (codes "name") (Any.text (codes "Ada"))

abbrev delta_data : Head
delta_data = new_head UirType.int32 (codes "delta") (Any.int32 (negsuc 2))

abbrev data_fields : Nodes
data_fields = of_list (Node.node name_data Nodes.none ∷ Node.node delta_data Nodes.none ∷ [])

abbrev data_index : List (Text × Node)
data_index =
    (codes "name", Node.node name_data Nodes.none)
    ∷ (codes "delta", Node.node delta_data Nodes.none)
    ∷ []

delta_scalar : IsScalarField schema delta Nodes.none 0 delta_data (codes "int32") UirType.int32
unfolding new_head proto_tag parse_uint fields_by_tag field_by_tag lookup text_eq copy_proto_meta
    proto_type_or insert
delta_scalar = record {
  tag_bound = omega arith;
  known = refl;
  named = refl;
  written_as = refl;
  value = FieldValue.plain refl refl (IsPlain.int32 (negsuc 2) (omega arith));
}

name_scalar : IsScalarField schema name Nodes.none 1 name_data (codes "string") UirType.string
unfolding new_head proto_tag parse_uint fields_by_tag field_by_tag lookup text_eq copy_proto_meta
    proto_type_or insert
name_scalar = record {
  tag_bound = omega arith;
  known = refl;
  named = refl;
  written_as = refl;
  value = FieldValue.named refl (IsScalar.string (codes "Ada") (omega arith));
}

abbrev matched : Head → Head → List (Text × Node) → List (Text × Node)
matched h f idx = put h.key (Node.node (copy_proto_meta h f) Nodes.none) idx

abbrev after_delta : List (Text × Node)
after_delta = matched delta_data delta data_index

abbrev after_name : List (Text × Node)
after_name = matched name_data name after_delta

fields_scalars :
    ScalarFields schema data_index 0 (Nodes.more (Node.node delta Nodes.none) later_fields)
unfolding present_field find put copy_proto_meta new_head text_eq lookup insert
fields_scalars =
    ScalarFields.written data_index 0 delta Nodes.none later_fields delta_data Nodes.none
      (codes "int32") UirType.int32 refl delta_scalar
      (ScalarFields.written after_delta 1 name Nodes.none _ name_data Nodes.none (codes "string")
        UirType.string refl name_scalar
        (ScalarFields.left_out after_name 2 gone Nodes.none Nodes.none refl
          (ScalarFields.no_more after_name 3)))

parse_protobuf-generate_protobuf_example :
    (bs : List ℕ) × (out : Nodes) × (generate_protobuf_with_options 1 host
        (Node.node (new_head UirType.map (codes "row") Any.nil) data_fields)
        options
      ≡ ok bs)
    × (parse_protobuf_with_options host bs options ≡ ok (message (codes "M") out))
    × ReadAs fields_scalars out
unfolding new_head require_type find_named_type index_fields put text_eq mem_text
parse_protobuf-generate_protobuf_example =
    parse_protobuf-generate_protobuf 0 host options schema_head
      (new_head UirType.map (codes "row") Any.nil) delta Nodes.none later_fields data_fields
      data_index refl refl refl refl refl fields_scalars

encode_proto_field-IsOpen_example :
    encode_proto_field 7 host 3 (new_node UirType.union (codes "payload") Any.nil)
    ≡ err ProtoError.out_of_fuel
unfolding new_node new_head lookup
encode_proto_field-IsOpen_example =
    encode_proto_field-IsOpen 7 host 3 (new_head UirType.union (codes "payload") Any.nil) Nodes.none
      UirType.union IsOpen.union refl refl
