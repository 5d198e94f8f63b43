-- ===== src/Codec/Protobuf/Endless.antt =====
-- internal/codec/protobuf.go: the nodes on which encodeProtoField calls itself for ever.
use omni_schema.Prelude.{ℕ, zero, suc, ◌≡◌, refl, none, []}
use omni_schema.Prelude.Bytes.{codes, text_eq}
use omni_schema.Prelude.Result.{err}
use omni_schema.Uir.Types.{UirType}
use omni_schema.Uir.Node.{Any, Node, Nodes, Head, lookup}
use omni_schema.Uir.Coerce.{Host}
use omni_schema.Codec.Protobuf.{ProtoError, infer_proto_type}
use omni_schema.Codec.Protobuf.Encode.{
  encode_by_type, encode_body, encode_proto_field, generate_plain, proto_type_or,
}
use omni_schema.Codec.Protobuf.Values.{encode_by_name}

-- The types of nodes that are written as a message and are no map.
pub data IsOpen : UirType → Type 0 where
  union : IsOpen UirType.union
  interface : IsOpen UirType.interface
  definition : IsOpen UirType.definition

encode_by_name-unnamed : (host : Host) (tag : ℕ) (v : Any) → encode_by_name host tag [] v ≡ none
unfolding encode_by_name text_eq
encode_by_name-unnamed host tag v = refl

-- encodeProtoField does not end on a union, an interface or a definition that has no proto_type: no
-- number of nested calls is enough, whatever the tag, the children and the value.
pub encode_proto_field-IsOpen :
    (fuel : ℕ) (host : Host) (tag : ℕ) (h : Head) (ns : Nodes) (t : UirType)
    → IsOpen t
    → h.type ≡ t
    → lookup (codes "proto_type") h.annotations ≡ []
    → encode_proto_field fuel host tag (Node.node h ns) ≡ err ProtoError.out_of_fuel
unfolding encode_proto_field encode_body encode_by_type generate_plain proto_type_or
    infer_proto_type
encode_proto_field-IsOpen zero host tag h ns t open_type same bare = refl
encode_proto_field-IsOpen (suc fuel) host tag h ns t IsOpen.union same bare =
    let deeper = encode_proto_field-IsOpen fuel host 1 h ns _ IsOpen.union same bare in
    simp (same, bare, encode_by_name-unnamed host tag h.value, deeper) refl
encode_proto_field-IsOpen (suc fuel) host tag h ns t IsOpen.interface same bare =
    let deeper = encode_proto_field-IsOpen fuel host 1 h ns _ IsOpen.interface same bare in
    simp (same, bare, encode_by_name-unnamed host tag h.value, deeper) refl
encode_proto_field-IsOpen (suc fuel) host tag h ns t IsOpen.definition same bare =
    let deeper = encode_proto_field-IsOpen fuel host 1 h ns _ IsOpen.definition same bare in
    simp (same, bare, encode_by_name-unnamed host tag h.value, deeper) refl
