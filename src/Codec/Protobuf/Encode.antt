-- ===== src/Codec/Protobuf/Encode.antt =====
-- internal/codec/protobuf.go: GenerateProtobuf. The recursion is on fuel, and `rec` is the encoder of a
-- field with one unit less.
use omni_schema.Prelude.{ℕ, zero, suc, Bool, true, false, not, ◌&&◌, ◌||◌, if◌then◌else◌}
use omni_schema.Prelude.{Option, none, some, List, [], ◌++◌}
use omni_schema.Prelude.Bytes.{Text, codes, is_empty}
use omni_schema.Prelude.Maps.{find, put}
use omni_schema.Prelude.Result.{Result, ok, err, ◌>>=◌}
use omni_schema.Uir.Types.{UirType, type_eq}
use omni_schema.Uir.Presence.{Presence}
use omni_schema.Uir.Node.{is_nil_node, children_of, Node, Nodes, Head, lookup, insert}
use omni_schema.Uir.Coerce.{Host}
use omni_schema.Codec.Options.{Options, require_type}
use omni_schema.Codec.Protobuf.{
  ProtoError, append_varint, append_fixed64, append_len, proto_tag, infer_proto_type,
}
use omni_schema.Codec.Protobuf.Values.{
  as_uint64, float64_bits, bool_bit, text_bytes, bytes_of, encode_by_name,
}

abbrev pub Encoded : Type 0
Encoded = Result ProtoError (List ℕ)

abbrev pub Encoder : Type 0
Encoder = ℕ → Node → Encoded

-- protoTypeOr
unfoldable pub proto_type_or : Head → Text → Text
proto_type_or h fallback =
    let t = lookup (codes "proto_type") h.annotations in if is_empty t then fallback else t

-- Two results one behind the other.
abbrev pub append_both : Encoded → Encoded → Encoded
append_both (err e) y = err e
append_both (ok b) (err e) = err e
append_both (ok b) (ok c) = ok (b ++ c)

abbrev pub set_if_empty : Text → Head → Head → Head
set_if_empty k src dst =
    let t = lookup k src.annotations in
    if is_empty (lookup k dst.annotations) && not (is_empty t)
    then record dst { annotations = insert k t dst.annotations }
    else dst

-- copyProtoMeta(dst, src)
unfoldable pub copy_proto_meta : Head → Head → Head
copy_proto_meta dst src =
    set_if_empty (codes "proto_number") src (set_if_empty (codes "proto_type") src dst)

unfoldable pub index_fields : Nodes → List (Text × Node) → Result ProtoError (List (Text × Node))
index_fields Nodes.none idx = ok idx
index_fields (Nodes.more Node.nil ns) idx = err ProtoError.nil_pointer
index_fields (Nodes.more (Node.node h cs) ns) idx = index_fields ns (put h.key (Node.node h cs) idx)

abbrev pub or_by_number : Text → List (Text × Node) → Option Node → Option Node
or_by_number number idx (some n) = some n
or_by_number number idx none = if is_empty number then none else find number idx

abbrev pub is_missing : Presence → Bool
is_missing Presence.missing = true
is_missing _ = false

abbrev pub encodable : Option Node → Option (Head × Nodes)
encodable none = none
encodable (some Node.nil) = none
encodable (some (Node.node h ns)) =
    if is_missing h.presence || type_eq h.type UirType.null then none else some (h, ns)

-- The data of a field, unless it is to be left out.
unfoldable pub present_field : List (Text × Node) → Head → Option (Head × Nodes)
present_field idx field =
    encodable
      (or_by_number (lookup (codes "proto_number") field.annotations) idx (find field.key idx))

module _ (rec : Encoder) where
  unfoldable pub encode_elements : ℕ → Nodes → Encoded
  encode_elements tag Nodes.none = ok []
  encode_elements tag (Nodes.more n ns) = append_both (rec tag n) (encode_elements tag ns)

  -- The loop over the fields of a schema. The annotations of the data that a field was matched with
  -- are changed for the fields that come later.
  unfoldable pub encode_by_schema : ℕ → List (Text × Node) → Nodes → Encoded
  unfolding copy_proto_meta present_field
  encode_by_schema i idx Nodes.none = ok []
  encode_by_schema i idx (Nodes.more Node.nil fields) = err ProtoError.nil_pointer
  encode_by_schema i idx (Nodes.more (Node.node f fs) fields) = elim (present_field idx f) [
    | none ↦ encode_by_schema (suc i) idx fields
    | some (h, ns) ↦
        let child = Node.node (copy_proto_meta h f) ns in
        append_both (rec (proto_tag (Node.node f fs) (suc i)) child)
          (encode_by_schema (suc i) (put h.key child idx) fields)
  ]

  unfoldable pub encode_children : ℕ → Nodes → Encoded
  encode_children i Nodes.none = ok []
  encode_children i (Nodes.more n ns) =
      append_both (rec (proto_tag n (suc i)) n) (encode_children (suc i) ns)

  -- encodeProtoMessage for the children of the data and those of the schema.
  unfoldable pub encode_proto_message : Nodes → Nodes → Encoded
  unfolding encode_by_schema encode_children index_fields
  encode_proto_message ns Nodes.none = encode_children 0 ns
  encode_proto_message ns (Nodes.more f fs) =
      index_fields ns [] >>= λ idx. encode_by_schema 0 idx (Nodes.more f fs)

  -- GenerateProtobuf of a node that is not nil, with no options.
  unfoldable pub generate_plain : Head → Nodes → Encoded
  unfolding encode_proto_message
  generate_plain h ns =
      if type_eq h.type UirType.map then encode_proto_message ns ns else rec 1 (Node.node h ns)

  -- The switch on the type of the node.
  unfoldable pub encode_by_type : Host → ℕ → Head → Nodes → Encoded
  unfolding append_varint append_fixed64 append_len as_uint64 generate_plain proto_type_or
  encode_by_type host tag h ns =
      let t = h.type in
      let annotated = record h {
        annotations = insert (codes "proto_type") (proto_type_or h (codes "fixed32")) h.annotations;
      } in
      if type_eq t UirType.int32
        || type_eq t UirType.int64
        || type_eq t UirType.uint32
        || type_eq t UirType.uint64
        || type_eq t UirType.sint32
        || type_eq t UirType.sint64
        || type_eq t UirType.enum
      then ok (append_varint tag (as_uint64 host h.value))
      else if type_eq t UirType.fixed32 || type_eq t UirType.sfixed32 || type_eq t UirType.float32
      then rec tag (Node.node annotated ns)
      else if type_eq t UirType.fixed64 || type_eq t UirType.sfixed64
      then ok (append_fixed64 tag (as_uint64 host h.value))
      else if type_eq t UirType.string
          || type_eq t UirType.timestamp
          || type_eq t UirType.date
          || type_eq t UirType.time
          || type_eq t UirType.duration
          || type_eq t UirType.decimal
      then ok (append_len tag (text_bytes h.value))
      else if type_eq t UirType.bytes
      then ok (append_len tag (bytes_of h.value))
      else if type_eq t UirType.boolean
      then ok (append_varint tag (bool_bit h.value))
      else if type_eq t UirType.float64
      then ok (append_fixed64 tag (float64_bits h.value))
      else if type_eq t UirType.map
          || type_eq t UirType.union
          || type_eq t UirType.interface
          || type_eq t UirType.definition
      then (generate_plain h ns >>= λ msg. ok (append_len tag msg))
      else ok []

  unfoldable pub encode_body : Host → Encoder
  unfolding encode_elements encode_by_name encode_by_type proto_type_or
  encode_body host tag Node.nil = err ProtoError.nil_pointer
  encode_body host tag (Node.node h ns) =
      if type_eq h.type UirType.array
      then encode_elements tag ns
      else elim (encode_by_name host tag (proto_type_or h (infer_proto_type h.type)) h.value) [
        | some bytes ↦ ok bytes
        | none ↦ encode_by_type host tag h ns
      ]

-- encodeProtoField
unfoldable pub encode_proto_field : ℕ → Host → Encoder
encode_proto_field zero host tag n = err ProtoError.out_of_fuel
encode_proto_field (suc f) host tag n = encode_body (encode_proto_field f host) host tag n

abbrev pub is_map : Node → Bool
is_map Node.nil = false
is_map (Node.node h ns) = type_eq h.type UirType.map

unfoldable pub generate_protobuf_with_options : ℕ → Host → Node → Options → Encoded
unfolding encode_proto_field
generate_protobuf_with_options fuel host Node.nil opts = ok []
generate_protobuf_with_options fuel host (Node.node h ns) opts =
    let rec = encode_proto_field fuel host in
    let schema = require_type opts (Node.node h ns) in
    if not (is_empty opts.type_name) && not (is_nil_node opts.schema) && is_nil_node schema
    then err ProtoError.type_not_found
    else if is_map schema && type_eq h.type UirType.map
    then encode_proto_message rec ns (children_of schema)
    else generate_plain rec h ns
