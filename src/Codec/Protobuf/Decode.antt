-- ===== src/Codec/Protobuf/Decode.antt =====
-- internal/codec/protobuf.go: ParseProtobuf. The recursion is on fuel: a field takes a byte at least,
-- and a nested message is shorter than the field that holds it.
use omni_schema.Prelude.{ℕ, zero, suc, ◌/◌, ◌%◌, ◌^◌, Bool, false, not, ◌&&◌, ◌||◌}
use omni_schema.Prelude.{◌==◌, ltb, leb, if◌then◌else◌, List, [], ◌∷◌}
use omni_schema.Prelude.{length, take, drop}
use omni_schema.Prelude.Bytes.{Text, codes, text_eq, mem_text, is_empty, decimal, valid_utf8}
use omni_schema.Prelude.Result.{Result, ok, err, ◌>>=◌}
use omni_schema.Uir.Types.{UirType, type_eq}
use omni_schema.Uir.Node.{is_nil_node, Any, Node, Nodes, new_head}
use omni_schema.Uir.Coerce.{Host}
use omni_schema.Codec.Options.{Options, require_type}
use omni_schema.Codec.Protobuf.{ProtoError, decode_varint, from_little_endian, fields_by_tag}
use omni_schema.Codec.Protobuf.Leaves.{
  annotation_of, key_or, leaf, decode_varint_field, typed_leaf, decode_fixed64_field,
  decode_fixed32_field,
}

abbrev pub Parsed : Type 0
Parsed = Result ProtoError Nodes

-- parseProtobufMessage, as the children that it adds: for a schema and bytes.
abbrev pub Parser : Type 0
Parser = Node → List ℕ → Parsed

abbrev pub message : Text → Nodes → Node
message key ns = Node.node (new_head UirType.map key Any.nil) ns

-- Bytes without a schema: a message with fields, else a text, else bytes.
unfoldable pub guess_len_field : Text → List ℕ → Parsed → Node
guess_len_field key chunk (ok (Nodes.more n ns)) = message key (Nodes.more n ns)
guess_len_field key chunk _ =
    if valid_utf8 chunk
    then leaf (new_head UirType.string key (Any.text chunk))
    else leaf (new_head UirType.bytes key (Any.bytes chunk))

abbrev pub is_message_type : Node → Bool
is_message_type Node.nil = false
is_message_type (Node.node h ns) = type_eq h.type UirType.map || type_eq h.type UirType.definition

-- A field and the bytes behind it.
abbrev pub Field : Type 0
Field = Result ProtoError (Node × List ℕ)

module _ (rec : Parser) (host : Host) where
  unfoldable pub decode_len_field : Text → List ℕ → Node → Result ProtoError Node
  unfolding guess_len_field
  decode_len_field key chunk schema =
      let p = annotation_of (codes "proto_type") schema in
      let k = key_or key schema in
      if text_eq p (codes "string")
      then ok (typed_leaf UirType.string k (Any.text chunk) p)
      else if text_eq p (codes "bytes")
      then ok (typed_leaf UirType.bytes k (Any.bytes chunk) p)
      else if is_message_type schema
      then (rec schema chunk >>= λ ns. ok (message k ns))
      else ok (guess_len_field k chunk (rec Node.nil chunk))

  -- `int(l)` is negative for a length of 2 ^ 63 or more, which passes the test and fails in the slice.
  unfoldable pub sized_field : Text → Node → ℕ → List ℕ → Field
  unfolding decode_len_field
  sized_field key field l bytes =
      if leb (2 ^ 63) l
      then err ProtoError.slice_panic
      else if ltb (length bytes) l
      then err ProtoError.eof_length
      else (decode_len_field key (take l bytes) field >>= λ c. ok (c, drop l bytes))

  unfoldable pub read_len : Text → Node → List ℕ → Field
  unfolding sized_field
  read_len key field bytes =
      decode_varint bytes >>= λ (l, n). sized_field key field l (drop n bytes)

  unfoldable pub read_varint : Text → Node → List ℕ → Field
  unfolding decode_varint_field
  read_varint key field bytes = decode_varint bytes >>= λ (v, n).
      decode_varint_field host key v field >>= λ c. ok (c, drop n bytes)

  unfoldable pub read_fixed64 : Text → Node → List ℕ → Field
  unfolding decode_fixed64_field
  read_fixed64 key field bytes =
      if ltb (length bytes) 8
      then err ProtoError.eof_fixed64
      else ok (decode_fixed64_field key (from_little_endian (take 8 bytes)) field, drop 8 bytes)

  unfoldable pub read_fixed32 : Text → Node → List ℕ → Field
  unfolding decode_fixed32_field
  read_fixed32 key field bytes =
      if ltb (length bytes) 4
      then err ProtoError.eof_fixed32
      else ok (decode_fixed32_field key (from_little_endian (take 4 bytes)) field, drop 4 bytes)

  -- The switch on the wire type.
  unfoldable pub read_wire : ℕ → Text → Node → List ℕ → Field
  unfolding read_varint read_fixed64 read_len read_fixed32
  read_wire wire key field bytes =
      if wire == 0
      then read_varint key field bytes
      else if wire == 1
      then read_fixed64 key field bytes
      else if wire == 2
      then read_len key field bytes
      else if wire == 5
      then read_fixed32 key field bytes
      else err (ProtoError.unsupported_wire wire)

  -- The field of a tag, which is the key where the schema has no such field.
  unfoldable pub tagged_field : Node → ℕ → List ℕ → Field
  unfolding read_wire
  tagged_field schema tag_and_wire bytes =
      let field = fields_by_tag schema (tag_and_wire / 8) in
      read_wire (tag_and_wire % 8) (key_or (decimal (tag_and_wire / 8)) field) field bytes

  -- One round of the loop.
  unfoldable pub read_field : Node → List ℕ → Field
  unfolding tagged_field
  read_field schema bytes =
      decode_varint bytes >>= λ (tag_and_wire, n). tagged_field schema tag_and_wire (drop n bytes)

unfoldable pub parse_protobuf_message : ℕ → Host → Parser
unfolding read_field
parse_protobuf_message zero host schema [] = ok Nodes.none
parse_protobuf_message zero host schema (b ∷ bs) = err ProtoError.out_of_fuel
parse_protobuf_message (suc f) host schema [] = ok Nodes.none
parse_protobuf_message (suc f) host schema (b ∷ bs) =
    read_field (parse_protobuf_message f host) host schema (b ∷ bs) >>= λ (child, rest).
    parse_protobuf_message f host schema rest >>= λ children. ok (Nodes.more child children)

-- schema.Key is no key of a wrapper.
abbrev pub root_key : Node → Text
root_key Node.nil = codes "Root"
root_key (Node.node h ns) =
    if is_empty h.key || mem_text h.key (codes "proto_root" ∷ codes "graphql_root" ∷ [])
    then codes "Root"
    else h.key

-- ParseProtobufWithOptions: the length of the bytes is fuel enough.
unfoldable pub parse_protobuf_with_options : Host → List ℕ → Options → Result ProtoError Node
unfolding parse_protobuf_message
parse_protobuf_with_options host bytes opts =
    let schema = require_type opts Node.nil in
    if not (is_empty opts.type_name) && not (is_nil_node opts.schema) && is_nil_node schema
    then err ProtoError.type_not_found
    else (parse_protobuf_message (length bytes) host schema bytes >>= λ ns.
        ok (message (root_key schema) ns))
