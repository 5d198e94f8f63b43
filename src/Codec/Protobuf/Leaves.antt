-- ===== src/Codec/Protobuf/Leaves.antt =====
-- internal/codec/protobuf.go: the nodes that a field of each wire type becomes, but for messages.
use omni_schema.Prelude.{ℕ, ◌%◌, ◌^◌, not, ◌||◌}
use omni_schema.Prelude.{◌==◌, if◌then◌else◌, []}
use omni_schema.Prelude.Int.{int64_of, int32_of, uint64_of}
use omni_schema.Prelude.Bytes.{Text, codes, text_eq, is_empty, decimal}
use omni_schema.Prelude.Result.{Result, ok, err, ◌>>=◌}
use omni_schema.Uir.Types.{UirType, type_eq}
use omni_schema.Uir.Node.{
  children_of, Any, Node, Nodes, Head, Annotations, new_head, lookup, insert,
}
use omni_schema.Uir.Coerce.{Host}
use omni_schema.Uir.Coerce.Encoding.{sprint}
use omni_schema.Codec.Protobuf.{ProtoError, unzigzag, infer_proto_type}

-- schema.Annotation(k), and the key and the type of a field, which may have no schema.
abbrev pub annotation_of : Text → Node → Text
annotation_of k Node.nil = []
annotation_of k (Node.node h ns) = lookup k h.annotations

abbrev pub key_or : Text → Node → Text
key_or key Node.nil = key
key_or key (Node.node h ns) = h.key

abbrev pub type_or : UirType → Node → UirType
type_or t Node.nil = t
type_or t (Node.node h ns) = h.type

abbrev pub set_nonempty : Text → Text → Annotations → Annotations
set_nonempty k v m = if is_empty v then m else insert k v m

-- A node without children.
abbrev pub leaf : Head → Node
leaf h = Node.node h Nodes.none

-- The value of an enum: the key of the first entry with the number, the number itself without one.
unfoldable pub enum_value : Host → ℕ → Nodes → Result ProtoError Any
unfolding sprint
enum_value host val Nodes.none = ok (Any.int32 (int32_of val))
enum_value host val (Nodes.more Node.nil ns) = err ProtoError.nil_pointer
enum_value host val (Nodes.more (Node.node e es) ns) =
    let rest = enum_value host val ns in
    if text_eq (sprint host e.value) (sprint host (Any.int32 (int32_of val)))
      || text_eq (lookup (codes "enum_number") e.annotations) (decimal val)
    then ok (Any.text e.key)
    else rest

unfoldable pub enum_field : Host → ℕ → Node → Head → Result ProtoError Node
unfolding enum_value
enum_field host val schema node = enum_value host val (children_of schema) >>= λ v.
    ok (leaf (record node { type = UirType.enum; value = v }))

-- The default case, which goes by the type.
unfoldable pub varint_by_type : UirType → ℕ → Head → Node
varint_by_type t val node =
    if type_eq t UirType.boolean
    then leaf (record node { value = Any.bool (not (val == 0)) })
    else if type_eq t UirType.uint32
    then leaf (record node { value = Any.uint32 (val % 2 ^ 32) })
    else if type_eq t UirType.uint64
    then leaf (record node { value = Any.uint64 val })
    else if type_eq t UirType.int32
    then leaf (record node { value = Any.int32 (int32_of val) })
    else leaf (record node { type = UirType.int64; value = Any.int64 (int64_of val) })

-- The cases of the switch on the protobuf type but the enum.
unfoldable pub varint_by_name : Text → UirType → ℕ → Head → Node
unfolding unzigzag varint_by_type
varint_by_name p t val node =
    if text_eq p (codes "bool")
    then leaf (record node { type = UirType.boolean; value = Any.bool (not (val == 0)) })
    else if text_eq p (codes "sint32")
    then leaf (record node {
      type = UirType.sint32;
      value = Any.int32 (int32_of (uint64_of (unzigzag val)));
    })
    else if text_eq p (codes "sint64")
    then leaf (record node { type = UirType.sint64; value = Any.int64 (unzigzag val) })
    else if text_eq p (codes "uint32")
    then leaf (record node { type = UirType.uint32; value = Any.uint32 (val % 2 ^ 32) })
    else if text_eq p (codes "uint64")
    then leaf (record node { type = UirType.uint64; value = Any.uint64 val })
    else if text_eq p (codes "int32")
    then leaf (record node { type = UirType.int32; value = Any.int32 (int32_of val) })
    else varint_by_type t val node

-- The new node, with the annotations of the schema.
unfoldable pub varint_head : Text → Node → Head
varint_head key schema =
    let p = annotation_of (codes "proto_type") schema in
    record (new_head (type_or UirType.int64 schema) (key_or key schema) Any.nil) {
      annotations =
          set_nonempty (codes "proto_number") (annotation_of (codes "proto_number") schema)
            (set_nonempty (codes "proto_type") p []);
    }

unfoldable pub decode_varint_field : Host → Text → ℕ → Node → Result ProtoError Node
unfolding enum_field varint_by_name varint_head
decode_varint_field host key val schema =
    let p = annotation_of (codes "proto_type") schema in
    if text_eq p (codes "enum")
    then enum_field host val schema (varint_head key schema)
    else ok (varint_by_name p (type_or UirType.int64 schema) val (varint_head key schema))

-- NewNode with one annotation.
abbrev pub typed_leaf : UirType → Text → Any → Text → Node
typed_leaf t key v p =
    leaf (record (new_head t key v) { annotations = insert (codes "proto_type") p [] })

unfoldable pub decode_fixed64_field : Text → ℕ → Node → Node
decode_fixed64_field key bits schema =
    let p = annotation_of (codes "proto_type") schema in
    let k = key_or key schema in
    if text_eq p (codes "double")
    then typed_leaf UirType.float64 k (Any.float64 bits) p
    else if text_eq p (codes "fixed64")
    then typed_leaf UirType.fixed64 k (Any.uint64 bits) p
    else if text_eq p (codes "sfixed64")
    then typed_leaf UirType.sfixed64 k (Any.int64 (int64_of bits)) p
    else leaf (new_head UirType.float64 k (Any.float64 bits))

-- The protobuf type of a field of four bytes, which the type of the schema gives where none is named.
abbrev pub fixed32_type : Node → Text
fixed32_type Node.nil = []
fixed32_type (Node.node h ns) =
    let p = lookup (codes "proto_type") h.annotations in
    if is_empty p then infer_proto_type h.type else p

unfoldable pub decode_fixed32_field : Text → ℕ → Node → Node
unfolding infer_proto_type
decode_fixed32_field key bits schema =
    let p = fixed32_type schema in
    let k = key_or key schema in
    if text_eq p (codes "float")
    then typed_leaf UirType.float32 k (Any.float32 bits) p
    else if text_eq p (codes "sfixed32")
    then typed_leaf UirType.sfixed32 k (Any.int32 (int32_of bits)) p
    else leaf (record (new_head UirType.fixed32 k (Any.uint32 bits)) {
      annotations = set_nonempty (codes "proto_type") p [];
    })
