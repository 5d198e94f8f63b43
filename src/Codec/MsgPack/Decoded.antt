-- ===== src/Codec/MsgPack/Decoded.antt =====
-- internal/codec/msgpack.go: the graph that a round trip through MessagePack leaves of a node.
use omni_schema.Prelude.{ℕ, ◌^◌, ◌<◌, leb, if◌then◌else◌, [], length}
use omni_schema.Prelude.Int.{pos, IsInt64, IsInt32}
use omni_schema.Prelude.Bytes.{Text}
use omni_schema.Uir.Types.{UirType}
use omni_schema.Uir.Node.{key_of, Any, Node, Nodes, new_node}
use omni_schema.Codec.MsgPack.Encode.{
  as_text, as_bytes, as_float64, as_float32, as_bool, child_count,
}
use omni_schema.Codec.MsgPack.Decode.{Builtins, array_node, map_node}

-- A value in the range of its Go type, with a length that the format can hold.
abbrev pub FitsAny : Any → Type 0
FitsAny (Any.int v) = IsInt64 v
FitsAny (Any.int32 v) = IsInt32 v
FitsAny (Any.int64 v) = IsInt64 v
FitsAny (Any.uint32 u) = u < 2 ^ 32
FitsAny (Any.uint64 u) = u < 2 ^ 64
FitsAny (Any.float32 bits) = bits < 2 ^ 32
FitsAny (Any.float64 bits) = bits < 2 ^ 64
FitsAny (Any.text s) = length s < 2 ^ 32
FitsAny (Any.bytes b) = length b < 2 ^ 32
FitsAny _ = Unit {0}

-- A graph of such values, with no more children than the format can count.
unfoldable mutual
  pub Fits : Node → Type 0
  Fits Node.nil = Unit {0}
  Fits (Node.node h ns) = FitsAny h.value × (child_count ns < 2 ^ 32) × FitsAll ns

  pub FitsAll : Nodes → Type 0
  FitsAll Nodes.none = Unit {0}
  FitsAll (Nodes.more n ns) = Fits n × (length (key_of n) < 2 ^ 32) × FitsAll ns

unfoldable pub decoded_unsigned : Text → ℕ → Node
decoded_unsigned key u =
    if leb u 127
    then new_node UirType.int64 key (Any.int64 (pos u))
    else new_node UirType.uint64 key (Any.uint64 u)

unfoldable pub decoded_integer : Text → Any → Node
decoded_integer key (Any.uint64 u) = decoded_unsigned key u
decoded_integer key (Any.uint32 u) = decoded_unsigned key u
decoded_integer key (Any.int64 v) = new_node UirType.int64 key (Any.int64 v)
decoded_integer key (Any.int32 v) = new_node UirType.int64 key (Any.int64 v)
decoded_integer key (Any.int v) = new_node UirType.int64 key (Any.int64 v)
decoded_integer key _ = new_node UirType.int64 key (Any.int64 (pos 0))

module _ (go : Builtins) where
  unfoldable pub decoded_typed : UirType → Any → Text → Nodes → Nodes → Node
  decoded_typed UirType.null v key items fields = new_node UirType.null key Any.nil
  decoded_typed UirType.string v key items fields =
      new_node UirType.string key (Any.text (as_text v))
  decoded_typed UirType.bytes v key items fields =
      new_node UirType.bytes key (Any.bytes (as_bytes v))
  decoded_typed UirType.int32 v key items fields = decoded_integer key v
  decoded_typed UirType.int64 v key items fields = decoded_integer key v
  decoded_typed UirType.uint32 v key items fields = decoded_integer key v
  decoded_typed UirType.uint64 v key items fields = decoded_integer key v
  decoded_typed UirType.sint32 v key items fields = decoded_integer key v
  decoded_typed UirType.sint64 v key items fields = decoded_integer key v
  decoded_typed UirType.fixed32 v key items fields = decoded_integer key v
  decoded_typed UirType.fixed64 v key items fields = decoded_integer key v
  decoded_typed UirType.sfixed32 v key items fields = decoded_integer key v
  decoded_typed UirType.sfixed64 v key items fields = decoded_integer key v
  decoded_typed UirType.float64 v key items fields =
      new_node UirType.float64 key (Any.float64 (as_float64 v))
  decoded_typed UirType.float32 v key items fields =
      new_node UirType.float64 key (Any.float64 (go.widen (as_float32 v)))
  decoded_typed UirType.boolean v key items fields =
      new_node UirType.boolean key (Any.bool (as_bool v))
  decoded_typed UirType.array v key items fields = array_node key items
  decoded_typed UirType.map v key items fields = map_node key fields
  decoded_typed _ v key items fields = Node.nil

  unfoldable mutual
    pub decoded : Text → Node → Node
    decoded key Node.nil = new_node UirType.null key Any.nil
    decoded key (Node.node h ns) =
        decoded_typed h.type h.value key (decoded_items ns) (decoded_fields ns)

    pub decoded_items : Nodes → Nodes
    decoded_items Nodes.none = Nodes.none
    decoded_items (Nodes.more n ns) = Nodes.more (decoded [] n) (decoded_items ns)

    pub decoded_fields : Nodes → Nodes
    decoded_fields Nodes.none = Nodes.none
    decoded_fields (Nodes.more n ns) = Nodes.more (decoded (key_of n) n) (decoded_fields ns)
