-- ===== src/Codec/Cbor/Decoded.antt =====
-- internal/codec/cbor.go: the graph that a round trip through CBOR leaves of a node, stated on its
-- own. Types come from the wire, maps are in the order of their keys and lose their missing fields.
use omni_schema.Prelude.{ℕ, zero, suc, ◌+◌, ◌^◌, ◌<◌, ◌||◌, ltb, if◌then◌else◌}
use omni_schema.Prelude.{List, [], ◌∷◌, length}
use omni_schema.Prelude.Int.{pos, IsInt64, IsInt32}
use omni_schema.Prelude.Bytes.{Text, decimal}
use omni_schema.Uir.Types.{UirType, type_eq}
use omni_schema.Uir.Node.{Any, Node, Nodes, new_node}
use omni_schema.Codec.Cbor.Encode.{Field, is_missing, is_null, sort_fields}
use omni_schema.Codec.Cbor.Decode.{array_node, map_node}

-- A value that Go can hold: integers and floats in the range of their type, lengths of an int.
abbrev pub IsGoAny : Any → Type 0
IsGoAny (Any.int v) = IsInt64 v
IsGoAny (Any.int32 v) = IsInt32 v
IsGoAny (Any.int64 v) = IsInt64 v
IsGoAny (Any.uint32 u) = u < 2 ^ 32
IsGoAny (Any.uint64 u) = u < 2 ^ 64
IsGoAny (Any.float32 bits) = bits < 2 ^ 32
IsGoAny (Any.float64 bits) = bits < 2 ^ 64
IsGoAny (Any.text s) = length s < 2 ^ 63
IsGoAny (Any.bytes b) = length b < 2 ^ 63
IsGoAny _ = Unit {0}

-- A graph of such values.
unfoldable mutual
  pub IsGoNode : Node → Type 0
  IsGoNode Node.nil = Unit {0}
  IsGoNode (Node.node h ns) = IsGoAny h.value × (length h.key < 2 ^ 63) × IsGoNodes ns

  pub IsGoNodes : Nodes → Type 0
  IsGoNodes Nodes.none = Unit {0}
  IsGoNodes (Nodes.more n ns) = IsGoNode n × IsGoNodes ns

-- The children that a map keeps, each under its key.
unfoldable pub kept : Nodes → List Field
kept Nodes.none = []
kept (Nodes.more Node.nil ns) = kept ns
kept (Nodes.more (Node.node h cs) ns) =
    if is_missing h.presence then kept ns else (h.key, Node.node h cs) ∷ kept ns

unfoldable pub decoded_scalar : Text → Any → Node
decoded_scalar key Any.nil = new_node UirType.null key Any.nil
decoded_scalar key (Any.bool b) = new_node UirType.boolean key (Any.bool b)
decoded_scalar key (Any.int v) = new_node UirType.int64 key (Any.int64 v)
decoded_scalar key (Any.int32 v) = new_node UirType.int64 key (Any.int64 v)
decoded_scalar key (Any.int64 v) = new_node UirType.int64 key (Any.int64 v)
decoded_scalar key (Any.uint32 u) = new_node UirType.int64 key (Any.int64 (pos u))
decoded_scalar key (Any.uint64 u) =
    if ltb u (2 ^ 63)
    then new_node UirType.int64 key (Any.int64 (pos u))
    else new_node UirType.uint64 key (Any.uint64 u)
decoded_scalar key (Any.float32 bits) = new_node UirType.float32 key (Any.float32 bits)
decoded_scalar key (Any.float64 bits) = new_node UirType.float64 key (Any.float64 bits)
decoded_scalar key (Any.text s) = new_node UirType.string key (Any.text s)
decoded_scalar key (Any.bytes b) = new_node UirType.bytes key (Any.bytes b)
decoded_scalar key Any.other = Node.nil

unfoldable pub decoded_items : (Text → Node → Node) → Nodes → ℕ → Nodes
decoded_items dec Nodes.none i = Nodes.none
decoded_items dec (Nodes.more n ns) i =
    Nodes.more (dec (decimal i) n) (decoded_items dec ns (i + 1))

unfoldable pub decoded_fields : (Text → Node → Node) → List Field → Nodes
decoded_fields dec [] = Nodes.none
decoded_fields dec ((k, n) ∷ fs) = Nodes.more (dec k n) (decoded_fields dec fs)

unfoldable pub decoded_node : (Text → Node → Node) → Text → Node → Node
decoded_node dec key Node.nil = new_node UirType.null key Any.nil
decoded_node dec key (Node.node h ns) =
    if is_null h
    then new_node UirType.null key Any.nil
    else if type_eq h.type UirType.map || type_eq h.type UirType.definition
    then map_node key (decoded_fields dec (sort_fields (kept ns)))
    else if type_eq h.type UirType.array
    then array_node key (decoded_items dec ns 0)
    else decoded_scalar key h.value

-- The graph to a depth of so many levels.
unfoldable pub decoded : ℕ → Text → Node → Node
decoded zero key n = Node.nil
decoded (suc levels) key n = decoded_node (decoded levels) key n
