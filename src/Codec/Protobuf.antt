-- ===== src/Codec/Protobuf.antt =====
-- internal/codec/protobuf.go: varints, zigzag, little-endian words and the fields by their tags.
pub mod Values
pub mod Encode
pub mod Leaves
pub mod Decode
pub mod Varint
pub mod Fuel
pub mod Finishes
pub mod Endless
pub mod Fields
pub mod Scalars
pub mod Plain
pub mod RoundTrip
use omni_schema.Prelude.{ℕ, zero, suc, ◌+◌, ◌*◌, ◌/◌, ◌%◌, ◌^◌, ◌==◌, ltb, leb, Bool, true, false}
use omni_schema.Prelude.{
  ◌&&◌, ◌||◌, not, if◌then◌else◌, Option, none, some, List, [], ◌∷◌, ◌++◌, length,
}
use omni_schema.Prelude.Int.{ℤ, pos, negsuc}
use omni_schema.Prelude.Bytes.{Text, codes}
use omni_schema.Prelude.Result.{Result, ok, err}
use omni_schema.Uir.Node.{Node, Nodes, Head, Any, lookup, annotation}
use omni_schema.Uir.Types.{UirType}
use omni_schema.Uir.Coerce.{parse_unsigned}

-- `slice_panic` and `nil_pointer` are run-time panics, `out_of_fuel` stands for a recursion that is
-- deeper than the fuel.
pub data ProtoError : Type 0 where
  type_not_found varint_overflow varint_eof eof_fixed64 eof_length eof_fixed32 : ProtoError
  unsupported_wire : ℕ → ProtoError
  slice_panic nil_pointer out_of_fuel : ProtoError

-- encodeVarint: seven bits a byte, the lowest first, and a set top bit on all but the last. A uint64
-- has ten groups at most. The bits of `v&0x7f|0x80` are disjoint.
unfoldable pub varint_groups : ℕ → ℕ → List ℕ
varint_groups zero v = v ∷ []
varint_groups (suc more) v =
    let rest = varint_groups more (v / 2 ^ 7) in
    if leb (2 ^ 7) v then (v % 2 ^ 7 + 0x80) ∷ rest else v ∷ []

unfoldable pub encode_varint : ℕ → List ℕ
unfolding varint_groups
encode_varint v = varint_groups 9 v

-- decodeVarint from byte i on. The bits of v lie below those that are shifted in.
unfoldable pub decode_varint_from : ℕ → ℕ → List ℕ → Result ProtoError (ℕ × ℕ)
decode_varint_from i v [] = err ProtoError.varint_eof
decode_varint_from i v (b ∷ rest) =
    let v' = v + b % 2 ^ 7 * 2 ^ (7 * i) % 2 ^ 64 in
    let more = decode_varint_from (suc i) v' rest in
    if ltb b 0x80
    then (if ltb 9 i || i == 9 && ltb 1 b then err ProtoError.varint_overflow else ok (v', suc i))
    else more

unfoldable pub decode_varint : List ℕ → Result ProtoError (ℕ × ℕ)
unfolding decode_varint_from
decode_varint bs = decode_varint_from 0 0 bs

-- uint64((signed << 1) ^ (signed >> 63)), where -(n + 1) is the complement of n.
unfoldable pub zigzag : ℤ → ℕ
zigzag (pos n) = 2 * n
zigzag (negsuc n) = 2 * n + 1

-- int64(val>>1) ^ -int64(val&1)
unfoldable pub unzigzag : ℕ → ℤ
unzigzag v = if v % 2 == 0 then pos (v / 2) else negsuc (v / 2)

-- The k low bytes of v, the lowest first.
unfoldable pub little_endian : ℕ → ℕ → List ℕ
little_endian zero v = []
little_endian (suc k) v = (v % 256) ∷ little_endian k (v / 256)

unfoldable pub from_little_endian : List ℕ → ℕ
from_little_endian [] = 0
from_little_endian (b ∷ bs) = b + 256 * from_little_endian bs

unfoldable pub append_fixed32 : ℕ → ℕ → List ℕ
unfolding encode_varint little_endian
append_fixed32 tag v = encode_varint ((tag * 2 ^ 3 + 5) % 2 ^ 64) ++ little_endian 4 v

unfoldable pub append_fixed64 : ℕ → ℕ → List ℕ
unfolding encode_varint little_endian
append_fixed64 tag v = encode_varint ((tag * 2 ^ 3 + 1) % 2 ^ 64) ++ little_endian 8 v

unfoldable pub append_varint : ℕ → ℕ → List ℕ
unfolding encode_varint
append_varint tag v = encode_varint (tag * 2 ^ 3 % 2 ^ 64) ++ encode_varint v

unfoldable pub append_len : ℕ → List ℕ → List ℕ
unfolding encode_varint
append_len tag payload =
    encode_varint ((tag * 2 ^ 3 + 2) % 2 ^ 64) ++ (encode_varint (length payload) ++ payload)

-- strconv.ParseUint(s, 10, 64)
unfoldable pub parse_uint : Text → Option ℕ
parse_uint s = elim (parse_unsigned s) [
  | none ↦ none
  | some n ↦ if ltb n (2 ^ 64) then some n else none
]

abbrev or_number : ℕ → Option ℕ → ℕ
or_number fallback none = fallback
or_number fallback (some n) = n

-- protoTag. An annotation that is empty is no number.
unfoldable pub proto_tag : Node → ℕ → ℕ
unfolding parse_uint
proto_tag Node.nil fallback = fallback
proto_tag (Node.node h ns) fallback =
    or_number fallback (parse_uint (lookup (codes "proto_number") h.annotations))

unfoldable pub infer_proto_type : UirType → Text
infer_proto_type UirType.sint32 = codes "sint32"
infer_proto_type UirType.sint64 = codes "sint64"
infer_proto_type UirType.fixed32 = codes "fixed32"
infer_proto_type UirType.fixed64 = codes "fixed64"
infer_proto_type UirType.sfixed32 = codes "sfixed32"
infer_proto_type UirType.sfixed64 = codes "sfixed64"
infer_proto_type UirType.float32 = codes "float"
infer_proto_type UirType.float64 = codes "double"
infer_proto_type UirType.bytes = codes "bytes"
infer_proto_type UirType.string = codes "string"
infer_proto_type UirType.boolean = codes "bool"
infer_proto_type UirType.uint32 = codes "uint32"
infer_proto_type UirType.uint64 = codes "uint64"
infer_proto_type UirType.int32 = codes "int32"
infer_proto_type UirType.int64 = codes "int64"
infer_proto_type _ = []

-- The fields of a schema by their tags, a later one of a tag in the place of an earlier one.
unfoldable pub field_by_tag : ℕ → ℕ → Nodes → Option Node
unfolding proto_tag
field_by_tag tag i Nodes.none = none
field_by_tag tag i (Nodes.more f fs) =
    let here = if proto_tag f (suc i) == tag && not (tag == 0) then some f else none in
    elim (field_by_tag tag (suc i) fs) [ some g ↦ some g | none ↦ here ]

abbrev field_schema_or_nil : Option Node → Node
field_schema_or_nil none = Node.nil
field_schema_or_nil (some f) = f

unfoldable pub fields_by_tag : Node → ℕ → Node
unfolding field_by_tag
fields_by_tag Node.nil tag = Node.nil
fields_by_tag (Node.node h fs) tag = field_schema_or_nil (field_by_tag tag 0 fs)
