-- ===== src/Codec/MsgPack/Encode.antt =====
-- internal/codec/msgpack.go: GenerateMessagePack.
use Prim.Native.Nat.{bit_or}
use omni_schema.Prelude.{ℕ, suc, ◌-◌, ◌^◌, Bool, false, leb, if◌then◌else◌}
use omni_schema.Prelude.{List, [], ◌∷◌, ◌++◌, length}
use omni_schema.Prelude.Int.{ℤ, pos, negsuc}
use omni_schema.Prelude.Bytes.{Text, big_endian}
use omni_schema.Prelude.Result.{Result, ok, err, ◌>>=◌}
use omni_schema.Uir.Types.{UirType}
use omni_schema.Uir.Node.{Any, Node, Nodes}
use omni_schema.Codec.MsgPack.{MsgPackError}

abbrev pub Encoded : Type 0
Encoded = Result MsgPackError (List ℕ)

-- The type assertions with `_`: the zero value of the type otherwise.
abbrev pub as_text : Any → Text
as_text (Any.text s) = s
as_text _ = []

abbrev pub as_bytes : Any → List ℕ
as_bytes (Any.bytes b) = b
as_bytes _ = []

abbrev pub as_float64 : Any → ℕ
as_float64 (Any.float64 bits) = bits
as_float64 _ = 0

abbrev pub as_float32 : Any → ℕ
as_float32 (Any.float32 bits) = bits
as_float32 _ = 0

abbrev pub as_bool : Any → Bool
as_bool (Any.bool b) = b
as_bool _ = false

-- byte(l) is the one byte big-endian word.
unfoldable pub str_head : ℕ → List ℕ
str_head l =
    if leb l 31
    then bit_or 0xa0 l ∷ []
    else if leb l 0xff
    then 0xd9 ∷ big_endian 1 l
    else if leb l 0xffff
    then 0xda ∷ big_endian 2 l
    else 0xdb ∷ big_endian 4 l

unfoldable pub bin_head : ℕ → List ℕ
bin_head l =
    if leb l 0xff
    then 0xc4 ∷ big_endian 1 l
    else if leb l 0xffff
    then 0xc5 ∷ big_endian 2 l
    else 0xc6 ∷ big_endian 4 l

unfoldable pub array_head : ℕ → List ℕ
array_head l =
    if leb l 15
    then bit_or 0x90 l ∷ []
    else if leb l 0xffff
    then 0xdc ∷ big_endian 2 l
    else 0xdd ∷ big_endian 4 l

unfoldable pub map_head : ℕ → List ℕ
map_head l =
    if leb l 15
    then bit_or 0x80 l ∷ []
    else if leb l 0xffff
    then 0xde ∷ big_endian 2 l
    else 0xdf ∷ big_endian 4 l

unfoldable pub encode_unsigned : ℕ → List ℕ
encode_unsigned u =
    if leb u 127
    then u ∷ []
    else if leb u 0xff
    then 0xcc ∷ big_endian 1 u
    else if leb u 0xffff
    then 0xcd ∷ big_endian 2 u
    else if leb u 0xffff_ffff
    then 0xce ∷ big_endian 4 u
    else 0xcf ∷ big_endian 8 u

-- The tests on the ranges of int8, int16 and int32, and the bytes of the two's complement.
unfoldable pub encode_signed : ℤ → List ℕ
encode_signed (pos n) =
    if leb n 127
    then n ∷ []
    else if leb n 0x7fff
    then 0xd1 ∷ big_endian 2 n
    else if leb n 0x7fff_ffff
    then 0xd2 ∷ big_endian 4 n
    else 0xd3 ∷ big_endian 8 n
encode_signed (negsuc n) =
    if leb n 31
    then (255 - n) ∷ []
    else if leb n 127
    then 0xd0 ∷ big_endian 1 (2 ^ 8 - 1 - n)
    else if leb n 0x7fff
    then 0xd1 ∷ big_endian 2 (2 ^ 16 - 1 - n)
    else if leb n 0x7fff_ffff
    then 0xd2 ∷ big_endian 4 (2 ^ 32 - 1 - n)
    else 0xd3 ∷ big_endian 8 (2 ^ 64 - 1 - n)

-- The switch on the dynamic type of an integer's value.
unfoldable pub encode_integer : Any → List ℕ
encode_integer (Any.uint64 u) = encode_unsigned u
encode_integer (Any.uint32 u) = encode_unsigned u
encode_integer (Any.int64 v) = encode_signed v
encode_integer (Any.int32 v) = encode_signed v
encode_integer (Any.int v) = encode_signed v
encode_integer _ = encode_signed (pos 0)

unfoldable pub child_count : Nodes → ℕ
child_count Nodes.none = 0
child_count (Nodes.more n ns) = suc (child_count ns)

unfoldable pub encode_string : Text → List ℕ
encode_string s = str_head (length s) ++ s

unfoldable pub encode_binary : List ℕ → List ℕ
encode_binary b = bin_head (length b) ++ b

-- The switch on the type, given the encodings of the children without and with their keys.
unfoldable pub encode_typed : UirType → Any → ℕ → Encoded → Encoded → Encoded
encode_typed UirType.null v n items fields = ok (0xc0 ∷ [])
encode_typed UirType.string v n items fields = ok (encode_string (as_text v))
encode_typed UirType.bytes v n items fields = ok (encode_binary (as_bytes v))
encode_typed UirType.int32 v n items fields = ok (encode_integer v)
encode_typed UirType.int64 v n items fields = ok (encode_integer v)
encode_typed UirType.uint32 v n items fields = ok (encode_integer v)
encode_typed UirType.uint64 v n items fields = ok (encode_integer v)
encode_typed UirType.sint32 v n items fields = ok (encode_integer v)
encode_typed UirType.sint64 v n items fields = ok (encode_integer v)
encode_typed UirType.fixed32 v n items fields = ok (encode_integer v)
encode_typed UirType.fixed64 v n items fields = ok (encode_integer v)
encode_typed UirType.sfixed32 v n items fields = ok (encode_integer v)
encode_typed UirType.sfixed64 v n items fields = ok (encode_integer v)
encode_typed UirType.float64 v n items fields = ok (0xcb ∷ big_endian 8 (as_float64 v))
encode_typed UirType.float32 v n items fields = ok (0xca ∷ big_endian 4 (as_float32 v))
encode_typed UirType.boolean v n items fields = ok ((if as_bool v then 0xc3 else 0xc2) ∷ [])
encode_typed UirType.array v n items fields = items >>= λ bs. ok (array_head n ++ bs)
encode_typed UirType.map v n items fields = fields >>= λ bs. ok (map_head n ++ bs)
encode_typed _ v n items fields = err MsgPackError.unsupported_node

abbrev pub join : Encoded → Encoded → Encoded
join a b = a >>= λ xs. b >>= λ ys. ok (xs ++ ys)

-- The loop over the children of a map reads child.Key, which panics for nil.
unfoldable mutual
  pub generate_message_pack : Node → Encoded
  generate_message_pack Node.nil = ok (0xc0 ∷ [])
  generate_message_pack (Node.node h ns) =
      encode_typed h.type h.value (child_count ns) (encode_items ns) (encode_fields ns)

  pub encode_items : Nodes → Encoded
  encode_items Nodes.none = ok []
  encode_items (Nodes.more n ns) = join (generate_message_pack n) (encode_items ns)

  pub encode_fields : Nodes → Encoded
  encode_fields Nodes.none = ok []
  encode_fields (Nodes.more Node.nil ns) = err MsgPackError.nil_pointer
  encode_fields (Nodes.more (Node.node h cs) ns) =
      join (join (ok (encode_string h.key)) (generate_message_pack (Node.node h cs)))
        (encode_fields ns)
