-- ===== src/Codec/Protobuf/Fields.antt =====
-- internal/codec/protobuf.go: the bytes of one field in front of others, by its wire type.
use omni_schema.Prelude.{ℕ, zero, suc, ◌+◌, ◌*◌, ◌/◌, ◌%◌, ◌^◌, ◌<◌, ◌≡◌, refl, ap, ◌∙◌, arith}
use omni_schema.Prelude.{false, List, ◌∷◌, ◌++◌, length, take, drop}
use omni_schema.Prelude.{drop-append_length, take-append_length, append_assoc, length-append}
use omni_schema.Prelude.{ltb, leb}
use omni_schema.Prelude.Bytes.{codes, text_eq, decimal}
use omni_schema.Prelude.Result.{ok, ◌>>=◌}
use omni_schema.Uir.Node.{Node, Nodes, Head}
use omni_schema.Uir.Coerce.{Host}
use omni_schema.Codec.Protobuf.{
  encode_varint, little_endian, append_varint, append_fixed32, append_fixed64, append_len,
  fields_by_tag,
}
use omni_schema.Codec.Protobuf.Varint.{
  decode_varint-encode_varint, from-little_endian_4, from-little_endian_8, length-little_endian,
}
use omni_schema.Codec.Protobuf.Decode.{
  Parser, read_field, tagged_field, read_wire, read_varint, read_fixed64, read_fixed32, read_len,
  sized_field, decode_len_field,
}
use omni_schema.Codec.Protobuf.Leaves.{
  varint_head, annotation_of, key_or, decode_varint_field, varint_by_name, decode_fixed64_field,
  decode_fixed32_field,
}

-- The tag and the wire type are read back.
read_field-tag :
    (rec : Parser) (host : Host) (schema : Node) (tag wire : ℕ) (body : List ℕ)
    → tag < 2 ^ 61
    → wire < 8
    → read_field rec host schema (encode_varint ((tag * 2 ^ 3 + wire) % 2 ^ 64) ++ body)
      ≡ read_wire rec host wire
          (key_or (decimal tag) (fields_by_tag schema tag))
          (fields_by_tag schema tag)
          body
unfolding read_field tagged_field
read_field-tag rec host schema tag wire body ht hw =
    let word = (tag * 2 ^ 3 + wire) % 2 ^ 64 in
    let bits = encode_varint word in
    let t : word / 8 ≡ tag = omega arith in
    let w : word % 8 ≡ wire = omega arith in
    rw (decode_varint-encode_varint word body (omega arith), drop-append_length bits body, t, w)
      refl

take-little_endian :
    (k u : ℕ) (rest : List ℕ) → take k (little_endian k u ++ rest) ≡ little_endian k u
unfolding little_endian
take-little_endian zero u rest = refl
take-little_endian (suc k) u rest = ap (λ t. (u % 256) ∷ t) (take-little_endian k (u / 256) rest)

drop-little_endian : (k u : ℕ) (rest : List ℕ) → drop k (little_endian k u ++ rest) ≡ rest
unfolding little_endian
drop-little_endian zero u rest = refl
drop-little_endian (suc k) u rest = drop-little_endian k (u / 256) rest

long_enough : (k u : ℕ) (rest : List ℕ) → ltb (length (little_endian k u ++ rest)) k ≡ false
long_enough k u rest =
    let size = length-append (little_endian k u) rest in
    let own = length-little_endian k u in ground arith

module _ (rec : Parser) (host : Host) (schema : Node) (f : Head) (fs : Nodes) (tag : ℕ)
    (rest : List ℕ) (ht : tag < 2 ^ 61) (known : fields_by_tag schema tag ≡ Node.node f fs) where
  tagged :
      (wire : ℕ) (body : List ℕ)
      → wire < 8
      → read_field rec host schema (encode_varint ((tag * 2 ^ 3 + wire) % 2 ^ 64) ++ body)
        ≡ read_wire rec host wire f.key (Node.node f fs) body
  tagged wire body hw = rw (read_field-tag rec host schema tag wire body ht hw, known) refl

  pub varint-field :
      (z : ℕ)
      → z < 2 ^ 64
      → text_eq (annotation_of (codes "proto_type") (Node.node f fs)) (codes "enum") ≡ false
      → read_field rec host schema (append_varint tag z ++ rest)
        ≡ ok (
          varint_by_name
              (annotation_of (codes "proto_type") (Node.node f fs))
              f.type
              z
              (varint_head f.key (Node.node f fs)),
          rest,
        )
  unfolding append_varint read_wire read_varint decode_varint_field
  varint-field z hz no_enum =
      let zero_wire : tag * 2 ^ 3 ≡ tag * 2 ^ 3 + 0 = omega arith in
      rw (append_assoc, zero_wire)
        (tagged 0 (encode_varint z ++ rest) (omega arith)
          ∙ rw
              (
                decode_varint-encode_varint z rest hz,
                drop-append_length (encode_varint z) rest,
                no_enum,
              )
              refl)

  pub fixed64-field :
      (u : ℕ)
      → u < 2 ^ 64
      → read_field rec host schema (append_fixed64 tag u ++ rest)
        ≡ ok (decode_fixed64_field f.key u (Node.node f fs), rest)
  unfolding append_fixed64 read_wire read_fixed64
  fixed64-field u hu = rw append_assoc (
      tagged 1 (little_endian 8 u ++ rest) (omega arith)
      ∙ rw
          (
            long_enough 8 u rest,
            take-little_endian 8 u rest,
            drop-little_endian 8 u rest,
            from-little_endian_8 u hu,
          )
          refl)

  pub fixed32-field :
      (u : ℕ)
      → u < 2 ^ 32
      → read_field rec host schema (append_fixed32 tag u ++ rest)
        ≡ ok (decode_fixed32_field f.key u (Node.node f fs), rest)
  unfolding append_fixed32 read_wire read_fixed32
  fixed32-field u hu = rw append_assoc (
      tagged 5 (little_endian 4 u ++ rest) (omega arith)
      ∙ rw
          (
            long_enough 4 u rest,
            take-little_endian 4 u rest,
            drop-little_endian 4 u rest,
            from-little_endian_4 u hu,
          )
          refl)

  pub len-field :
      (b : List ℕ)
      → length b < 2 ^ 63
      → read_field rec host schema (append_len tag b ++ rest)
        ≡ (decode_len_field rec host f.key b (Node.node f fs) >>= λ c. ok (c, rest))
  unfolding append_len read_wire read_len sized_field
  len-field b hb =
      let size = length-append b rest in
      let small : leb (2 ^ 63) (length b) ≡ false = ground arith in
      let enough : ltb (length (b ++ rest)) (length b) ≡ false = ground arith in
      rw (append_assoc, append_assoc)
        (tagged 2 (encode_varint (length b) ++ (b ++ rest)) (omega arith)
          ∙ rw
              (
                decode_varint-encode_varint (length b) (b ++ rest) (omega arith),
                drop-append_length (encode_varint (length b)) (b ++ rest),
                small,
                enough,
                take-append_length b rest,
                drop-append_length b rest,
              )
              refl)
