-- ===== src/Codec/Protobuf/RoundTrip.antt =====
-- internal/codec/protobuf.go: a message of scalar fields that GenerateProtobuf writes under a schema
-- and ParseProtobuf reads back under the same schema.
use omni_schema.Prelude.{
  ℕ, zero, suc, ◌≤◌, ◌<◌, ◌^◌, ◌≡◌, refl, ap, ◌∙◌, arith, inl, inr, Bool-cases, Bool, true, false,
}
use omni_schema.Prelude.{none, some, List, [], ◌∷◌, ◌++◌, length, not, ◌&&◌}
use omni_schema.Prelude.Bytes.{Text, codes, is_empty}
use omni_schema.Prelude.Maps.{put}
use omni_schema.Prelude.Result.{ok}
use omni_schema.Uir.Types.{UirType, type_eq}
use omni_schema.Uir.Node.{Node, Nodes, Head, lookup}
use omni_schema.Uir.Coerce.{Host}
use omni_schema.Codec.Options.{Options, require_type}
use omni_schema.Codec.Protobuf.{
  proto_tag, infer_proto_type, fields_by_tag, decode_varint, decode_varint_from,
}
use omni_schema.Codec.Protobuf.Encode.{
  Encoder, proto_type_or, set_if_empty, copy_proto_meta, present_field, index_fields,
  encode_by_schema, encode_proto_message, encode_proto_field, encode_body,
  generate_protobuf_with_options,
}
use omni_schema.Codec.Protobuf.Leaves.{annotation_of}
use omni_schema.Codec.Protobuf.Decode.{
  Parser, read_field, parse_protobuf_message, parse_protobuf_with_options, message, root_key,
}
use omni_schema.Codec.Protobuf.Fuel.{read_field-shorter}
use omni_schema.Codec.Protobuf.Scalars.{
  IsScalar, Reads, ReadsBack, scalar_bytes, encode_by_name-scalar, scalar-ReadsBack,
}
use omni_schema.Codec.Protobuf.Plain.{IsPlain, plain_bytes, encode_body-plain, plain-ReadsBack}

-- A value of one of the fifteen scalar types of protobuf, in its range. Of the plain integers the data
-- and the field of the schema also have the type of the node.
pub data FieldValue (f h : Head) (p : Text) (t : UirType) : Type 0 where
  named : type_eq h.type UirType.array ≡ false → IsScalar p t h.value → FieldValue f h p t
  plain : h.type ≡ t → f.type ≡ t → IsPlain p t h.value → FieldValue f h p t

-- The data that a field f of the schema is matched with, once it has the field's annotations, is a
-- scalar of the type p that the schema names, under a tag that the schema gives to f.
pub record IsScalarField (schema : Node) (f : Head) (fs : Nodes) (i : ℕ) (h : Head) (p : Text)
    (t : UirType) : Type 0 where
  pub tag_bound : proto_tag (Node.node f fs) (suc i) < 2 ^ 61
  pub known : fields_by_tag schema (proto_tag (Node.node f fs) (suc i)) ≡ Node.node f fs
  pub named : annotation_of (codes "proto_type") (Node.node f fs) ≡ p
  pub written_as : proto_type_or (copy_proto_meta h f) (infer_proto_type h.type) ≡ p
  pub value : FieldValue f h p t

-- The fields of a schema from position i on, for the data under their keys: each is left out or a
-- scalar.
pub data ScalarFields (schema : Node) : List (Text × Node) → ℕ → Nodes → Type 0 where
  no_more : (idx : List (Text × Node)) (i : ℕ) → ScalarFields schema idx i Nodes.none
  left_out :
      (idx : List (Text × Node)) (i : ℕ) (f : Head) (fs fields : Nodes)
      → present_field idx f ≡ none
      → ScalarFields schema idx (suc i) fields
      → ScalarFields schema idx i (Nodes.more (Node.node f fs) fields)
  written :
      (idx : List (Text × Node)) (i : ℕ) (f : Head) (fs fields : Nodes) (h : Head) (ns : Nodes)
      (p : Text) (t : UirType)
      → present_field idx f ≡ some (h, ns)
      → IsScalarField schema f fs i h p t
      → ScalarFields schema (put h.key (Node.node (copy_proto_meta h f) ns) idx) (suc i) fields
      → ScalarFields schema idx i (Nodes.more (Node.node f fs) fields)

-- What copyProtoMeta leaves as it was.
abbrev SameLeaf : Head → Head → Type 0
SameLeaf c h = (c.type ≡ h.type) × (c.value ≡ h.value)

set_if_empty-SameLeaf : (k : Text) (src dst : Head) → SameLeaf (set_if_empty k src dst) dst
set_if_empty-SameLeaf k src dst =
    let value = lookup k src.annotations in
    elim (Bool-cases (is_empty (lookup k dst.annotations) && not (is_empty value))) [
      | inl copied ↦ (rw copied refl, rw copied refl)
      | inr kept ↦ (rw kept refl, rw kept refl)
    ]

copy_proto_meta-SameLeaf : (dst src : Head) → SameLeaf (copy_proto_meta dst src) dst
unfolding copy_proto_meta
copy_proto_meta-SameLeaf dst src =
    let first = set_if_empty-SameLeaf (codes "proto_type") src dst in
    let second =
      set_if_empty-SameLeaf (codes "proto_number") src
        (set_if_empty (codes "proto_type") src dst) in
    (second.0 ∙ first.0, second.1 ∙ first.1)

encode_body-scalar :
    (rec : Encoder) (host : Host) (tag : ℕ) (h c : Head) (ns : Nodes) (p : Text) (t : UirType)
    → SameLeaf c h
    → type_eq h.type UirType.array ≡ false
    → proto_type_or c (infer_proto_type h.type) ≡ p
    → (s : IsScalar p t h.value)
    → encode_body rec host tag (Node.node c ns) ≡ ok (scalar_bytes tag s)
unfolding encode_body
encode_body-scalar rec host tag h c ns p t (same_type, same_value) no_array written_as s =
    rw (same_type, same_value, no_array, written_as, encode_by_name-scalar host tag s) refl

value_bytes : ℕ → {f h : Head} {p : Text} {t : UirType} → FieldValue f h p t → List ℕ
value_bytes tag (FieldValue.named no_array s) = scalar_bytes tag s
value_bytes tag (FieldValue.plain same own s) = plain_bytes tag s

encode_body-value :
    (rec : Encoder) (host : Host) (tag : ℕ) (f h c : Head) (ns : Nodes) (p : Text) (t : UirType)
    → SameLeaf c h
    → proto_type_or c (infer_proto_type h.type) ≡ p
    → (v : FieldValue f h p t) → encode_body rec host tag (Node.node c ns) ≡ ok (value_bytes tag v)
unfolding value_bytes
encode_body-value rec host tag f h c ns p t same written_as (FieldValue.named no_array s) =
    encode_body-scalar rec host tag h c ns p t same no_array written_as s
encode_body-value rec host tag f h c ns p t (same_type, same_value) written_as
      (FieldValue.plain data_type own s) =
    encode_body-plain rec host tag c ns (same_type ∙ data_type) same_value
      (ap (λ u. proto_type_or c (infer_proto_type u)) same_type ∙ written_as) s

value-ReadsBack :
    (rec : Parser) (host : Host) (schema : Node) (f h : Head) (fs : Nodes) (tag : ℕ) (rest : List ℕ)
    (p : Text) (t : UirType)
    → tag < 2 ^ 61
    → fields_by_tag schema tag ≡ Node.node f fs
    → annotation_of (codes "proto_type") (Node.node f fs) ≡ p
    → (v : FieldValue f h p t) → ReadsBack rec host schema f.key t h.value (value_bytes tag v) rest
unfolding value_bytes
value-ReadsBack rec host schema f h fs tag rest p t ht known name (FieldValue.named no_array s) =
    scalar-ReadsBack rec host schema f fs tag rest ht known name s
value-ReadsBack rec host schema f h fs tag rest p t ht known name (FieldValue.plain same own s) =
    plain-ReadsBack rec host schema f fs tag rest ht known name own s

module _ {schema : Node} where
  message_bytes :
      {idx : List (Text × Node)} {i : ℕ} {fields : Nodes}
      → ScalarFields schema idx i fields
      → List ℕ
  message_bytes (ScalarFields.no_more idx i) = []
  message_bytes (ScalarFields.left_out idx i f fs fields absent rest) = message_bytes rest
  message_bytes (ScalarFields.written idx i f fs fields h ns p t present s rest) =
      value_bytes (proto_tag (Node.node f fs) (suc i)) s.value ++ message_bytes rest

  -- One node for each field that is not left out, in the order of the schema, with the key of the
  -- field and the type and value of the data.
  unfoldable pub ReadAs :
      {idx : List (Text × Node)} {i : ℕ} {fields : Nodes}
      → ScalarFields schema idx i fields
      → Nodes
      → Type 0
  ReadAs (ScalarFields.no_more idx i) out = out ≡ Nodes.none
  ReadAs (ScalarFields.left_out idx i f fs fields absent rest) out = ReadAs rest out
  ReadAs (ScalarFields.written idx i f fs fields h ns p t present s rest) out =
      (n : Node) × (ms : Nodes) × (out ≡ Nodes.more n ms) × Reads f.key t h.value n × ReadAs rest ms

  encode_by_schema-scalars :
      (k : ℕ) (host : Host) {idx : List (Text × Node)} {i : ℕ} {fields : Nodes}
      (s : ScalarFields schema idx i fields)
      → encode_by_schema (encode_proto_field (suc k) host) i idx fields ≡ ok (message_bytes s)
  unfolding encode_by_schema encode_proto_field message_bytes
  encode_by_schema-scalars k host (ScalarFields.no_more idx i) = refl
  encode_by_schema-scalars k host (ScalarFields.left_out idx i f fs fields absent rest) =
      rw (encode_by_schema, absent) (encode_by_schema-scalars k host rest)
  encode_by_schema-scalars k host (ScalarFields.written idx i f fs fields h ns p t present s rest) =
      let written_field =
        encode_body-value (encode_proto_field k host) host (proto_tag (Node.node f fs) (suc i)) f h
          (copy_proto_meta h f) ns p t (copy_proto_meta-SameLeaf h f) s.written_as s.value in
      rw (encode_by_schema, present, written_field, encode_by_schema-scalars k host rest) refl

module _ (schema : Node) where
  -- One round of the loop, where every parser of the levels below reads the field.
  parse_round :
      (host : Host) (P : Node → Type 0) (Q : Nodes → Type 0) (f : ℕ) (bs rest : List ℕ)
      → length bs ≤ f
      → ((rec : Parser) → (n : Node) × (read_field rec host schema bs ≡ ok (n, rest)) × P n)
      → ((g : ℕ)
          → length rest ≤ g
          → (out : Nodes) × (parse_protobuf_message g host schema rest ≡ ok out) × Q out)
      → (n : Node) × (out : Nodes) × (parse_protobuf_message f host schema bs
          ≡ ok (Nodes.more n out))
        × P n
        × Q out
  unfolding parse_protobuf_message read_field decode_varint decode_varint_from
  parse_round host P Q f [] rest h reads later =
      let (n, read, p) = reads (λ s b. ok Nodes.none) in cc
  parse_round host P Q zero (b ∷ bs) rest h reads later = absurd (omega arith)
  parse_round host P Q (suc f) (b ∷ bs) rest h reads later =
      let (n, read, p) = reads (parse_protobuf_message f host) in
      let shorter =
        read_field-shorter (parse_protobuf_message f host) host schema b bs n rest read in
      let (out, parsed, q) = later f (omega arith) in (n, out, rw (read, parsed) refl, p, q)

parse-scalars :
    (schema : Node) (host : Host) {idx : List (Text × Node)} {i : ℕ} {fields : Nodes}
    (s : ScalarFields schema idx i fields) (fuel : ℕ)
    → length (message_bytes s) ≤ fuel
    → (out : Nodes) × (parse_protobuf_message fuel host schema (message_bytes s) ≡ ok out)
      × ReadAs s out
unfolding message_bytes ReadAs parse_protobuf_message
parse-scalars schema host (ScalarFields.no_more idx i) zero enough = (Nodes.none, refl, refl)
parse-scalars schema host (ScalarFields.no_more idx i) (suc fuel) enough = (Nodes.none, refl, refl)
parse-scalars schema host (ScalarFields.left_out idx i f fs fields absent rest) fuel enough =
    parse-scalars schema host rest fuel enough
parse-scalars schema host (ScalarFields.written idx i f fs fields h ns p t present s rest) fuel
      enough =
    let (n, out, parsed, read, later) =
      parse_round schema host (Reads f.key t h.value) (ReadAs rest) fuel _ (message_bytes rest)
        enough
        (λ rec.
          value-ReadsBack rec host schema f h fs (proto_tag (Node.node f fs) (suc i))
            (message_bytes rest) p t s.tag_bound s.known s.named s.value)
        (λ g more. parse-scalars schema host rest g more) in
    (Nodes.more n out, parsed, (n, out, refl, read, later))

not_nil : (a b : Bool) → (a && b && false) ≡ false
not_nil a b = ground arith

-- If the schema that the options name is a map with fields, and each of its fields is left out for
-- the data of a map or finds there a value of one of the fifteen scalar types of protobuf (bool, string,
-- bytes, float, double and the ten integers, but no enum, list or message), which the schema names and
-- for int32, int64, uint32 and uint64 is also the type of the data and of the field, under its tag:
-- GenerateProtobuf succeeds, and ParseProtobuf of its bytes with the same options returns a map that
-- has, in the order of the schema, one node for each field that is not left out, with the key of the
-- field and the type and value of the data.
pub parse_protobuf-generate_protobuf :
    (depth : ℕ) (host : Host) (opts : Options) (s h f : Head) (fs fields ns : Nodes)
    (idx : List (Text × Node))
    → require_type opts (Node.node h ns) ≡ Node.node s (Nodes.more (Node.node f fs) fields)
    → require_type opts Node.nil ≡ Node.node s (Nodes.more (Node.node f fs) fields)
    → type_eq s.type UirType.map ≡ true
    → type_eq h.type UirType.map ≡ true
    → index_fields ns [] ≡ ok idx
    → (scalars : ScalarFields
        (Node.node s (Nodes.more (Node.node f fs) fields))
        idx
        0
        (Nodes.more (Node.node f fs) fields))
    → (bs : List ℕ) × (out : Nodes) × (generate_protobuf_with_options
          (suc depth)
          host
          (Node.node h ns)
          opts
        ≡ ok bs)
      × (parse_protobuf_with_options host bs opts
          ≡ ok (message (root_key (Node.node s (Nodes.more (Node.node f fs) fields))) out))
      × ReadAs scalars out
unfolding generate_protobuf_with_options parse_protobuf_with_options encode_proto_message
parse_protobuf-generate_protobuf depth host opts s h f fs fields ns idx encoded decoded map_schema
      map_data indexed scalars =
    let schema = Node.node s (Nodes.more (Node.node f fs) fields) in
    let bs = message_bytes scalars in
    let (out, parsed, read) = parse-scalars schema host scalars (length bs) (omega arith) in
    (
      bs,
      out,
      rw
          (
            encoded,
            not_nil _ _,
            map_schema,
            map_data,
            indexed,
            encode_by_schema-scalars depth host scalars,
          )
          refl,
      rw (decoded, not_nil _ _, parsed) refl,
      read,
    )
