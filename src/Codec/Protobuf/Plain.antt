-- ===== src/Codec/Protobuf/Plain.antt =====
-- internal/codec/protobuf.go: the integers that are written as they are, without zigzag. The encoder
-- goes by the type of the node, and the parser keeps that of the schema.
use omni_schema.Prelude.{
  ℕ, ◌%◌, ◌^◌, ◌<◌, ◌≡◌, refl, ap, ◌∙◌, arith, Bool, true, false, none, ◌||◌, List,
}
use omni_schema.Prelude.Int.{ℤ, IsInt32, IsInt64, uint64_of, int64_of-uint64_of, uint64_of-lt}
use omni_schema.Prelude.Bytes.{Text, codes, text_eq}
use omni_schema.Prelude.Result.{ok}
use omni_schema.Uir.Types.{UirType, type_eq}
use omni_schema.Uir.Node.{Any, Node, Nodes, Head}
use omni_schema.Uir.Coerce.{Host}
use omni_schema.Codec.Protobuf.{append_varint, fields_by_tag, infer_proto_type}
use omni_schema.Codec.Protobuf.Values.{encode_by_name, as_uint64}
use omni_schema.Codec.Protobuf.Encode.{Encoder, encode_body, encode_by_type, proto_type_or}
use omni_schema.Codec.Protobuf.Decode.{Parser}
use omni_schema.Codec.Protobuf.Leaves.{
  leaf, varint_head, annotation_of, varint_by_name, varint_by_type,
}
use omni_schema.Codec.Protobuf.Fields.{varint-field}
use omni_schema.Codec.Protobuf.Scalars.{
  ReadsBack, IsInt32-wide, int32_of-uint64_of, varint_head-same,
}

pub data IsPlain : Text → UirType → Any → Type 0 where
  int32 : (v : ℤ) → IsInt32 v → IsPlain (codes "int32") UirType.int32 (Any.int32 v)
  int64 : (v : ℤ) → IsInt64 v → IsPlain (codes "int64") UirType.int64 (Any.int64 v)
  uint32 : (u : ℕ) → u < 2 ^ 32 → IsPlain (codes "uint32") UirType.uint32 (Any.uint32 u)
  uint64 : (u : ℕ) → u < 2 ^ 64 → IsPlain (codes "uint64") UirType.uint64 (Any.uint64 u)

plain_word : {p : Text} {t : UirType} {v : Any} → IsPlain p t v → ℕ
plain_word (IsPlain.int32 v h) = uint64_of v
plain_word (IsPlain.int64 v h) = uint64_of v
plain_word (IsPlain.uint32 u h) = u
plain_word (IsPlain.uint64 u h) = u

plain_word-lt : {p : Text} {t : UirType} {v : Any} (s : IsPlain p t v) → plain_word s < 2 ^ 64
unfolding plain_word
plain_word-lt (IsPlain.int32 v h) = uint64_of-lt v (IsInt32-wide v h)
plain_word-lt (IsPlain.int64 v h) = uint64_of-lt v h
plain_word-lt (IsPlain.uint32 u h) = omega arith
plain_word-lt (IsPlain.uint64 u h) = h

pub plain_bytes : ℕ → {p : Text} {t : UirType} {v : Any} → IsPlain p t v → List ℕ
plain_bytes tag s = append_varint tag (plain_word s)

-- The types of the first case of the switch on the type.
abbrev is_varint_type : UirType → Bool
is_varint_type t =
    type_eq t UirType.int32
    || type_eq t UirType.int64
    || type_eq t UirType.uint32
    || type_eq t UirType.uint64
    || type_eq t UirType.sint32
    || type_eq t UirType.sint64
    || type_eq t UirType.enum

encode_by_type-varint :
    (rec : Encoder) (host : Host) (tag : ℕ) (c : Head) (ns : Nodes)
    → is_varint_type c.type ≡ true
    → encode_by_type rec host tag c ns ≡ ok (append_varint tag (as_uint64 host c.value))
unfolding encode_by_type
encode_by_type-varint rec host tag c ns e = rw e refl

encode_by_name-plain :
    (host : Host) (tag : ℕ) {p : Text} {t : UirType} {v : Any}
    → IsPlain p t v
    → (w : Any) → encode_by_name host tag p w ≡ none
unfolding encode_by_name text_eq
encode_by_name-plain host tag (IsPlain.int32 v h) w = refl
encode_by_name-plain host tag (IsPlain.int64 v h) w = refl
encode_by_name-plain host tag (IsPlain.uint32 u h) w = refl
encode_by_name-plain host tag (IsPlain.uint64 u h) w = refl

as_uint64-plain :
    (host : Host) {p : Text} {t : UirType} {v : Any} (s : IsPlain p t v)
    → (as_uint64 host v ≡ plain_word s)
      × (is_varint_type t ≡ true)
      × (type_eq t UirType.array ≡ false)
unfolding as_uint64 plain_word
as_uint64-plain host (IsPlain.int32 v h) = (refl, refl, refl)
as_uint64-plain host (IsPlain.int64 v h) = (refl, refl, refl)
as_uint64-plain host (IsPlain.uint32 u h) = (refl, refl, refl)
as_uint64-plain host (IsPlain.uint64 u h) = (refl, refl, refl)

pub encode_body-plain :
    (rec : Encoder) (host : Host) (tag : ℕ) (c : Head) (ns : Nodes) {p : Text} {t : UirType}
    {v : Any}
    → c.type ≡ t
    → c.value ≡ v
    → proto_type_or c (infer_proto_type c.type) ≡ p
    → (s : IsPlain p t v) → encode_body rec host tag (Node.node c ns) ≡ ok (plain_bytes tag s)
unfolding encode_body plain_bytes
encode_body-plain rec host tag c ns same_type same_value written_as s =
    let (word, is_varint, no_array) = as_uint64-plain host s in
    let not_array : type_eq c.type UirType.array ≡ false =
      ap (λ u. type_eq u UirType.array) same_type ∙ no_array in
    let by_type =
      encode_by_type-varint rec host tag c ns (ap is_varint_type same_type ∙ is_varint) in
    let bytes = ap (λ w. append_varint tag (as_uint64 host w)) same_value in
    rw (not_array, written_as, encode_by_name-plain host tag s c.value)
      (by_type ∙ ap ok (bytes ∙ ap (append_varint tag) word))

varint_by_name-plain :
    {p : Text} {t : UirType} {v : Any} (s : IsPlain p t v) (h : Head)
    → h.type ≡ t
    → varint_by_name p t (plain_word s) h ≡ leaf (record h { type = t; value = v })
unfolding varint_by_name varint_by_type plain_word text_eq
varint_by_name-plain (IsPlain.int32 v r) h e = rw (int32_of-uint64_of v r, ← e) refl
varint_by_name-plain (IsPlain.int64 v r) h e = rw (int64_of-uint64_of v r) refl
varint_by_name-plain (IsPlain.uint32 u r) h e =
    let low : u % 2 ^ 32 ≡ u = omega arith in rw (low, ← e) refl
varint_by_name-plain (IsPlain.uint64 u r) h e = rw (← e) refl

no_enum : {p : Text} {t : UirType} {v : Any} → IsPlain p t v → text_eq p (codes "enum") ≡ false
unfolding text_eq
no_enum (IsPlain.int32 v h) = refl
no_enum (IsPlain.int64 v h) = refl
no_enum (IsPlain.uint32 u h) = refl
no_enum (IsPlain.uint64 u h) = refl

pub plain-ReadsBack :
    (rec : Parser) (host : Host) (schema : Node) (f : Head) (fs : Nodes) (tag : ℕ) (rest : List ℕ)
    {p : Text} {t : UirType} {v : Any}
    → tag < 2 ^ 61
    → fields_by_tag schema tag ≡ Node.node f fs
    → annotation_of (codes "proto_type") (Node.node f fs) ≡ p
    → f.type ≡ t
    → (s : IsPlain p t v) → ReadsBack rec host schema f.key t v (plain_bytes tag s) rest
unfolding plain_bytes
plain-ReadsBack rec host schema f fs tag rest {p} {t} {v} ht known named same s =
    let head = varint_head f.key (Node.node f fs) in
    let (same_key, own_type) = varint_head-same f fs in
    (
      leaf (record head { type = t; value = v }),
      varint-field rec host schema f fs tag rest ht known (plain_word s) (plain_word-lt s)
            (rw named (no_enum s))
          ∙ ap (λ (q : Text). ok (varint_by_name q f.type (plain_word s) head, rest)) named
          ∙ ap (λ (u : UirType). ok (varint_by_name p u (plain_word s) head, rest)) same
          ∙ ap (λ (n : Node). ok (n, rest)) (varint_by_name-plain s head (own_type ∙ same)),
      (record head { type = t; value = v }, refl, same_key, refl, refl),
    )
