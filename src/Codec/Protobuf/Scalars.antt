-- ===== src/Codec/Protobuf/Scalars.antt =====
-- internal/codec/protobuf.go: a scalar field that is written and read back under a schema.
use omni_schema.Prelude.{ℕ, ◌%◌, ◌^◌, ◌<◌, ◌≡◌, refl, ap, ◌∙◌, arith}
use omni_schema.Prelude.{Bool, true, false, some, List, [], ◌++◌, length}
use omni_schema.Prelude.{if◌then◌else◌}
use omni_schema.Prelude.Int.{ℤ, pos, negsuc, IsInt32, IsInt64, int32_of, uint64_of}
use omni_schema.Prelude.Int.{int64_of-uint64_of, uint64_of-lt}
use omni_schema.Prelude.Bytes.{Text, codes, text_eq, is_empty}
use omni_schema.Prelude.Result.{ok, ◌>>=◌}
use omni_schema.Uir.Types.{UirType}
use omni_schema.Uir.Node.{Any, Node, Nodes, Head, new_head, insert}
use omni_schema.Uir.Coerce.{Host}
use omni_schema.Codec.Protobuf.{
  zigzag, append_varint, append_fixed32, append_fixed64, append_len, fields_by_tag,
}
use omni_schema.Codec.Protobuf.Varint.{unzigzag-zigzag}
use omni_schema.Codec.Protobuf.Values.{encode_by_name, as_int64, as_uint64}
use omni_schema.Codec.Protobuf.Decode.{Parser, read_field, decode_len_field}
use omni_schema.Codec.Protobuf.Leaves.{
  leaf, typed_leaf, varint_head, annotation_of, varint_by_name, decode_fixed64_field,
  decode_fixed32_field, fixed32_type,
}
use omni_schema.Codec.Protobuf.Fields.{varint-field, fixed64-field, fixed32-field, len-field}

-- The named types of protobuf with the type of the node and a value in range.
pub data IsScalar : Text → UirType → Any → Type 0 where
  sint32 : (v : ℤ) → IsInt32 v → IsScalar (codes "sint32") UirType.sint32 (Any.int32 v)
  sint64 : (v : ℤ) → IsInt64 v → IsScalar (codes "sint64") UirType.sint64 (Any.int64 v)
  fixed64 : (u : ℕ) → u < 2 ^ 64 → IsScalar (codes "fixed64") UirType.fixed64 (Any.uint64 u)
  sfixed64 : (v : ℤ) → IsInt64 v → IsScalar (codes "sfixed64") UirType.sfixed64 (Any.int64 v)
  fixed32 : (u : ℕ) → u < 2 ^ 32 → IsScalar (codes "fixed32") UirType.fixed32 (Any.uint32 u)
  sfixed32 : (v : ℤ) → IsInt32 v → IsScalar (codes "sfixed32") UirType.sfixed32 (Any.int32 v)
  float : (f : ℕ) → f < 2 ^ 32 → IsScalar (codes "float") UirType.float32 (Any.float32 f)
  double : (f : ℕ) → f < 2 ^ 64 → IsScalar (codes "double") UirType.float64 (Any.float64 f)
  bool : (b : Bool) → IsScalar (codes "bool") UirType.boolean (Any.bool b)
  string : (s : Text) → length s < 2 ^ 63 → IsScalar (codes "string") UirType.string (Any.text s)
  bytes : (b : List ℕ) → length b < 2 ^ 63 → IsScalar (codes "bytes") UirType.bytes (Any.bytes b)

-- A node without children that has the key of the field and this type and value.
abbrev pub Reads : Text → UirType → Any → Node → Type 0
Reads key t v n = (h : Head) × (n ≡ leaf h) × (h.key ≡ key) × (h.type ≡ t) × (h.value ≡ v)

pub varint_head-same :
    (f : Head) (fs : Nodes)
    → ((varint_head f.key (Node.node f fs)).key ≡ f.key)
      × ((varint_head f.key (Node.node f fs)).type ≡ f.type)
unfolding varint_head new_head
varint_head-same f fs = (refl, refl)

-- The bytes of a field are read as its node in front of any rest.
abbrev pub ReadsBack : Parser → Host → Node → Text → UirType → Any → List ℕ → List ℕ → Type 0
ReadsBack rec host schema key t v bs rest =
    (n : Node) × (read_field rec host schema (bs ++ rest) ≡ ok (n, rest)) × Reads key t v n

module _ (rec : Parser) (host : Host) (schema : Node) (f : Head) (fs : Nodes) (tag : ℕ)
    (rest : List ℕ) (ht : tag < 2 ^ 61) (known : fields_by_tag schema tag ≡ Node.node f fs)
    (p : Text) (named : annotation_of (codes "proto_type") (Node.node f fs) ≡ p) where
  varint-ReadsBack :
      (t : UirType) (v : Any) (u : ℕ)
      → u < 2 ^ 64
      → text_eq p (codes "enum") ≡ false
      → ((h : Head) → varint_by_name p f.type u h ≡ leaf (record h { type = t; value = v }))
      → ReadsBack rec host schema f.key t v (append_varint tag u) rest
  varint-ReadsBack t v u hu no_enum value =
      let head = varint_head f.key (Node.node f fs) in
      (
        leaf (record head { type = t; value = v }),
        varint-field rec host schema f fs tag rest ht known u hu (rw named no_enum)
            ∙ ap (λ (q : Text). ok (varint_by_name q f.type u head, rest)) named
            ∙ ap (λ (n : Node). ok (n, rest)) (value head),
        (record head { type = t; value = v }, refl, (varint_head-same f fs).0, refl, refl),
      )

  fixed64-ReadsBack :
      (t : UirType) (v : Any) (u : ℕ)
      → u < 2 ^ 64
      → decode_fixed64_field f.key u (Node.node f fs) ≡ typed_leaf t f.key v p
      → ReadsBack rec host schema f.key t v (append_fixed64 tag u) rest
  unfolding new_head
  fixed64-ReadsBack t v u hu value = (
    typed_leaf t f.key v p,
    fixed64-field rec host schema f fs tag rest ht known u hu
        ∙ ap (λ (n : Node). ok (n, rest)) value,
    (_, refl, refl, refl, refl),
  )

  fixed32-ReadsBack :
      (t : UirType) (v : Any) (u : ℕ) (h : Head)
      → u < 2 ^ 32
      → decode_fixed32_field f.key u (Node.node f fs) ≡ leaf h
      → (h.key ≡ f.key) × (h.type ≡ t) × (h.value ≡ v)
      → ReadsBack rec host schema f.key t v (append_fixed32 tag u) rest
  fixed32-ReadsBack t v u h hu value same = (
    leaf h,
    fixed32-field rec host schema f fs tag rest ht known u hu
        ∙ ap (λ (n : Node). ok (n, rest)) value,
    (h, refl, same.0, same.1, same.2),
  )

  len-ReadsBack :
      (t : UirType) (v : Any) (b : List ℕ)
      → length b < 2 ^ 63
      → decode_len_field rec host f.key b (Node.node f fs) ≡ ok (typed_leaf t f.key v p)
      → ReadsBack rec host schema f.key t v (append_len tag b) rest
  unfolding new_head
  len-ReadsBack t v b hb value = (
    typed_leaf t f.key v p,
    len-field rec host schema f fs tag rest ht known b hb ∙ ap (λ r. r >>= λ c. ok (c, rest)) value,
    (_, refl, refl, refl, refl),
  )

-- The bytes that a scalar of a named type is written as, under a tag.
pub scalar_bytes : ℕ → {p : Text} {t : UirType} {v : Any} → IsScalar p t v → List ℕ
scalar_bytes tag (IsScalar.sint32 v h) = append_varint tag (zigzag v)
scalar_bytes tag (IsScalar.sint64 v h) = append_varint tag (zigzag v)
scalar_bytes tag (IsScalar.fixed64 u h) = append_fixed64 tag u
scalar_bytes tag (IsScalar.sfixed64 v h) = append_fixed64 tag (uint64_of v)
scalar_bytes tag (IsScalar.fixed32 u h) = append_fixed32 tag (u % 2 ^ 32)
scalar_bytes tag (IsScalar.sfixed32 v h) = append_fixed32 tag (uint64_of v % 2 ^ 32)
scalar_bytes tag (IsScalar.float f h) = append_fixed32 tag f
scalar_bytes tag (IsScalar.double f h) = append_fixed64 tag f
scalar_bytes tag (IsScalar.bool b) = append_varint tag (if b then 1 else 0)
scalar_bytes tag (IsScalar.string s h) = append_len tag s
scalar_bytes tag (IsScalar.bytes b h) = append_len tag b

pub encode_by_name-scalar :
    (host : Host) (tag : ℕ) {p : Text} {t : UirType} {v : Any} (s : IsScalar p t v)
    → encode_by_name host tag p v ≡ some (scalar_bytes tag s)
unfolding encode_by_name as_int64 as_uint64 text_eq scalar_bytes
encode_by_name-scalar host tag (IsScalar.bool true) = refl
encode_by_name-scalar host tag (IsScalar.bool false) = refl
encode_by_name-scalar host tag _ = refl

zigzag-lt : (v : ℤ) → IsInt64 v → zigzag v < 2 ^ 64
unfolding zigzag
zigzag-lt (pos n) h = omega arith
zigzag-lt (negsuc n) h = omega arith

pub IsInt32-wide : (v : ℤ) → IsInt32 v → IsInt64 v
IsInt32-wide (pos n) h = omega arith
IsInt32-wide (negsuc n) h = omega arith

pub int32_of-uint64_of : (v : ℤ) → IsInt32 v → int32_of (uint64_of v) ≡ v
int32_of-uint64_of (pos n) h = ground arith
int32_of-uint64_of (negsuc n) h = ground arith

int32_of-low : (u : ℕ) → int32_of (u % 2 ^ 32) ≡ int32_of u
int32_of-low u = ground arith

fixed32-named :
    (f : Head) (fs : Nodes) (p : Text) (u : ℕ)
    → annotation_of (codes "proto_type") (Node.node f fs) ≡ p
    → is_empty p ≡ false
    → fixed32_type (Node.node f fs) ≡ p
fixed32-named f fs p u named some_name = rw (named, some_name) refl

pub scalar-ReadsBack :
    (rec : Parser) (host : Host) (schema : Node) (f : Head) (fs : Nodes) (tag : ℕ) (rest : List ℕ)
    {p : Text} {t : UirType} {v : Any}
    → tag < 2 ^ 61
    → fields_by_tag schema tag ≡ Node.node f fs
    → annotation_of (codes "proto_type") (Node.node f fs) ≡ p
    → (s : IsScalar p t v) → ReadsBack rec host schema f.key t v (scalar_bytes tag s) rest
unfolding scalar_bytes varint_by_name text_eq decode_fixed64_field decode_fixed32_field
    decode_len_field new_head
scalar-ReadsBack rec host schema f fs tag rest ht known named (IsScalar.sint32 z hz) =
    varint-ReadsBack rec host schema f fs tag rest ht known _ named UirType.sint32 _ (zigzag z)
      (zigzag-lt z (IsInt32-wide z hz)) refl
      (λ h. rw (unzigzag-zigzag z, int32_of-uint64_of z hz) refl)
scalar-ReadsBack rec host schema f fs tag rest ht known named (IsScalar.sint64 z hz) =
    varint-ReadsBack rec host schema f fs tag rest ht known _ named UirType.sint64 _ (zigzag z)
      (zigzag-lt z hz) refl (λ h. rw (unzigzag-zigzag z) refl)
scalar-ReadsBack rec host schema f fs tag rest ht known named (IsScalar.bool true) =
    varint-ReadsBack rec host schema f fs tag rest ht known _ named UirType.boolean _ 1
      (omega arith) refl (λ h. refl)
scalar-ReadsBack rec host schema f fs tag rest ht known named (IsScalar.bool false) =
    varint-ReadsBack rec host schema f fs tag rest ht known _ named UirType.boolean _ 0
      (omega arith) refl (λ h. refl)
scalar-ReadsBack rec host schema f fs tag rest ht known named (IsScalar.fixed64 u hu) =
    fixed64-ReadsBack rec host schema f fs tag rest ht known _ named UirType.fixed64 _ u hu
      (rw named refl)
scalar-ReadsBack rec host schema f fs tag rest ht known named (IsScalar.sfixed64 z hz) =
    fixed64-ReadsBack rec host schema f fs tag rest ht known _ named UirType.sfixed64 _
      (uint64_of z) (uint64_of-lt z hz) (rw (named, int64_of-uint64_of z hz) refl)
scalar-ReadsBack rec host schema f fs tag rest ht known named (IsScalar.double u hu) =
    fixed64-ReadsBack rec host schema f fs tag rest ht known _ named UirType.float64 _ u hu
      (rw named refl)
scalar-ReadsBack rec host schema f fs tag rest ht known named (IsScalar.fixed32 u hu) =
    let low : u % 2 ^ 32 ≡ u = omega arith in
    rw low (
      fixed32-ReadsBack rec host schema f fs tag rest ht known _ named UirType.fixed32 _ u
        (record (new_head UirType.fixed32 f.key (Any.uint32 u)) {
          annotations = insert (codes "proto_type") (codes "fixed32") [];
        })
        hu (rw (fixed32-named f fs _ u named refl) refl) (refl, refl, refl))
scalar-ReadsBack rec host schema f fs tag rest ht known named (IsScalar.sfixed32 z hz) =
    fixed32-ReadsBack rec host schema f fs tag rest ht known _ named UirType.sfixed32 _
      (uint64_of z % 2 ^ 32)
      (record (new_head UirType.sfixed32 f.key (Any.int32 z)) {
        annotations = insert (codes "proto_type") (codes "sfixed32") [];
      })
      (omega arith)
      (rw (fixed32-named f fs _ 0 named refl, int32_of-low (uint64_of z), int32_of-uint64_of z hz)
        refl)
      (refl, refl, refl)
scalar-ReadsBack rec host schema f fs tag rest ht known named (IsScalar.float u hu) =
    fixed32-ReadsBack rec host schema f fs tag rest ht known _ named UirType.float32 _ u
      (record (new_head UirType.float32 f.key (Any.float32 u)) {
        annotations = insert (codes "proto_type") (codes "float") [];
      })
      hu (rw (fixed32-named f fs _ u named refl) refl) (refl, refl, refl)
scalar-ReadsBack rec host schema f fs tag rest ht known named (IsScalar.string s hs) =
    len-ReadsBack rec host schema f fs tag rest ht known _ named UirType.string _ s hs
      (rw named refl)
scalar-ReadsBack rec host schema f fs tag rest ht known named (IsScalar.bytes b hb) =
    len-ReadsBack rec host schema f fs tag rest ht known _ named UirType.bytes _ b hb
      (rw named refl)
