-- ===== src/Codec/Protobuf/Finishes.antt =====
-- internal/codec/protobuf.go: the parser comes to an end on every input.
use omni_schema.Prelude.{ℕ, zero, suc, ◌%◌, ◌/◌, ◌^◌, ◌≤◌, ◌≡◌, ◌≢◌, refl, ap, arith}
use omni_schema.Prelude.{
  Bool, true, false, List, [], ◌∷◌, length, take, drop, length-drop, length-take,
}
use omni_schema.Prelude.{ltb, leb, ◌==◌, if◌then◌else◌, ◌||◌, ◌&&◌}
use omni_schema.Prelude.Bytes.{Text, codes, text_eq, decimal}
use omni_schema.Prelude.Result.{Result, ok, err, ◌>>=◌}
use omni_schema.Uir.Node.{children_of, Node, Nodes, Head, Any, lookup}
use omni_schema.Uir.Coerce.{Host}
use omni_schema.Uir.Coerce.Encoding.{sprint}
use omni_schema.Prelude.Int.{int32_of}
use omni_schema.Codec.Protobuf.{ProtoError, decode_varint_from, decode_varint, fields_by_tag}
use omni_schema.Codec.Protobuf.Decode.{
  Parser, decode_len_field, sized_field, read_len, read_varint, read_fixed64, read_fixed32,
  read_wire, tagged_field, read_field, parse_protobuf_message, is_message_type,
}
use omni_schema.Codec.Protobuf.Leaves.{
  enum_value, decode_varint_field, key_or, annotation_of, enum_field, varint_head,
}
use omni_schema.Codec.Protobuf.Fuel.{read_field-shorter, parse_fuel, decode_varint-count}

-- A result other than that of a recursion cut short.
unfoldable Fine : {A : Type 0} → Result ProtoError A → Type 0
Fine r = r ≢ err ProtoError.out_of_fuel

ok-Fine : {A : Type 0} (a : A) → Fine (ok a)
unfolding Fine
ok-Fine a p = cc

err-Fine : (A : Type 0) (e : ProtoError) → e ≢ ProtoError.out_of_fuel → Fine {A = A} (err e)
unfolding Fine
err-Fine A e h p = h cc

bind-Fine :
    {A B : Type 0} (r : Result ProtoError A) (k : A → Result ProtoError B)
    → Fine r
    → ((a : A) → r ≡ ok a → Fine (k a))
    → Fine (r >>= k)
unfolding Fine
bind-Fine (ok a) k h g = g a refl
bind-Fine (err e) k h g = err-Fine _ e (λ p. h (ap err p))

if-Fine :
    {A : Type 0} (b : Bool) (x y : Result ProtoError A)
    → Fine x
    → Fine y
    → Fine (if b then x else y)
if-Fine true x y h k = h
if-Fine false x y h k = k

-- The errors of the code.
overflow-fine : ProtoError.varint_overflow ≢ ProtoError.out_of_fuel
overflow-fine p = cc

varint_eof-fine : ProtoError.varint_eof ≢ ProtoError.out_of_fuel
varint_eof-fine p = cc

eof64-fine : ProtoError.eof_fixed64 ≢ ProtoError.out_of_fuel
eof64-fine p = cc

eof32-fine : ProtoError.eof_fixed32 ≢ ProtoError.out_of_fuel
eof32-fine p = cc

eof_length-fine : ProtoError.eof_length ≢ ProtoError.out_of_fuel
eof_length-fine p = cc

panic-fine : ProtoError.slice_panic ≢ ProtoError.out_of_fuel
panic-fine p = cc

nil-fine : ProtoError.nil_pointer ≢ ProtoError.out_of_fuel
nil-fine p = cc

wire-fine : (w : ℕ) → ProtoError.unsupported_wire w ≢ ProtoError.out_of_fuel
wire-fine w p = cc

decode_varint_from-Fine : (i v : ℕ) (bs : List ℕ) → Fine (decode_varint_from i v bs)
unfolding decode_varint_from
decode_varint_from-Fine i v [] = err-Fine _ _ varint_eof-fine
decode_varint_from-Fine i v (b ∷ bs) =
    if-Fine (ltb b 0x80) _ _
      (if-Fine (ltb 9 i || i == 9 && ltb 1 b) _ _ (err-Fine _ _ overflow-fine) (ok-Fine _))
      (decode_varint_from-Fine (suc i) _ bs)

decode_varint-Fine : (bs : List ℕ) → Fine (decode_varint bs)
unfolding decode_varint
decode_varint-Fine bs = decode_varint_from-Fine 0 0 bs

enum_value-Fine : (host : Host) (val : ℕ) (ns : Nodes) → Fine (enum_value host val ns)
unfolding enum_value
enum_value-Fine host val Nodes.none = ok-Fine _
enum_value-Fine host val (Nodes.more Node.nil ns) = err-Fine _ _ nil-fine
enum_value-Fine host val (Nodes.more (Node.node e es) ns) =
    if-Fine
      (text_eq (sprint host e.value) (sprint host (Any.int32 (int32_of val)))
        || text_eq (lookup (codes "enum_number") e.annotations) (decimal val))
      _ _ (ok-Fine _) (enum_value-Fine host val ns)

enum_field-Fine :
    (host : Host) (val : ℕ) (schema : Node) (node : Head) → Fine (enum_field host val schema node)
unfolding enum_field
enum_field-Fine host val schema node =
    bind-Fine (enum_value host val (children_of schema)) _
      (enum_value-Fine host val (children_of schema)) (λ v e. ok-Fine _)

decode_varint_field-Fine :
    (host : Host) (key : Text) (val : ℕ) (schema : Node)
    → Fine (decode_varint_field host key val schema)
unfolding decode_varint_field
decode_varint_field-Fine host key val schema =
    let p = annotation_of (codes "proto_type") schema in
    if-Fine (text_eq p (codes "enum")) _ _
      (enum_field-Fine host val schema (varint_head key schema)) (ok-Fine _)

module _ (rec : Parser) (host : Host) (l : ℕ)
    (runs : (schema : Node) (bs : List ℕ) → length bs ≤ l → Fine (rec schema bs)) where
  decode_len_field-Fine :
      (key : Text) (chunk : List ℕ) (field : Node)
      → length chunk ≤ l
      → Fine (decode_len_field rec host key chunk field)
  unfolding decode_len_field
  decode_len_field-Fine key chunk field h =
      let p = annotation_of (codes "proto_type") field in
      if-Fine (text_eq p (codes "string")) _ _ (ok-Fine _) (
        if-Fine (text_eq p (codes "bytes")) _ _ (ok-Fine _) (
          if-Fine (is_message_type field) _ _
            (bind-Fine (rec field chunk) _ (runs field chunk h) (λ ns e. ok-Fine _)) (ok-Fine _)))

  sized_field-Fine :
      (key : Text) (field : Node) (n : ℕ) (bs : List ℕ)
      → length bs ≤ l
      → Fine (sized_field rec host key field n bs)
  unfolding sized_field
  sized_field-Fine key field n bs h = if-Fine (leb (2 ^ 63) n) _ _ (err-Fine _ _ panic-fine) (
      if-Fine (ltb (length bs) n) _ _ (err-Fine _ _ eof_length-fine) (
        bind-Fine (decode_len_field rec host key (take n bs) field) _
          (decode_len_field-Fine key (take n bs) field (omega (arith, length-take n bs)))
          (λ c e. ok-Fine _)))

  read_wire-Fine :
      (wire : ℕ) (key : Text) (field : Node) (bs : List ℕ)
      → length bs ≤ l
      → Fine (read_wire rec host wire key field bs)
  unfolding read_wire read_varint read_fixed64 read_fixed32 read_len
  read_wire-Fine wire key field bs h =
      if-Fine (wire == 0) _ _
        (bind-Fine (decode_varint bs) _ (decode_varint-Fine bs) (λ (v, n) e.
          bind-Fine (decode_varint_field host key v field) _
            (decode_varint_field-Fine host key v field) (λ c e. ok-Fine _)))
        (if-Fine (wire == 1) _ _
          (if-Fine (ltb (length bs) 8) _ _ (err-Fine _ _ eof64-fine) (ok-Fine _))
          (if-Fine (wire == 2) _ _
            (bind-Fine (decode_varint bs) _ (decode_varint-Fine bs) (λ (n, k) e.
              sized_field-Fine key field n (drop k bs) (omega (arith, length-drop k bs))))
            (if-Fine (wire == 5) _ _
              (if-Fine (ltb (length bs) 4) _ _ (err-Fine _ _ eof32-fine) (ok-Fine _))
              (err-Fine _ _ (wire-fine wire)))))

  read_field-Fine :
      (schema : Node) (bs : List ℕ) → length bs ≤ suc l → Fine (read_field rec host schema bs)
  unfolding read_field tagged_field
  read_field-Fine schema bs h = bind-Fine (decode_varint bs) _ (decode_varint-Fine bs) (λ (t, n) e.
      let field = fields_by_tag schema (t / 8) in
      read_wire-Fine (t % 8) (key_or (decimal (t / 8)) field) field (drop n bs)
        (omega (arith, length-drop n bs, decode_varint-count bs t n e)))

parse-Fine :
    (f : ℕ) (host : Host) (schema : Node) (bs : List ℕ)
    → length bs ≤ f
    → Fine (parse_protobuf_message f host schema bs)
unfolding parse_protobuf_message
parse-Fine zero host schema [] h = ok-Fine _
parse-Fine zero host schema (b ∷ bs) h = absurd (omega arith)
parse-Fine (suc f) host schema [] h = ok-Fine _
parse-Fine (suc f) host schema (b ∷ bs) h =
    bind-Fine (read_field (parse_protobuf_message f host) host schema (b ∷ bs)) _
      (read_field-Fine (parse_protobuf_message f host) host (length bs)
        (λ schema cs l. parse-Fine f host schema cs (omega arith)) schema (b ∷ bs) (omega arith))
      (λ (c, rest) e.
        let shorter =
          read_field-shorter (parse_protobuf_message f host) host schema b bs c rest e in
        bind-Fine (parse_protobuf_message f host schema rest) _
          (parse-Fine f host schema rest (omega arith)) (λ ns e. ok-Fine _))

-- The length of the input bounds the loops and the nesting of the parser: with that fuel it comes to
-- a node or to an error of the code on every input, and with more fuel to the same.
pub parse_protobuf-Fine :
    (host : Host) (schema : Node) (bytes : List ℕ) (f : ℕ)
    → length bytes ≤ f
    → (parse_protobuf_message (length bytes) host schema bytes ≢ err ProtoError.out_of_fuel)
      × (parse_protobuf_message f host schema bytes
          ≡ parse_protobuf_message (length bytes) host schema bytes)
unfolding Fine
parse_protobuf-Fine host schema bytes f h = (
  parse-Fine (length bytes) host schema bytes (omega arith),
  parse_fuel f (length bytes) host schema bytes h (omega arith),
)
