-- ===== src/Codec/Cbor/Encode.antt =====
-- internal/codec/cbor.go: GenerateCBOR. The depth is counted down: `levels` is 65 - depth, so that
-- `zero` is the depth that exceeds the bound, and the item budget is threaded through.
use Prim.Native.Nat.{bit_or}
use omni_schema.Prelude.{ℕ, zero, suc, ◌*◌, ◌%◌, Bool, true, false, ◌||◌, ltb, leb}
use omni_schema.Prelude.{if◌then◌else◌, List, [], ◌∷◌, ◌++◌, length}
use omni_schema.Prelude.Int.{ℤ, pos, negsuc}
use omni_schema.Prelude.Bytes.{Text, text_lt, mem_text, valid_utf8, big_endian}
use omni_schema.Prelude.Result.{Result, ok, err, ◌>>=◌, ◌>>◌, guard}
use omni_schema.Uir.Types.{UirType, type_eq}
use omni_schema.Uir.Presence.{Presence}
use omni_schema.Uir.Node.{Any, Head, Node, Nodes}
use omni_schema.Codec.Cbor.{CborError, cbor_max_depth, cbor_max_items}

-- byte(major<<5 | info)
abbrev pub initial_byte : ℕ → ℕ → ℕ
initial_byte major info = bit_or (major * 32 % 256) info

unfoldable pub cbor_head : List ℕ → ℕ → ℕ → List ℕ
cbor_head dst major value =
    if ltb value 24
    then dst ++ (initial_byte major value ∷ [])
    else if leb value 0xff
    then dst ++ (initial_byte major 24 ∷ value ∷ [])
    else if leb value 0xffff
    then dst ++ (initial_byte major 25 ∷ big_endian 2 value)
    else if leb value 0xffff_ffff
    then dst ++ (initial_byte major 26 ∷ big_endian 4 value)
    else dst ++ (initial_byte major 27 ∷ big_endian 8 value)

-- `-(value + 1)` of -(n + 1) is n.
unfoldable pub cbor_signed : List ℕ → ℤ → List ℕ
cbor_signed dst (pos n) = cbor_head dst 0 n
cbor_signed dst (negsuc n) = cbor_head dst 1 n

-- The switch on the dynamic type of the value.
unfoldable pub encode_scalar : List ℕ → Any → Result CborError (List ℕ)
encode_scalar dst Any.nil = ok (dst ++ (0xf6 ∷ []))
encode_scalar dst (Any.bool true) = ok (dst ++ (0xf5 ∷ []))
encode_scalar dst (Any.bool false) = ok (dst ++ (0xf4 ∷ []))
encode_scalar dst (Any.text s) = do
  guard (valid_utf8 s) CborError.invalid_text
  ok (cbor_head dst 3 (length s) ++ s)
encode_scalar dst (Any.bytes b) = ok (cbor_head dst 2 (length b) ++ b)
encode_scalar dst (Any.int v) = ok (cbor_signed dst v)
encode_scalar dst (Any.int32 v) = ok (cbor_signed dst v)
encode_scalar dst (Any.int64 v) = ok (cbor_signed dst v)
encode_scalar dst (Any.uint32 u) = ok (cbor_head dst 0 u)
encode_scalar dst (Any.uint64 u) = ok (cbor_head dst 0 u)
encode_scalar dst (Any.float32 bits) = ok (dst ++ (0xfa ∷ big_endian 4 bits))
encode_scalar dst (Any.float64 bits) = ok (dst ++ (0xfb ∷ big_endian 8 bits))
encode_scalar dst Any.other = err CborError.unsupported_value

-- `(*budget)--; if *budget < 0`
unfoldable pub spend : ℕ → Result CborError ℕ
spend zero = err CborError.item_count
spend (suc b) = ok b

-- A map entry: the key of a child, and the child.
abbrev pub Field : Type 0
Field = Text × Node

abbrev pub is_missing : Presence → Bool
is_missing Presence.missing = true
is_missing _ = false

-- The loop that gathers the present children and refuses nil and repeated ones.
unfoldable pub collect : Nodes → List Text → Result CborError (List Field)
collect Nodes.none seen = ok []
collect (Nodes.more Node.nil ns) seen = err CborError.nil_field
collect (Nodes.more (Node.node h cs) ns) seen =
    let skip = collect ns seen in
    let keep =
      (collect ns (h.key ∷ seen)) >>= λ (rest : List Field). ok ((h.key, Node.node h cs) ∷ rest) in
    if is_missing h.presence
    then skip
    else if mem_text h.key seen
    then err CborError.duplicate_key
    else keep

-- sort.Slice by key. The keys are distinct, so the order is determined.
unfoldable pub insert_field : Field → List Field → List Field
insert_field f [] = f ∷ []
insert_field f (g ∷ gs) = if text_lt g.0 f.0 then g ∷ insert_field f gs else f ∷ g ∷ gs

unfoldable pub sort_fields : List Field → List Field
sort_fields [] = []
sort_fields (f ∷ fs) = insert_field f (sort_fields fs)

-- The output so far, a node and the budget left; the new output and budget.
abbrev pub Encoder : Type 0
Encoder = List ℕ → Node → ℕ → Result CborError (List ℕ × ℕ)

unfoldable pub encode_fields : Encoder → List ℕ → List Field → ℕ → Result CborError (List ℕ × ℕ)
encode_fields rec dst [] budget = ok (dst, budget)
encode_fields rec dst ((k, c) ∷ fs) budget = do
  b ← spend budget
  guard (valid_utf8 k) CborError.invalid_key
  (d, b') ← rec (cbor_head dst 3 (length k) ++ k) c b
  encode_fields rec d fs b'

unfoldable pub encode_items : Encoder → List ℕ → Nodes → ℕ → Result CborError (List ℕ × ℕ)
encode_items rec dst Nodes.none budget = ok (dst, budget)
encode_items rec dst (Nodes.more c ns) budget = do
  (d, b) ← rec dst c budget
  encode_items rec d ns b

abbrev pub count : Nodes → ℕ
count Nodes.none = 0
count (Nodes.more n ns) = suc (count ns)

abbrev pub is_absent : Presence → Bool
is_absent Presence.null = true
is_absent Presence.missing = true
is_absent _ = false

abbrev pub is_null : Head → Bool
is_null h = type_eq h.type UirType.null || is_absent h.presence

-- The body of appendCBOR behind the two bounds; `rec` encodes a child, one level further down.
unfoldable pub encode_node : Encoder → Encoder
encode_node rec dst Node.nil budget = ok (dst ++ (0xf6 ∷ []), budget)
encode_node rec dst (Node.node h ns) budget =
    if is_null h
    then ok (dst ++ (0xf6 ∷ []), budget)
    else if type_eq h.type UirType.map || type_eq h.type UirType.definition
    then (do
      fs ← collect ns []
      encode_fields rec (cbor_head dst 5 (length fs)) (sort_fields fs) budget)
    else if type_eq h.type UirType.array
    then encode_items rec (cbor_head dst 4 (count ns)) ns budget
    else (encode_scalar dst h.value >>= λ (d : List ℕ). ok (d, budget))

unfoldable pub append_cbor : ℕ → Encoder
append_cbor zero dst n budget = spend budget >>= λ (b : ℕ). err CborError.nesting
append_cbor (suc levels) dst n budget =
    spend budget >>= λ (b : ℕ). encode_node (append_cbor levels) dst n b

unfoldable pub generate_cbor : Node → Result CborError (List ℕ)
generate_cbor n = do (out, budget) ← append_cbor (suc cbor_max_depth) [] n cbor_max_items; ok out
