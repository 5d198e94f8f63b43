-- ===== src/Codec/MsgPack/Typed.antt =====
-- A node that MessagePack encodes is parsed back, if its children are.
use omni_schema.Prelude.{ℕ, suc, ◌^◌, ◌≤◌, ◌<◌, ◌≡◌, refl, sym, ap, ◌∙◌, arith}
use omni_schema.Prelude.{Bool, true, false, if◌then◌else◌, List, [], ◌∷◌, ◌++◌, length}
use omni_schema.Prelude.{length-append, append_assoc}
use omni_schema.Prelude.Bytes.{Text}
use omni_schema.Prelude.Result.{ok, err, ok-injective, >>=-ok}
use omni_schema.Uir.Types.{UirType}
use omni_schema.Uir.Node.{Any, Node, Nodes, new_node}
use omni_schema.Codec.MsgPack.Encode.{
  Encoded, as_text, as_bytes, as_float64, as_float32, as_bool, array_head, map_head, encode_typed,
  join,
}
use omni_schema.Codec.MsgPack.Decode.{
  bind-ok, return, Builtins, Reader, read_items, read_fields, array_node, map_node, parse_array,
  parse_map, parse_byte, parse_first, parse_value,
}
use omni_schema.Codec.MsgPack.Decoded.{FitsAny, decoded_typed}
use omni_schema.Codec.MsgPack.Integers.{Reads, encode_integer-Reads}
use omni_schema.Codec.MsgPack.Payloads.{
  encode_string-Reads, encode_binary-Reads, float64-Reads, float32-Reads, array_head-parse,
  map_head-parse,
}

pub join-ok :
    (a b : Encoded) (bs : List ℕ)
    → join a b ≡ ok bs
    → (xs ys : List ℕ) × (a ≡ ok xs) × (b ≡ ok ys) × (xs ++ ys ≡ bs)
join-ok (err e) b bs h = cc
join-ok (ok xs) (err e) bs h = cc
join-ok (ok xs) (ok ys) bs h = (xs, ys, refl, refl, ok-injective h)

head-length : (n : ℕ) → (1 ≤ length (array_head n)) × (1 ≤ length (map_head n))
unfolding array_head map_head
head-length n = ground arith

text_fits : (v : Any) → FitsAny v → length (as_text v) < 2 ^ 32
text_fits (Any.text s) h = h
text_fits _ h = omega arith

bytes_fit : (v : Any) → FitsAny v → length (as_bytes v) < 2 ^ 32
bytes_fit (Any.bytes s) h = h
bytes_fit _ h = omega arith

float64_fits : (v : Any) → FitsAny v → as_float64 v < 2 ^ 64
float64_fits (Any.float64 s) h = h
float64_fits _ h = omega arith

float32_fits : (v : Any) → FitsAny v → as_float32 v < 2 ^ 32
float32_fits (Any.float32 s) h = h
float32_fits _ h = omega arith

module _ (go : Builtins) where
  -- What the loops over the children of a node give, at the fuel below.
  abbrev pub ItemsRead : ℕ → ℕ → Encoded → Nodes → Type 0
  ItemsRead fuel n items ns =
      (bs rest : List ℕ)
      → items ≡ ok bs
      → length bs < fuel
      → read_items (parse_value go fuel) n (bs ++ rest) ≡ ok (ns, rest)

  abbrev pub FieldsRead : ℕ → ℕ → Encoded → Nodes → Type 0
  FieldsRead fuel n fields ns =
      (bs rest : List ℕ)
      → fields ≡ ok bs
      → length bs < fuel
      → read_fields go (parse_value go fuel) n (bs ++ rest) ≡ ok (ns, rest)

  array-Reads :
      (fuel n : ℕ) (items : Encoded) (ns : Nodes) (key : Text) (bs rest : List ℕ)
      → n < 2 ^ 32
      → ItemsRead fuel n items ns
      → encode_typed UirType.array Any.nil n items items ≡ ok bs
      → length bs < suc fuel
      → parse_first go (parse_value go fuel) key (bs ++ rest) ≡ ok (array_node key ns, rest)
  unfolding encode_typed parse_array
  array-Reads fuel n items ns key bs rest small read made enough =
      let (body, got, glued) = >>=-ok items (λ b. ok (array_head n ++ b)) made in
      let eq : array_head n ++ body ≡ bs = ok-injective glued in
      let size = length-append (array_head n) body in
      let less : length body < fuel = omega (arith, size, (head-length n).0, ap length eq) in
      ap (λ b. parse_first go (parse_value go fuel) key (b ++ rest)) (sym eq)
      ∙ ap (λ d. parse_first go (parse_value go fuel) key d) (append_assoc (array_head n) body rest)
      ∙ array_head-parse go (parse_value go fuel) key n (body ++ rest) small
      ∙ bind-ok (read_items (parse_value go fuel) n) (λ cs. return (array_node key cs))
          (body ++ rest) (read body rest got less)

  map-Reads :
      (fuel n : ℕ) (fields : Encoded) (ns : Nodes) (key : Text) (bs rest : List ℕ)
      → n < 2 ^ 32
      → FieldsRead fuel n fields ns
      → encode_typed UirType.map Any.nil n fields fields ≡ ok bs
      → length bs < suc fuel
      → parse_first go (parse_value go fuel) key (bs ++ rest) ≡ ok (map_node key ns, rest)
  unfolding encode_typed parse_map
  map-Reads fuel n fields ns key bs rest small read made enough =
      let (body, got, glued) = >>=-ok fields (λ b. ok (map_head n ++ b)) made in
      let eq : map_head n ++ body ≡ bs = ok-injective glued in
      let size = length-append (map_head n) body in
      let less : length body < fuel = omega (arith, size, (head-length n).1, ap length eq) in
      ap (λ b. parse_first go (parse_value go fuel) key (b ++ rest)) (sym eq)
      ∙ ap (λ d. parse_first go (parse_value go fuel) key d) (append_assoc (map_head n) body rest)
      ∙ map_head-parse go (parse_value go fuel) key n (body ++ rest) small
      ∙ bind-ok (read_fields go (parse_value go fuel) n) (λ cs. return (map_node key cs))
          (body ++ rest) (read body rest got less)

  -- The bytes of an encoding that is known.
  known :
      (rec : Reader) (key : Text) (xs bs rest : List ℕ) (n : Node)
      → ◌≡◌ {A = Encoded} (ok xs) (ok bs)
      → Reads go rec key xs n
      → parse_first go rec key (bs ++ rest) ≡ ok (n, rest)
  known rec key xs bs rest n made reads =
      ap (λ b. parse_first go rec key (b ++ rest)) (sym (ok-injective made)) ∙ reads rest

  boolean-Reads :
      (rec : Reader) (key : Text) (b : Bool)
      → Reads go rec key
          ((if b then 0xc3 else 0xc2) ∷ [])
          (new_node UirType.boolean key (Any.bool b))
  unfolding parse_byte
  boolean-Reads rec key true rest = refl
  boolean-Reads rec key false rest = refl

  null-Reads :
      (rec : Reader) (key : Text) → Reads go rec key (0xc0 ∷ []) (new_node UirType.null key Any.nil)
  unfolding parse_byte
  null-Reads rec key rest = refl

  pub typed-Reads :
      (fuel n : ℕ) (t : UirType) (v : Any) (items fields : Encoded) (is fs : Nodes) (key : Text)
      (bs rest : List ℕ)
      → FitsAny v
      → n < 2 ^ 32
      → ItemsRead fuel n items is
      → FieldsRead fuel n fields fs
      → encode_typed t v n items fields ≡ ok bs
      → length bs < suc fuel
      → parse_first go (parse_value go fuel) key (bs ++ rest)
        ≡ ok (decoded_typed go t v key is fs, rest)
  unfolding encode_typed decoded_typed
  typed-Reads fuel n UirType.null v items fields is fs key bs rest fits small ri rf made enough =
      known _ key _ bs rest _ made (null-Reads _ key)
  typed-Reads fuel n UirType.string v items fields is fs key bs rest fits small ri rf made enough =
      known _ key _ bs rest _ made (encode_string-Reads go _ key (as_text v) (text_fits v fits))
  typed-Reads fuel n UirType.bytes v items fields is fs key bs rest fits small ri rf made enough =
      known _ key _ bs rest _ made (encode_binary-Reads go _ key (as_bytes v) (bytes_fit v fits))
  typed-Reads fuel n UirType.int32 v items fields is fs key bs rest fits small ri rf made enough =
      known _ key _ bs rest _ made (encode_integer-Reads go _ key v fits)
  typed-Reads fuel n UirType.int64 v items fields is fs key bs rest fits small ri rf made enough =
      known _ key _ bs rest _ made (encode_integer-Reads go _ key v fits)
  typed-Reads fuel n UirType.uint32 v items fields is fs key bs rest fits small ri rf made enough =
      known _ key _ bs rest _ made (encode_integer-Reads go _ key v fits)
  typed-Reads fuel n UirType.uint64 v items fields is fs key bs rest fits small ri rf made enough =
      known _ key _ bs rest _ made (encode_integer-Reads go _ key v fits)
  typed-Reads fuel n UirType.sint32 v items fields is fs key bs rest fits small ri rf made enough =
      known _ key _ bs rest _ made (encode_integer-Reads go _ key v fits)
  typed-Reads fuel n UirType.sint64 v items fields is fs key bs rest fits small ri rf made enough =
      known _ key _ bs rest _ made (encode_integer-Reads go _ key v fits)
  typed-Reads fuel n UirType.fixed32 v items fields is fs key bs rest fits small ri rf made enough =
      known _ key _ bs rest _ made (encode_integer-Reads go _ key v fits)
  typed-Reads fuel n UirType.fixed64 v items fields is fs key bs rest fits small ri rf made enough =
      known _ key _ bs rest _ made (encode_integer-Reads go _ key v fits)
  typed-Reads fuel n UirType.sfixed32 v items fields is fs key bs rest fits small ri rf made
        enough =
      known _ key _ bs rest _ made (encode_integer-Reads go _ key v fits)
  typed-Reads fuel n UirType.sfixed64 v items fields is fs key bs rest fits small ri rf made
        enough =
      known _ key _ bs rest _ made (encode_integer-Reads go _ key v fits)
  typed-Reads fuel n UirType.float64 v items fields is fs key bs rest fits small ri rf made enough =
      known _ key _ bs rest _ made (float64-Reads go _ key (as_float64 v) (float64_fits v fits))
  typed-Reads fuel n UirType.float32 v items fields is fs key bs rest fits small ri rf made enough =
      known _ key _ bs rest _ made (float32-Reads go _ key (as_float32 v) (float32_fits v fits))
  typed-Reads fuel n UirType.boolean v items fields is fs key bs rest fits small ri rf made enough =
      known _ key _ bs rest _ made (boolean-Reads _ key (as_bool v))
  typed-Reads fuel n UirType.array v items fields is fs key bs rest fits small ri rf made enough =
      array-Reads fuel n items is key bs rest small ri made enough
  typed-Reads fuel n UirType.map v items fields is fs key bs rest fits small ri rf made enough =
      map-Reads fuel n fields fs key bs rest small rf made enough
  typed-Reads fuel n _ v items fields is fs key bs rest fits small ri rf made enough = cc
