-- ===== src/Codec/MsgPack/Decode.antt =====
-- internal/codec/msgpack.go: ParseMessagePack. The rest of the data is the state of a step.
use omni_schema.Prelude.{ℕ, zero, suc, ◌-◌, ◌%◌, ◌^◌, Bool, true, false, ◌&&◌, ltb, leb, ◌==◌}
use omni_schema.Prelude.{if◌then◌else◌, List, [], ◌∷◌, length, take, drop, ◌≡◌, ap}
use omni_schema.Prelude.Int.{ℤ, pos, negsuc}
use omni_schema.Prelude.Bytes.{Text, from_big_endian}
use omni_schema.Prelude.Result.{Result, ok, err}
use omni_schema.Uir.Types.{UirType, type_eq}
use omni_schema.Uir.Node.{Any, Node, Nodes, new_head, new_node}
use omni_schema.Codec.MsgPack.{MsgPackError}

abbrev pub P : Type 0 → Type 0
P A = List ℕ → Result MsgPackError (A × List ℕ)

abbrev pub continue :
    {A B : Type 0} → (A → P B) → Result MsgPackError (A × List ℕ) → Result MsgPackError (B × List ℕ)
continue f (ok (a, rest)) = f a rest
continue f (err e) = err e

infixl 5 ◌>>=◌
unfoldable pub ◌>>=◌ : {A B : Type 0} → P A → (A → P B) → P B
◌>>=◌ m f data_left = continue f (m data_left)

pub bind-ok :
    {A B : Type 0} (m : P A) (f : A → P B) (d : List ℕ) {a : A} {rest : List ℕ}
    → m d ≡ ok (a, rest)
    → (m >>= f) d ≡ f a rest
unfolding ◌>>=◌
bind-ok m f d e = ap (continue f) e

abbrev pub return : {A : Type 0} → A → P A
return a d = ok (a, d)

-- `if len(data) < n`, then data[:n] and data[n:].
unfoldable pub take_exact : MsgPackError → ℕ → P (List ℕ)
take_exact e n d = if ltb (length d) n then err e else ok (take n d, drop n d)

unfoldable pub read_uint : ℕ → P ℕ
read_uint k = take_exact MsgPackError.unexpected_eof k >>= λ b. return (from_big_endian 0 b)

-- The conversion of a w-bit word to a signed integer.
unfoldable pub int_of : ℕ → ℕ → ℤ
int_of w u = if ltb u (2 ^ (w - 1)) then pos u else negsuc (2 ^ w - 1 - u)

-- The functions of the language that the parser calls: float64(v) of a float32, on the bits, and the
-- text that fmt prints for a value.
pub record Builtins : Type 0 where
  pub widen : ℕ → ℕ
  pub sprint : Any → Text

abbrev pub leaf : UirType → Text → Any → P Node
leaf t key v = return (new_node t key v)

unfoldable pub read_text : Text → ℕ → P Node
read_text key l =
    take_exact MsgPackError.unexpected_eof l >>= λ s. leaf UirType.string key (Any.text s)

unfoldable pub read_binary : Text → ℕ → P Node
read_binary key l =
    take_exact MsgPackError.unexpected_eof l >>= λ b. leaf UirType.bytes key (Any.bytes b)

unfoldable pub uint_leaf : Text → ℕ → P Node
uint_leaf key k = read_uint k >>= λ u. leaf UirType.uint64 key (Any.uint64 u)

unfoldable pub int_leaf : Text → ℕ → ℕ → P Node
int_leaf key k w = read_uint k >>= λ u. leaf UirType.int64 key (Any.int64 (int_of w u))

-- Parses a value under a key.
abbrev pub Reader : Type 0
Reader = Text → P Node

unfoldable pub read_items : Reader → ℕ → P Nodes
read_items rec zero = return Nodes.none
read_items rec (suc n) = rec [] >>= λ c. read_items rec n >>= λ cs. return (Nodes.more c cs)

abbrev pub array_node : Text → Nodes → Node
array_node key ns = Node.node (new_head UirType.array key Any.nil) ns

abbrev pub map_node : Text → Nodes → Node
map_node key ns = Node.node (new_head UirType.map key Any.nil) ns

unfoldable pub parse_array : Reader → Text → ℕ → P Node
parse_array rec key n = read_items rec n >>= λ ns. return (array_node key ns)

module _ (go : Builtins) where
  abbrev pub string_or : Bool → Any → Text
  string_or true (Any.text s) = s
  string_or _ v = go.sprint v

  -- The text of a key; the parser never returns the nil pointer.
  abbrev pub key_text : Node → Text
  key_text Node.nil = []
  key_text (Node.node h ns) = string_or (type_eq h.type UirType.string) h.value

  unfoldable pub read_fields : Reader → ℕ → P Nodes
  read_fields rec zero = return Nodes.none
  read_fields rec (suc n) =
      rec [] >>= λ k. rec (key_text k) >>= λ c. read_fields rec n >>= λ cs. return (Nodes.more c cs)

  unfoldable pub parse_map : Reader → Text → ℕ → P Node
  parse_map rec key n = read_fields rec n >>= λ ns. return (map_node key ns)

  -- The switch on the bytes from 0xc4.
  unfoldable pub parse_tagged : Reader → Text → ℕ → P Node
  parse_tagged rec key b =
      if b == 0xcc
      then uint_leaf key 1
      else if b == 0xcd
      then uint_leaf key 2
      else if b == 0xce
      then uint_leaf key 4
      else if b == 0xcf
      then uint_leaf key 8
      else if b == 0xd0
      then int_leaf key 1 8
      else if b == 0xd1
      then int_leaf key 2 16
      else if b == 0xd2
      then int_leaf key 4 32
      else if b == 0xd3
      then int_leaf key 8 64
      else if b == 0xca
      then (read_uint 4 >>= λ u. leaf UirType.float64 key (Any.float64 (go.widen u)))
      else if b == 0xcb
      then (read_uint 8 >>= λ u. leaf UirType.float64 key (Any.float64 u))
      else if b == 0xc4
      then (read_uint 1 >>= read_binary key)
      else if b == 0xc5
      then (read_uint 2 >>= read_binary key)
      else if b == 0xc6
      then (read_uint 4 >>= read_binary key)
      else if b == 0xd9
      then (read_uint 1 >>= read_text key)
      else if b == 0xda
      then (read_uint 2 >>= read_text key)
      else if b == 0xdb
      then (read_uint 4 >>= read_text key)
      else if b == 0xdc
      then (read_uint 2 >>= parse_array rec key)
      else if b == 0xdd
      then (read_uint 4 >>= parse_array rec key)
      else if b == 0xde
      then (read_uint 2 >>= parse_map rec key)
      else if b == 0xdf
      then (read_uint 4 >>= parse_map rec key)
      else λ d. err MsgPackError.unsupported_byte

  unfoldable pub parse_byte : Reader → Text → ℕ → P Node
  parse_byte rec key b =
      if b == 0xc0
      then leaf UirType.null key Any.nil
      else if b == 0xc2
      then leaf UirType.boolean key (Any.bool false)
      else if b == 0xc3
      then leaf UirType.boolean key (Any.bool true)
      else if leb b 0x7f
      then leaf UirType.int64 key (Any.int64 (pos b))
      else if leb 0xe0 b
      then leaf UirType.int64 key (Any.int64 (int_of 8 b))
      else if leb 0xa0 b && leb b 0xbf
      then (take_exact MsgPackError.invalid_fixstr (b % 32) >>= λ s.
          leaf UirType.string key (Any.text s))
      else if leb 0x90 b && leb b 0x9f
      then parse_array rec key (b % 16)
      else if leb 0x80 b && leb b 0x8f
      then parse_map rec key (b % 16)
      else parse_tagged rec key b

  abbrev pub parse_first : Reader → Text → P Node
  parse_first rec key [] = err MsgPackError.unexpected_end
  parse_first rec key (b ∷ d) = parse_byte rec key b d

  -- Every value takes a byte, so the length of the data is fuel enough.
  unfoldable pub parse_value : ℕ → Reader
  parse_value zero key = λ d. err MsgPackError.out_of_fuel
  parse_value (suc fuel) key = parse_first (parse_value fuel) key

  abbrev pub only_value : Result MsgPackError (Node × List ℕ) → Result MsgPackError Node
  only_value (ok (n, [])) = ok n
  only_value (ok (n, b ∷ bs)) = err MsgPackError.trailing_bytes
  only_value (err e) = err e

  unfoldable pub parse_message_pack : List ℕ → Result MsgPackError Node
  parse_message_pack d = only_value (parse_value (suc (length d)) [] d)
