-- ===== src/Codec/Cbor/Decode.antt =====
-- internal/codec/cbor.go: ParseCBOR. The parser's `data` and `pos` are the bytes not yet taken; the
-- depth is counted down as in Encode.
use Prim.Native.Nat.{bit_or}
use omni_schema.Prelude.{ℕ, zero, suc, ◌+◌, ◌-◌, ◌*◌, ◌/◌, ◌%◌, ◌^◌, Bool, true, false, ◌&&◌, ◌||◌}
use omni_schema.Prelude.{not, ltb, ◌==◌, if◌then◌else◌, List, [], ◌∷◌, length, take, drop}
use omni_schema.Prelude.Int.{pos, negsuc}
use omni_schema.Prelude.{◌≡◌}
use omni_schema.Prelude.Bytes.{Text, codes, mem_text, valid_utf8, decimal}
use omni_schema.Prelude.Result.{Result, ok, err}
use omni_schema.Uir.Types.{UirType, type_eq}
use omni_schema.Uir.Node.{Any, Node, Nodes, new_head, new_node, set_annotation}
use omni_schema.Codec.Cbor.{CborError, cbor_max_depth, cbor_max_items}
use omni_schema.Codec.Cbor.Half.{half_to_double}

-- The cborParser.
pub record Parser : Type 0 where
  pub rest : List ℕ
  pub items : ℕ

-- A method of the parser.
abbrev pub P : Type 0 → Type 0
P A = Parser → Result CborError (A × Parser)

infixl 5 ◌>>=◌ ◌>>◌
abbrev pub ◌>>=◌ : {A B : Type 0} → P A → (A → P B) → P B
◌>>=◌ m f p = elim (m p) [ ok (a, q) ↦ f a q | err e ↦ err e ]

abbrev pub ◌>>◌ : {B : Type 0} → P (Unit {0}) → P B → P B
m >> k = m >>= λ _. k

-- A step that succeeds hands its value and state on.
pub bind-ok :
    {A B : Type 0} (m : P A) (f : A → P B) (p : Parser) {a : A} {q : Parser}
    → m p ≡ ok (a, q)
    → (m >>= f) p ≡ f a q
bind-ok m f p e = rw (e, ◌>>=◌)

abbrev pub return : {A : Type 0} → A → P A
return a p = ok (a, p)

abbrev pub fail : {A : Type 0} → CborError → P A
fail e p = err e

abbrev pub check : Bool → CborError → P (Unit {0})
check true e p = ok (tt, p)
check false e p = err e

unfoldable pub take_bytes : ℕ → P (List ℕ)
take_bytes count p =
    if ltb (length p.rest) count
    then err CborError.truncated
    else ok (take count p.rest, record p { rest = drop count p.rest })

-- `p.items++` and its bound.
unfoldable pub tick : P (Unit {0})
tick p =
    if ltb cbor_max_items (p.items + 1)
    then err CborError.item_count
    else ok (tt, record p { items = p.items + 1 })

-- `value = value<<8 | uint64(digit)` over the bytes taken.
unfoldable pub shift_in : ℕ → List ℕ → ℕ
shift_in value [] = value
shift_in value (d ∷ ds) = shift_in (bit_or (value * 256 % 2 ^ 64) d) ds

unfoldable pub read_wide : ℕ → P ℕ
read_wide count = do b ← take_bytes count; return (shift_in 0 b)

unfoldable pub read_argument : ℕ → P ℕ
read_argument info =
    if ltb info 24
    then return info
    else if info == 24
    then read_wide 1
    else if info == 25
    then read_wide 2
    else if info == 26
    then read_wide 4
    else if info == 27
    then read_wide 8
    else fail CborError.reserved_length

-- The bounds on the length of an array or a map.
unfoldable pub check_container : Bool → ℕ → P (Unit {0})
check_container is_map value p =
    let budget = cbor_max_items - p.items in
    let remaining = length p.rest in
    if ltb (if is_map then budget / 2 else budget) value
    then err CborError.item_count
    else if ltb remaining value || is_map && ltb (remaining / 2) value
    then err CborError.impossible_length
    else ok (tt, p)

-- Reads one item under a key.
abbrev pub Reader : Type 0
Reader = Text → P Node

unfoldable pub read_items : Reader → ℕ → ℕ → P Nodes
read_items rec zero i = return Nodes.none
read_items rec (suc n) i = do
  c ← rec (decimal i)
  cs ← read_items rec n (i + 1)
  return (Nodes.more c cs)

-- The text of a key: the item has to be a string.
unfoldable pub text_of : Bool → Any → P Text
text_of true (Any.text s) = return s
text_of _ _ = fail CborError.map_key

unfoldable pub key_text : Node → P Text
key_text Node.nil = fail CborError.map_key
key_text (Node.node h ns) = text_of (type_eq h.type UirType.string) h.value

unfoldable pub read_pairs : Reader → ℕ → List Text → P Nodes
read_pairs rec zero seen = return Nodes.none
read_pairs rec (suc n) seen = do
  k ← rec []
  key ← key_text k
  check (not (mem_text key seen)) CborError.duplicate_key
  c ← rec key
  cs ← read_pairs rec n (key ∷ seen)
  return (Nodes.more c cs)

-- The element type of an array is that of its first child.
abbrev pub first_type : Nodes → UirType
first_type (Nodes.more (Node.node h cs) ns) = h.type
first_type _ = UirType.unknown

unfoldable pub array_node : Text → Nodes → Node
array_node key ns =
    Node.node (record (new_head UirType.array key Any.nil) { element_type = first_type ns }) ns

unfoldable pub map_node : Text → Nodes → Node
map_node key ns = Node.node (new_head UirType.map key Any.nil) ns

unfoldable pub read_simple : ℕ → ℕ → Text → P Node
read_simple info value key =
    if info == 20 || info == 21
    then return (new_node UirType.boolean key (Any.bool (info == 21)))
    else if info == 22
    then return (new_node UirType.null key Any.nil)
    else if info == 25
    then return (new_node UirType.float64 key (Any.float64 (half_to_double value)))
    else if info == 26
    then return (new_node UirType.float32 key (Any.float32 (value % 2 ^ 32)))
    else if info == 27
    then return (new_node UirType.float64 key (Any.float64 value))
    else fail CborError.unsupported_item

unfoldable pub read_text : ℕ → Text → P Node
read_text value key = do
  b ← take_bytes value
  check (valid_utf8 b) CborError.invalid_text
  return (new_node UirType.string key (Any.text b))

-- The switch on the major type.
unfoldable pub read_major : Reader → ℕ → ℕ → ℕ → Text → P Node
read_major rec major info value key =
    if major == 0
    then (if ltb value (2 ^ 63)
        then return (new_node UirType.int64 key (Any.int64 (pos value)))
        else return (new_node UirType.uint64 key (Any.uint64 value)))
    else if major == 1
    then (if ltb value (2 ^ 63)
        then return (new_node UirType.int64 key (Any.int64 (negsuc value)))
        else fail CborError.negative_range)
    else if major == 2
    then (take_bytes value >>= λ (b : List ℕ). return (new_node UirType.bytes key (Any.bytes b)))
    else if major == 3
    then read_text value key
    else if major == 4
    then (do check_container false value; ns ← read_items rec value 0; return (array_node key ns))
    else if major == 5
    then (do check_container true value; ns ← read_pairs rec value []; return (map_node key ns))
    else if major == 7
    then read_simple info value key
    else fail CborError.unsupported_item

-- The byte of a slice of length one.
abbrev pub head_byte : List ℕ → ℕ
head_byte [] = 0
head_byte (b ∷ bs) = b

-- The body of read behind the two bounds; `rec` reads an item one level further down.
unfoldable pub read_body : Reader → Reader
read_body rec key = do
  b ← take_bytes 1
  let major = head_byte b / 32
  let info = head_byte b % 32
  value ← read_argument info
  read_major rec major info value key

unfoldable pub read_cbor : ℕ → Reader
read_cbor zero key = do tick; fail CborError.nesting
read_cbor (suc levels) key = do tick; read_body (read_cbor levels) key

unfoldable pub parse_cbor : List ℕ → Result CborError Node
parse_cbor bytes =
    elim (read_cbor (suc cbor_max_depth) (codes "Root") (record { rest = bytes; items = 0 })) [
      | ok (n, p) ↦
          if length p.rest == 0
          then ok (set_annotation n (codes "source_format") (codes "cbor"))
          else err CborError.trailing
      | err e ↦ err e
    ]
