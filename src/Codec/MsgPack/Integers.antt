-- ===== src/Codec/MsgPack/Integers.antt =====
-- MessagePack integers come back from their bytes.
use omni_schema.Prelude.{ℕ, ◌-◌, ◌^◌, ◌≤◌, ◌<◌, ◌≡◌, refl, ap, ◌∙◌, arith}
use omni_schema.Prelude.{true, false, leb, ◌==◌, le→ltb_false, Bool-cases, inl, inr}
use omni_schema.Prelude.{List, ◌++◌, length, length-append}
use omni_schema.Prelude.{take-append_length, drop-append_length, leb→le}
use omni_schema.Prelude.Int.{ℤ, pos, negsuc, IsInt64, IsInt32}
use omni_schema.Prelude.Bytes.{Text, big_endian, from_big_endian, length-big_endian}
use omni_schema.Prelude.Bytes.{from-big_endian_2, from-big_endian_4, from-big_endian_8}
use omni_schema.Prelude.Result.{ok}
use omni_schema.Uir.Types.{UirType}
use omni_schema.Uir.Node.{Any, Node, new_node}
use omni_schema.Codec.MsgPack.{MsgPackError}
use omni_schema.Codec.MsgPack.Encode.{encode_unsigned, encode_signed, encode_integer}
use omni_schema.Codec.MsgPack.Decode.{
  P, ◌>>=◌, bind-ok, return, take_exact, read_uint, int_of, Builtins, leaf, uint_leaf, int_leaf,
  Reader, parse_tagged, parse_byte, parse_first,
}
use omni_schema.Codec.MsgPack.Decoded.{FitsAny, decoded_unsigned, decoded_integer}

pub take_exact-append :
    (e : MsgPackError) (b rest : List ℕ) → take_exact e (length b) (b ++ rest) ≡ ok (b, rest)
unfolding take_exact
take_exact-append e b rest =
    let enough : length b ≤ length (b ++ rest) = omega (arith, length-append b rest) in
    rw (le→ltb_false _ _ enough) (rw (take-append_length b rest, drop-append_length b rest))

pub from-big_endian_1 : (v : ℕ) → v < 2 ^ 8 → from_big_endian 0 (big_endian 1 v) ≡ v
unfolding big_endian from_big_endian
from-big_endian_1 v h = omega arith

-- A word that its bytes give back.
abbrev pub Spelt : ℕ → ℕ → Type 0
Spelt k v = from_big_endian 0 (big_endian k v) ≡ v

pub read_uint-big_endian :
    (k v : ℕ) (rest : List ℕ) → Spelt k v → read_uint k (big_endian k v ++ rest) ≡ ok (v, rest)
unfolding read_uint
read_uint-big_endian k v rest spelt =
    let taken = take_exact-append MsgPackError.unexpected_eof (big_endian k v) rest in
    let exact = rw (length-big_endian k v) at taken in
    bind-ok (take_exact MsgPackError.unexpected_eof k) (λ b. return (from_big_endian 0 b)) _ exact
    ∙ rw spelt refl

module _ (go : Builtins) (rec : Reader) (key : Text) where
  -- The bytes are parsed to the node, whatever follows them.
  abbrev pub Reads : List ℕ → Node → Type 0
  Reads bytes n = (rest : List ℕ) → parse_first go rec key (bytes ++ rest) ≡ ok (n, rest)

  small_byte :
      (b : ℕ) → b ≤ 127 → parse_byte go rec key b ≡ leaf UirType.int64 key (Any.int64 (pos b))
  unfolding parse_byte
  small_byte b h =
      let t1 : (b == 0xc0) ≡ false = ground arith in
      let t2 : (b == 0xc2) ≡ false = ground arith in
      let t3 : (b == 0xc3) ≡ false = ground arith in
      let t4 : leb b 0x7f ≡ true = ground arith in rw (parse_byte, t1, t2, t3, t4) refl

  pub read_word :
      (f : ℕ → P Node) (k v : ℕ) (rest : List ℕ)
      → Spelt k v
      → (read_uint k >>= f) (big_endian k v ++ rest) ≡ f v rest
  read_word f k v rest spelt = bind-ok (read_uint k) f _ (read_uint-big_endian k v rest spelt)

  uint_word :
      (k u : ℕ) (rest : List ℕ)
      → Spelt k u
      → uint_leaf key k (big_endian k u ++ rest)
        ≡ ok (new_node UirType.uint64 key (Any.uint64 u), rest)
  unfolding uint_leaf
  uint_word k u rest spelt = read_word (λ v. leaf UirType.uint64 key (Any.uint64 v)) k u rest spelt

  int_word :
      (k w u : ℕ) (v : ℤ) (rest : List ℕ)
      → Spelt k u
      → int_of w u ≡ v
      → int_leaf key k w (big_endian k u ++ rest)
        ≡ ok (new_node UirType.int64 key (Any.int64 v), rest)
  unfolding int_leaf
  int_word k w u v rest spelt signed =
      read_word (λ x. leaf UirType.int64 key (Any.int64 (int_of w x))) k u rest spelt
      ∙ rw signed refl

  pub encode_unsigned-Reads :
      (u : ℕ) → u < 2 ^ 64 → Reads (encode_unsigned u) (decoded_unsigned key u)
  unfolding encode_unsigned decoded_unsigned parse_byte parse_tagged
  encode_unsigned-Reads u h rest = elim (Bool-cases (leb u 127)) [
    | inl tiny ↦ rw tiny (ap (λ f. f rest) (small_byte u (leb→le u 127 tiny)))
    | inr big1 ↦ elim (Bool-cases (leb u 0xff)) [
      | inl one ↦ rw (big1, one) (uint_word 1 u rest (from-big_endian_1 u (ground (arith, one))))
      | inr big2 ↦ elim (Bool-cases (leb u 0xffff)) [
        | inl two ↦
            rw (big1, big2, two) (uint_word 2 u rest (from-big_endian_2 u (ground (arith, two))))
        | inr big4 ↦ elim (Bool-cases (leb u 0xffff_ffff)) [
          | inl four ↦
              rw (big1, big2, big4, four)
                (uint_word 4 u rest (from-big_endian_4 u (ground (arith, four))))
          | inr eight ↦ rw (big1, big2, big4, eight) (uint_word 8 u rest (from-big_endian_8 u h))
        ]
      ]
    ]
  ]

  abbrev pub int_node : ℤ → Node
  int_node v = new_node UirType.int64 key (Any.int64 v)

  encode_positive-Reads : (n : ℕ) → n < 2 ^ 63 → Reads (encode_signed (pos n)) (int_node (pos n))
  unfolding encode_signed parse_byte parse_tagged int_of
  encode_positive-Reads n h rest = elim (Bool-cases (leb n 127)) [
    | inl tiny ↦ rw tiny (ap (λ f. f rest) (small_byte n (leb→le n 127 tiny)))
    | inr big1 ↦ elim (Bool-cases (leb n 0x7fff)) [
      | inl two ↦
          rw (big1, two)
            (int_word 2 16 n (pos n) rest (from-big_endian_2 n (ground (arith, two)))
              (ground (arith, two)))
      | inr big2 ↦ elim (Bool-cases (leb n 0x7fff_ffff)) [
        | inl four ↦
            rw (big1, big2, four)
              (int_word 4 32 n (pos n) rest (from-big_endian_4 n (ground (arith, four)))
                (ground (arith, four)))
        | inr eight ↦
            rw (big1, big2, eight)
              (int_word 8 64 n (pos n) rest (from-big_endian_8 n (omega arith)) (ground (arith, h)))
      ]
    ]
  ]

  -- The bytes from 0xe0 are the numbers from -32 to -1.
  negative_byte :
      (n : ℕ)
      → n ≤ 31
      → parse_byte go rec key (255 - n) ≡ leaf UirType.int64 key (Any.int64 (negsuc n))
  unfolding parse_byte int_of
  negative_byte n h =
      let t1 : (255 - n == 0xc0) ≡ false = ground arith in
      let t2 : (255 - n == 0xc2) ≡ false = ground arith in
      let t3 : (255 - n == 0xc3) ≡ false = ground arith in
      let t4 : leb (255 - n) 0x7f ≡ false = ground arith in
      let t5 : leb 0xe0 (255 - n) ≡ true = ground arith in
      let t6 : int_of 8 (255 - n) ≡ negsuc n = ground arith in
      rw (parse_byte, t1, t2, t3, t4, t5, t6) refl

  encode_negative-Reads :
      (n : ℕ) → n < 2 ^ 63 → Reads (encode_signed (negsuc n)) (int_node (negsuc n))
  unfolding encode_signed parse_byte parse_tagged int_of
  encode_negative-Reads n h rest = elim (Bool-cases (leb n 31)) [
    | inl tiny ↦ rw tiny (ap (λ f. f rest) (negative_byte n (leb→le n 31 tiny)))
    | inr big0 ↦ elim (Bool-cases (leb n 127)) [
      | inl one ↦
          rw (big0, one)
            (int_word 1 8 (2 ^ 8 - 1 - n) (negsuc n) rest (from-big_endian_1 _ (omega arith))
              (ground (arith, one)))
      | inr big1 ↦ elim (Bool-cases (leb n 0x7fff)) [
        | inl two ↦
            rw (big0, big1, two)
              (int_word 2 16 (2 ^ 16 - 1 - n) (negsuc n) rest (from-big_endian_2 _ (omega arith))
                (ground (arith, two)))
        | inr big2 ↦ elim (Bool-cases (leb n 0x7fff_ffff)) [
          | inl four ↦
              rw (big0, big1, big2, four)
                (int_word 4 32 (2 ^ 32 - 1 - n) (negsuc n) rest (from-big_endian_4 _ (omega arith))
                  (ground (arith, four)))
          | inr eight ↦
              rw (big0, big1, big2, eight)
                (int_word 8 64 (2 ^ 64 - 1 - n) (negsuc n) rest (from-big_endian_8 _ (omega arith))
                  (ground (arith, h)))
        ]
      ]
    ]
  ]

  encode_signed-Reads : (v : ℤ) → IsInt64 v → Reads (encode_signed v) (int_node v)
  encode_signed-Reads (pos n) h = encode_positive-Reads n h
  encode_signed-Reads (negsuc n) h = encode_negative-Reads n h

  pub encode_integer-Reads :
      (v : Any) → FitsAny v → Reads (encode_integer v) (decoded_integer key v)
  unfolding encode_integer decoded_integer
  encode_integer-Reads (Any.uint64 u) fits = encode_unsigned-Reads u fits
  encode_integer-Reads (Any.uint32 u) fits = encode_unsigned-Reads u (omega (arith, fits))
  encode_integer-Reads (Any.int64 v) fits = encode_signed-Reads v fits
  encode_integer-Reads (Any.int32 v) fits = encode_signed-Reads v (wide v fits)
    where
      wide : (v : ℤ) → IsInt32 v → IsInt64 v
      wide (pos n) h = omega arith
      wide (negsuc n) h = omega arith
  encode_integer-Reads (Any.int v) fits = encode_signed-Reads v fits
  encode_integer-Reads Any.nil fits = encode_signed-Reads (pos 0) (omega arith)
  encode_integer-Reads (Any.bool b) fits = encode_signed-Reads (pos 0) (omega arith)
  encode_integer-Reads (Any.float32 b) fits = encode_signed-Reads (pos 0) (omega arith)
  encode_integer-Reads (Any.float64 b) fits = encode_signed-Reads (pos 0) (omega arith)
  encode_integer-Reads (Any.text b) fits = encode_signed-Reads (pos 0) (omega arith)
  encode_integer-Reads (Any.bytes b) fits = encode_signed-Reads (pos 0) (omega arith)
  encode_integer-Reads Any.other fits = encode_signed-Reads (pos 0) (omega arith)
