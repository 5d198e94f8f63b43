-- ===== src/Codec/MsgPack/Payloads.antt =====
-- MessagePack strings, byte strings and floats come back from their bytes, and what the bytes in front
-- of an array or a map lead to.
use Prim.Native.Nat.{bit_or}
use omni_schema.Prelude.{ℕ, ◌+◌, ◌%◌, ◌^◌, ◌≤◌, ◌<◌, ◌≡◌, refl, ap, ◌∙◌, arith}
use omni_schema.Prelude.{true, false, leb, ◌==◌, Bool-cases, inl, inr}
use omni_schema.Prelude.{List, ◌∷◌, ◌++◌, length, append_assoc}
use omni_schema.Prelude.{leb→le}
use omni_schema.Prelude.Bits.{bit_or_low}
use omni_schema.Prelude.Bytes.{Text, big_endian}
use omni_schema.Prelude.Bytes.{from-big_endian_2, from-big_endian_4, from-big_endian_8}
use omni_schema.Prelude.Result.{ok}
use omni_schema.Uir.Types.{UirType}
use omni_schema.Uir.Node.{Any, new_node}
use omni_schema.Codec.MsgPack.{MsgPackError}
use omni_schema.Codec.MsgPack.Encode.{
  str_head, bin_head, array_head, map_head, encode_string, encode_binary,
}
use omni_schema.Codec.MsgPack.Decode.{
  ◌>>=◌, bind-ok, take_exact, read_uint, Builtins, leaf, read_text, read_binary, Reader,
  parse_array, parse_map, parse_tagged, parse_byte, parse_first,
}
use omni_schema.Codec.MsgPack.Integers.{
  take_exact-append, from-big_endian_1, Spelt, read_word, Reads,
}

module _ (go : Builtins) (rec : Reader) (key : Text) where
  fixstr_byte :
      (l : ℕ)
      → l ≤ 31
      → parse_byte go rec key (160 + l)
        ≡ (take_exact MsgPackError.invalid_fixstr l >>= λ s. leaf UirType.string key (Any.text s))
  unfolding parse_byte
  fixstr_byte l h =
      let t1 : (160 + l == 0xc0) ≡ false = ground arith in
      let t2 : (160 + l == 0xc2) ≡ false = ground arith in
      let t3 : (160 + l == 0xc3) ≡ false = ground arith in
      let t4 : leb (160 + l) 0x7f ≡ false = ground arith in
      let t5 : leb 0xe0 (160 + l) ≡ false = ground arith in
      let t6 : leb 0xa0 (160 + l) ≡ true = ground arith in
      let t7 : leb (160 + l) 0xbf ≡ true = ground arith in
      let low : (160 + l) % 32 ≡ l = omega arith in
      rw (parse_byte, t1, t2, t3, t4, t5, t6, t7, low) refl

  text_read :
      (s rest : List ℕ)
      → read_text key (length s) (s ++ rest) ≡ ok (new_node UirType.string key (Any.text s), rest)
  unfolding read_text
  text_read s rest =
      bind-ok (take_exact MsgPackError.unexpected_eof (length s))
        (λ t. leaf UirType.string key (Any.text t)) (s ++ rest)
        (take_exact-append MsgPackError.unexpected_eof s rest)

  binary_read :
      (b rest : List ℕ)
      → read_binary key (length b) (b ++ rest) ≡ ok (new_node UirType.bytes key (Any.bytes b), rest)
  unfolding read_binary
  binary_read b rest =
      bind-ok (take_exact MsgPackError.unexpected_eof (length b))
        (λ t. leaf UirType.bytes key (Any.bytes t)) (b ++ rest)
        (take_exact-append MsgPackError.unexpected_eof b rest)

  fix_text :
      (s rest : List ℕ)
      → length s ≤ 31
      → parse_byte go rec key (bit_or 160 (length s)) (s ++ rest)
        ≡ ok (new_node UirType.string key (Any.text s), rest)
  fix_text s rest h =
      let byte : bit_or 160 (length s) ≡ 160 + length s =
        ground (arith, bit_or_low 5 5 (length s) (omega arith)) in
      ap (λ b. parse_byte go rec key b (s ++ rest)) byte
      ∙ ap (λ f. f (s ++ rest)) (fixstr_byte (length s) h)
      ∙ bind-ok (take_exact MsgPackError.invalid_fixstr (length s))
          (λ t. leaf UirType.string key (Any.text t)) (s ++ rest)
          (take_exact-append MsgPackError.invalid_fixstr s rest)

  long_text :
      (k : ℕ) (s rest : List ℕ)
      → Spelt k (length s)
      → (read_uint k >>= read_text key) (big_endian k (length s) ++ (s ++ rest))
        ≡ ok (new_node UirType.string key (Any.text s), rest)
  long_text k s rest spelt =
      read_word go rec key (read_text key) k (length s) (s ++ rest) spelt ∙ text_read s rest

  pub encode_string-Reads :
      (s : Text)
      → length s < 2 ^ 32
      → Reads go rec key (encode_string s) (new_node UirType.string key (Any.text s))
  unfolding encode_string str_head parse_byte parse_tagged
  encode_string-Reads s h rest =
      ap (λ d. parse_first go rec key d) (append_assoc (str_head (length s)) s rest) ∙ on
    where
      on :
          parse_first go rec key (str_head (length s) ++ (s ++ rest))
          ≡ ok (new_node UirType.string key (Any.text s), rest)
      on = elim (Bool-cases (leb (length s) 31)) [
        | inl tiny ↦ rw tiny (fix_text s rest (leb→le (length s) 31 tiny))
        | inr big1 ↦ elim (Bool-cases (leb (length s) 0xff)) [
          | inl one ↦
              rw (big1, one) (long_text 1 s rest (from-big_endian_1 _ (ground (arith, one))))
          | inr big2 ↦ elim (Bool-cases (leb (length s) 0xffff)) [
            | inl two ↦
                rw (big1, big2, two)
                  (long_text 2 s rest (from-big_endian_2 _ (ground (arith, two))))
            | inr big4 ↦ rw (big1, big2, big4) (long_text 4 s rest (from-big_endian_4 _ h))
          ]
        ]
      ]

  long_binary :
      (k : ℕ) (b rest : List ℕ)
      → Spelt k (length b)
      → (read_uint k >>= read_binary key) (big_endian k (length b) ++ (b ++ rest))
        ≡ ok (new_node UirType.bytes key (Any.bytes b), rest)
  long_binary k b rest spelt =
      read_word go rec key (read_binary key) k (length b) (b ++ rest) spelt ∙ binary_read b rest

  pub encode_binary-Reads :
      (b : List ℕ)
      → length b < 2 ^ 32
      → Reads go rec key (encode_binary b) (new_node UirType.bytes key (Any.bytes b))
  unfolding encode_binary bin_head parse_byte parse_tagged
  encode_binary-Reads b h rest =
      ap (λ d. parse_first go rec key d) (append_assoc (bin_head (length b)) b rest) ∙ on
    where
      on :
          parse_first go rec key (bin_head (length b) ++ (b ++ rest))
          ≡ ok (new_node UirType.bytes key (Any.bytes b), rest)
      on = elim (Bool-cases (leb (length b) 0xff)) [
        | inl one ↦ rw one (long_binary 1 b rest (from-big_endian_1 _ (ground (arith, one))))
        | inr big2 ↦ elim (Bool-cases (leb (length b) 0xffff)) [
          | inl two ↦
              rw (big2, two) (long_binary 2 b rest (from-big_endian_2 _ (ground (arith, two))))
          | inr big4 ↦ rw (big2, big4) (long_binary 4 b rest (from-big_endian_4 _ h))
        ]
      ]

  pub float64-Reads :
      (bits : ℕ)
      → bits < 2 ^ 64
      → Reads go rec key
          (0xcb ∷ big_endian 8 bits)
          (new_node UirType.float64 key (Any.float64 bits))
  unfolding parse_byte parse_tagged
  float64-Reads bits h rest =
      read_word go rec key (λ u. leaf UirType.float64 key (Any.float64 u)) 8 bits rest
        (from-big_endian_8 bits h)

  pub float32-Reads :
      (bits : ℕ)
      → bits < 2 ^ 32
      → Reads go rec key
          (0xca ∷ big_endian 4 bits)
          (new_node UirType.float64 key (Any.float64 (go.widen bits)))
  unfolding parse_byte parse_tagged
  float32-Reads bits h rest =
      read_word go rec key (λ u. leaf UirType.float64 key (Any.float64 (go.widen u))) 4 bits rest
        (from-big_endian_4 bits h)

  -- The head of an array and of a map leads to the loop over that many children.
  fix_array : (n : ℕ) → n ≤ 15 → parse_byte go rec key (bit_or 144 n) ≡ parse_array rec key n
  unfolding parse_byte
  fix_array n h =
      let byte : bit_or 144 n ≡ 144 + n = ground (arith, bit_or_low 4 9 n (omega arith)) in
      let t1 : (144 + n == 0xc0) ≡ false = ground arith in
      let t2 : (144 + n == 0xc2) ≡ false = ground arith in
      let t3 : (144 + n == 0xc3) ≡ false = ground arith in
      let t4 : leb (144 + n) 0x7f ≡ false = ground arith in
      let t5 : leb 0xe0 (144 + n) ≡ false = ground arith in
      let t6 : leb 0xa0 (144 + n) ≡ false = ground arith in
      let t7 : leb 0x90 (144 + n) ≡ true = ground arith in
      let t8 : leb (144 + n) 0x9f ≡ true = ground arith in
      let low : (144 + n) % 16 ≡ n = omega arith in
      rw (parse_byte, byte, t1, t2, t3, t4, t5, t6, t7, t8, low) refl

  fix_map : (n : ℕ) → n ≤ 15 → parse_byte go rec key (bit_or 128 n) ≡ parse_map go rec key n
  unfolding parse_byte
  fix_map n h =
      let byte : bit_or 128 n ≡ 128 + n = ground (arith, bit_or_low 4 8 n (omega arith)) in
      let t1 : (128 + n == 0xc0) ≡ false = ground arith in
      let t2 : (128 + n == 0xc2) ≡ false = ground arith in
      let t3 : (128 + n == 0xc3) ≡ false = ground arith in
      let t4 : leb (128 + n) 0x7f ≡ false = ground arith in
      let t5 : leb 0xe0 (128 + n) ≡ false = ground arith in
      let t6 : leb 0xa0 (128 + n) ≡ false = ground arith in
      let t7 : leb 0x90 (128 + n) ≡ false = ground arith in
      let t8 : leb 0x80 (128 + n) ≡ true = ground arith in
      let t9 : leb (128 + n) 0x8f ≡ true = ground arith in
      let low : (128 + n) % 16 ≡ n = omega arith in
      rw (parse_byte, byte, t1, t2, t3, t4, t5, t6, t7, t8, t9, low) refl

  pub array_head-parse :
      (n : ℕ) (d : List ℕ)
      → n < 2 ^ 32
      → parse_first go rec key (array_head n ++ d) ≡ parse_array rec key n d
  unfolding array_head parse_byte parse_tagged
  array_head-parse n d h = elim (Bool-cases (leb n 15)) [
    | inl tiny ↦ rw tiny (ap (λ f. f d) (fix_array n (leb→le n 15 tiny)))
    | inr big2 ↦ elim (Bool-cases (leb n 0xffff)) [
      | inl two ↦
          rw (big2, two)
            (read_word go rec key (parse_array rec key) 2 n d
              (from-big_endian_2 n (ground (arith, two))))
      | inr big4 ↦
          rw (big2, big4) (read_word go rec key (parse_array rec key) 4 n d (from-big_endian_4 n h))
    ]
  ]

  pub map_head-parse :
      (n : ℕ) (d : List ℕ)
      → n < 2 ^ 32
      → parse_first go rec key (map_head n ++ d) ≡ parse_map go rec key n d
  unfolding map_head parse_byte parse_tagged
  map_head-parse n d h = elim (Bool-cases (leb n 15)) [
    | inl tiny ↦ rw tiny (ap (λ f. f d) (fix_map n (leb→le n 15 tiny)))
    | inr big2 ↦ elim (Bool-cases (leb n 0xffff)) [
      | inl two ↦
          rw (big2, two)
            (read_word go rec key (parse_map go rec key) 2 n d
              (from-big_endian_2 n (ground (arith, two))))
      | inr big4 ↦
          rw (big2, big4)
            (read_word go rec key (parse_map go rec key) 4 n d (from-big_endian_4 n h))
    ]
  ]
