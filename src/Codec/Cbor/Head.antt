-- ===== src/Codec/Cbor/Head.antt =====
-- internal/codec/cbor.go: the initial byte and its argument, written by cborHead and read by read.
use Prim.Native.Nat.{bit_or}
use native.Mathlib.Nat.{pow-suc, pow-le-pow_right}
use omni_schema.Prelude.{ℕ, zero, suc, ◌+◌, ◌*◌, ◌/◌, ◌%◌, ◌^◌, ◌≤◌, ◌<◌, ◌≡◌, refl, ◌∙◌}
use omni_schema.Prelude.{arith, ltb, leb, lt→ltb, le→ltb_false, if◌then◌else◌}
use omni_schema.Prelude.{List, [], ◌∷◌, ◌++◌, length, All}
use omni_schema.Prelude.{take-append_length, drop-append_length, length-append}
use omni_schema.Prelude.Bits.{bit_or_low}
use omni_schema.Prelude.Bytes.{Text, big_endian, from_big_endian}
use omni_schema.Prelude.Result.{ok}
use omni_schema.Codec.Cbor.Encode.{initial_byte, cbor_head}
use omni_schema.Codec.Cbor.Decode.{
  Parser, bind-ok, return, Reader, take_bytes, shift_in, read_wide, read_argument,
}
use omni_schema.Prelude.Bytes.{length-big_endian, from-big_endian_2, from-big_endian_4}
use omni_schema.Prelude.Bytes.{from-big_endian_8}
use omni_schema.Codec.Cbor.Decode.{read_major, read_body}

initial_byte_sum : (m i : ℕ) → m < 8 → i < 32 → initial_byte m i ≡ m * 32 + i
initial_byte_sum m i hm hi = ground (arith, bit_or_low 5 m i hi)

shift_byte : (a d : ℕ) → a < 2 ^ 56 → d < 256 → bit_or (a * 256 % 2 ^ 64) d ≡ a * 256 + d
shift_byte a d ha hd = ground (arith, bit_or_low 8 a d hd)

pow_256 : (m : ℕ) → m ≤ 7 → 256 ^ m ≤ 2 ^ 56
pow_256 m h = pow-le-pow_right {n = 256} (omega arith) h

-- Up to eight bytes, the shifts lose nothing.
shift_in-from_big_endian :
    (m a : ℕ) (ds : List ℕ)
    → m + length ds ≤ 8
    → a < 256 ^ m
    → All (λ d. d < 256) ds
    → shift_in a ds ≡ from_big_endian a ds
unfolding shift_in from_big_endian
shift_in-from_big_endian m a [] h k q = refl
shift_in-from_big_endian m a (d ∷ ds) h k (hd, q) =
    rw (shift_byte a d (omega (arith, pow_256 m (omega arith))) hd) (
      shift_in-from_big_endian (suc m) (a * 256 + d) ds (omega arith) (omega (arith, pow-suc 256 m))
        q)

pub big_endian-bytes : (k v : ℕ) → All (λ d. d < 256) (big_endian k v)
unfolding big_endian
big_endian-bytes zero v = tt
big_endian-bytes (suc k) v = (omega arith, big_endian-bytes k v)

pub take_bytes-append :
    (b rest : List ℕ) (i : ℕ)
    → take_bytes (length b) (record { rest = b ++ rest; items = i })
      ≡ ok (b, record { rest = rest; items = i })
unfolding take_bytes
take_bytes-append b rest i =
    let enough : length b ≤ length (b ++ rest) = omega (arith, length-append b rest) in
    rw (le→ltb_false _ _ enough) (rw (take-append_length b rest, drop-append_length b rest))

read_wide-big_endian :
    (k v : ℕ) (rest : List ℕ) (i : ℕ)
    → k ≤ 8
    → from_big_endian 0 (big_endian k v) ≡ v
    → read_wide k (record { rest = big_endian k v ++ rest; items = i })
      ≡ ok (v, record { rest = rest; items = i })
unfolding read_wide
read_wide-big_endian k v rest i h e =
    let taken = take_bytes-append (big_endian k v) rest i in
    let taken' = rw (length-big_endian k v) at taken in
    let shifted =
      shift_in-from_big_endian 0 0 (big_endian k v) (omega (arith, length-big_endian k v))
        (omega arith) (big_endian-bytes k v) in
    bind-ok (take_bytes k) (λ b. return (shift_in 0 b)) _ taken' ∙ rw (shifted, e)

read_byte :
    (v : ℕ) (rest : List ℕ) (i : ℕ)
    → v < 256
    → read_wide 1 (record { rest = v ∷ rest; items = i })
      ≡ ok (v, record { rest = rest; items = i })
unfolding read_wide shift_in
read_byte v rest i h =
    bind-ok (take_bytes 1) (λ b. return (shift_in 0 b)) _ (take_bytes-append (v ∷ []) rest i)
    ∙ rw (shift_byte 0 v (omega arith) h, zero_times)
  where
    zero_times : 0 * 256 + v ≡ v
    zero_times = omega arith

-- The additional information that cborHead chooses for an argument.
unfoldable pub info_of : ℕ → ℕ
info_of v =
    if ltb v 24
    then v
    else if leb v 0xff
    then 24
    else if leb v 0xffff
    then 25
    else if leb v 0xffff_ffff
    then 26
    else 27

-- What cborHead appends: an initial byte and an argument.
unfoldable pub argument_of : ℕ → List ℕ
argument_of v =
    if ltb v 24
    then []
    else if leb v 0xff
    then v ∷ []
    else if leb v 0xffff
    then big_endian 2 v
    else if leb v 0xffff_ffff
    then big_endian 4 v
    else big_endian 8 v

pub cbor_head-append :
    (dst : List ℕ) (m v : ℕ)
    → m < 8
    → cbor_head dst m v ≡ dst ++ ((m * 32 + info_of v) ∷ argument_of v)
unfolding cbor_head info_of argument_of
cbor_head-append dst m v h = ground (
  arith,
  initial_byte_sum m v h,
  initial_byte_sum m 24 h (omega arith),
  initial_byte_sum m 25 h (omega arith),
  initial_byte_sum m 26 h (omega arith),
  initial_byte_sum m 27 h (omega arith),
)

pub read_argument-argument_of :
    (v : ℕ) (rest : List ℕ) (i : ℕ)
    → v < 2 ^ 64
    → read_argument (info_of v) (record { rest = argument_of v ++ rest; items = i })
      ≡ ok (v, record { rest = rest; items = i })
unfolding read_argument info_of argument_of
read_argument-argument_of v rest i h = ground (
  arith,
  read_byte v rest i,
  read_wide-big_endian 2 v rest i (omega arith),
  from-big_endian_2 v,
  read_wide-big_endian 4 v rest i (omega arith),
  from-big_endian_4 v,
  read_wide-big_endian 8 v rest i (omega arith),
  from-big_endian_8 v h,
)

info_of-lt : (v : ℕ) → info_of v < 32
unfolding info_of
info_of-lt v = ground arith

read_info_small : (info : ℕ) (p : Parser) → info < 24 → read_argument info p ≡ ok (info, p)
unfolding read_argument
read_info_small info p h = rw (lt→ltb info 24 h)

-- read on an initial byte: the argument is read, then the major type decides.
read_body-byte :
    (rec : Reader) (key : Text) (b v : ℕ) (arg rest : List ℕ) (i : ℕ)
    → read_argument (b % 32) (record { rest = arg ++ rest; items = i })
      ≡ ok (v, record { rest = rest; items = i })
    → read_body rec key (record { rest = b ∷ (arg ++ rest); items = i })
      ≡ read_major rec (b / 32) (b % 32) v key (record { rest = rest; items = i })
unfolding read_body
read_body-byte rec key b v arg rest i h =
    bind-ok (take_bytes 1) _ _ (take_bytes-append (b ∷ []) (arg ++ rest) i)
    ∙ bind-ok (read_argument (b % 32)) (λ w. read_major rec (b / 32) (b % 32) w key) _ h

-- read on what cborHead wrote.
pub read_body-cbor_head :
    (rec : Reader) (key : Text) (m v : ℕ) (rest : List ℕ) (i : ℕ)
    → m < 8
    → v < 2 ^ 64
    → read_body rec key
        (record { rest = (m * 32 + info_of v) ∷ (argument_of v ++ rest); items = i })
      ≡ read_major rec m (info_of v) v key (record { rest = rest; items = i })
read_body-cbor_head rec key m v rest i hm hv =
    let small = info_of-lt v in
    let major : (m * 32 + info_of v) / 32 ≡ m = omega arith in
    let info : (m * 32 + info_of v) % 32 ≡ info_of v = omega arith in
    read_body-byte rec key (m * 32 + info_of v) v (argument_of v) rest i
      (rw info (read_argument-argument_of v rest i hv))
    ∙ rw (major, info)

-- read on a simple value of one byte.
pub read_body-simple :
    (rec : Reader) (key : Text) (info : ℕ) (rest : List ℕ) (i : ℕ)
    → info < 24
    → read_body rec key (record { rest = (224 + info) ∷ rest; items = i })
      ≡ read_major rec 7 info info key (record { rest = rest; items = i })
read_body-simple rec key info rest i h =
    let major : (224 + info) / 32 ≡ 7 = omega arith in
    let low : (224 + info) % 32 ≡ info = omega arith in
    read_body-byte rec key (224 + info) info [] rest i
      (rw low (read_info_small info (record { rest = rest; items = i }) h))
    ∙ rw (major, low)

-- read on a float of 4 or 8 bytes.
pub read_body-float32 :
    (rec : Reader) (key : Text) (bits : ℕ) (rest : List ℕ) (i : ℕ)
    → bits < 2 ^ 32
    → read_body rec key (record { rest = 0xfa ∷ (big_endian 4 bits ++ rest); items = i })
      ≡ read_major rec 7 26 bits key (record { rest = rest; items = i })
unfolding read_argument
read_body-float32 rec key bits rest i h =
    read_body-byte rec key 0xfa bits (big_endian 4 bits) rest i
      (read_wide-big_endian 4 bits rest i (omega arith) (from-big_endian_4 bits h))

pub read_body-float64 :
    (rec : Reader) (key : Text) (bits : ℕ) (rest : List ℕ) (i : ℕ)
    → bits < 2 ^ 64
    → read_body rec key (record { rest = 0xfb ∷ (big_endian 8 bits ++ rest); items = i })
      ≡ read_major rec 7 27 bits key (record { rest = rest; items = i })
unfolding read_argument
read_body-float64 rec key bits rest i h =
    read_body-byte rec key 0xfb bits (big_endian 8 bits) rest i
      (read_wide-big_endian 8 bits rest i (omega arith) (from-big_endian_8 bits h))
