-- ===== src/Network/WebSocket/Frames.antt =====
-- One frame of a peer, as bytes on the wire, and how the loop of ReadMessage takes it off.
use Prim.Native.Nat.{bit_or}
use omni_schema.Prelude.{ℕ, ◌+◌, ◌%◌, ◌/◌, ◌^◌, ◌≤◌, ◌<◌, ◌≡◌, refl, ap, ◌∙◌, arith}
use omni_schema.Prelude.{Bool, true, false, not, if◌then◌else◌, ltb, leb, ◌==◌, le→ltb_false}
use omni_schema.Prelude.{List, [], ◌∷◌, ◌++◌, length}
use omni_schema.Prelude.{
  length-append, take-append_length, drop-append_length, Bool-cases, inl, inr,
}
use omni_schema.Prelude.Bits.{bit_or_low}
use omni_schema.Prelude.Bytes.{big_endian, from_big_endian, length-big_endian}
use omni_schema.Prelude.Bytes.{from-big_endian_2, from-big_endian_8}
use omni_schema.Prelude.Result.{ok}
use omni_schema.Network.WebSocket.{
  Conn, max_message_size, is_known_opcode, is_control_opcode, xor_mask, length_bytes,
}
use omni_schema.Network.WebSocket.Read.{
  R, ◌>>=◌, continue, FrameHead, split_head, read_full, check_control, check_head, read_length,
  read_mask, high_bit, long_length, Assembling, overflows, check_size, return, require,
}

-- The connection with these bytes still to come.
abbrev pub awaiting : Conn → List ℕ → Conn
awaiting c bytes = record c { incoming = bytes }

-- A frame: whether it ends its message, what it is, its payload and the key that masks it.
pub record WireFrame : Type 0 where
  pub final : Bool
  pub op : ℕ
  pub payload : List ℕ
  pub key : List ℕ

-- RFC 6455, section 5.2.
abbrev pub wire : Bool → WireFrame → List ℕ
wire masked f =
    ((if f.final then 128 else 0) + f.op)
    ∷ (length_bytes (if masked then 128 else 0) (length f.payload)
        ++ (if masked then f.key ++ xor_mask f.key 0 f.payload else f.payload))

-- What RFC 6455 and the size limit ask of one frame.
abbrev pub IsLawful : WireFrame → Type 0
IsLawful f =
    (is_known_opcode f.op ≡ true)
    × (f.op < 16)
    × (is_control_opcode f.op ≡ true → (f.final ≡ true) × (length f.payload ≤ 125))
    × (length f.payload ≤ max_message_size)
    × (length f.key ≡ 4)

pub bind-ok :
    {A B : Type 0} (m : R A) (f : A → R B) (c : Conn) {a : A} {d : Conn}
    → m c ≡ (d, ok a)
    → (m >>= f) c ≡ f a d
unfolding ◌>>=◌
bind-ok m f c e = ap (continue f) e

pub read_full-append :
    (b rest : List ℕ) (c : Conn)
    → read_full (length b) (awaiting c (b ++ rest)) ≡ (awaiting c rest, ok b)
unfolding read_full
read_full-append b rest c =
    let enough : length b ≤ length (b ++ rest) = omega (arith, length-append b rest) in
    rw (le→ltb_false _ _ enough) (rw (take-append_length b rest, drop-append_length b rest))

-- The seven bits of the length.
abbrev pub len7 : ℕ → ℕ
len7 n = if ltb n 126 then n else if leb n 65535 then 126 else 127

abbrev pub head_of : Bool → WireFrame → FrameHead
head_of masked f = record {
  fin = f.final;
  rsv = 0;
  opcode = f.op;
  masked = masked;
  payload_len7 = len7 (length f.payload);
}

-- The bytes of the length that follow the first.
abbrev pub ext : ℕ → List ℕ
ext n = if ltb n 126 then [] else if leb n 65535 then big_endian 2 n else big_endian 8 n

abbrev pub bit : Bool → ℕ
bit m = if m then 128 else 0

or_bit : (m : Bool) (n : ℕ) → n < 128 → bit_or (bit m) n ≡ bit m + n
or_bit true n h = ground (arith, bit_or_low 7 1 n h)
or_bit false n h = ground (arith, bit_or_low 7 0 n h)

pub length_bytes-split : (m : Bool) (n : ℕ) → length_bytes (bit m) n ≡ (bit m + len7 n) ∷ ext n
unfolding length_bytes
length_bytes-split m n = ground (arith, or_bit m n, or_bit m 126, or_bit m 127)

pub split_head-wire :
    (m : Bool) (f : WireFrame)
    → f.op < 16
    → split_head ((bit f.final + f.op) ∷ (bit m + len7 (length f.payload)) ∷ []) ≡ head_of m f
unfolding split_head
split_head-wire m f h = ground arith

pub check_head-lawful :
    (h : FrameHead) (c : Conn)
    → h.rsv ≡ 0
    → is_known_opcode h.opcode ≡ true
    → h.masked ≡ not c.client
    → (is_control_opcode h.opcode ≡ true → (h.fin ≡ true) × (h.payload_len7 ≤ 125))
    → check_head h c ≡ (c, ok tt)
unfolding check_head check_control ◌>>=◌ require
check_head-lawful h c rsv known masked control = ground arith

read_full-big_endian :
    (k n : ℕ) (rest : List ℕ) (c : Conn)
    → read_full k (awaiting c (big_endian k n ++ rest)) ≡ (awaiting c rest, ok (big_endian k n))
read_full-big_endian k n rest c =
    let taken = read_full-append (big_endian k n) rest c in rw (length-big_endian k n) at taken

high_bit-big_endian : (n : ℕ) → n ≤ max_message_size → high_bit (big_endian 8 n) ≡ false
unfolding big_endian
high_bit-big_endian n small = let top : n / 256 ^ 7 % 256 ≡ 0 = omega arith in ground (arith, top)

-- The three forms of a length.
pub read_length-ext :
    (n : ℕ) (rest : List ℕ) (c : Conn)
    → n ≤ max_message_size
    → read_length (len7 n) (awaiting c (ext n ++ rest)) ≡ (awaiting c rest, ok n)
unfolding read_length ◌>>=◌ require
read_length-ext n rest c small = elim (Bool-cases (ltb n 126)) [
  | inl short ↦
      let not126 : (n == 126) ≡ false = ground arith in
      let not127 : (n == 127) ≡ false = ground arith in rw (short, not126, not127) refl
  | inr longer ↦ elim (Bool-cases (leb n 65535)) [
    | inl medium ↦
        rw (longer, medium)
          (bind-ok (read_full 2) (λ e. return (from_big_endian 0 e))
              (awaiting c (big_endian 2 n ++ rest)) (read_full-big_endian 2 n rest c)
            ∙ rw (from-big_endian_2 n (ground arith)) refl)
    | inr long ↦
        rw (longer, long)
          (bind-ok (read_full 8) long_length (awaiting c (big_endian 8 n ++ rest))
              (read_full-big_endian 8 n rest c)
            ∙ rw (high_bit-big_endian n small, from-big_endian_8 n (omega arith)) refl)
  ]
]

pub read_mask-wire :
    (m : Bool) (key : List ℕ) (rest : List ℕ) (c : Conn)
    → length key ≡ 4
    → read_mask m (awaiting c ((if m then key else []) ++ rest))
      ≡ (awaiting c rest, ok (if m then key else []))
unfolding read_mask
read_mask-wire true key rest c four = let taken = read_full-append key rest c in rw four at taken
read_mask-wire false key rest c four = refl

pub check_size-lawful :
    (a : Assembling) (op n : ℕ) (c : Conn)
    → (is_control_opcode op ≡ true → n ≤ 125)
    → n ≤ max_message_size
    → overflows a n ≡ false
    → check_size a op n c ≡ (c, ok tt)
unfolding check_size ◌>>=◌ require
check_size-lawful a op n c control small fits = ground (arith, fits)
