-- ===== src/Codec/Protobuf/Varint.antt =====
-- internal/codec/protobuf.go: varints, zigzag numbers and little-endian words read back.
use omni_schema.Prelude.{ℕ, zero, suc, ◌+◌, ◌*◌, ◌/◌, ◌%◌, ◌^◌, ◌≤◌, ◌<◌, ◌≡◌, refl, ap, ◌∙◌, arith}
use omni_schema.Prelude.{List, ◌∷◌, ◌++◌, length, leb}
use omni_schema.Prelude.{Bool-cases, inl, inr}
use omni_schema.Prelude.Int.{ℤ, pos, negsuc}
use omni_schema.Prelude.Result.{ok}
use omni_schema.Codec.Protobuf.{
  varint_groups, encode_varint, decode_varint_from, decode_varint, zigzag, unzigzag, little_endian,
  from_little_endian,
}
use native.Mathlib.Nat.{div-add-mod}
use native.Mathlib.Numerals.{towards_suc}

shift_seven : (i : ℕ) → 2 ^ (7 * suc i) ≡ 128 * 2 ^ (7 * i)
shift_seven i = let e : 7 * suc i ≡ 7 * i + 7 = omega arith in rw e (simp towards_suc (omega arith))

-- The lowest group of w and the rest, both shifted by i groups.
split_group : (w i : ℕ) → w * 2 ^ (7 * i) ≡ w % 128 * 2 ^ (7 * i) + w / 128 * 2 ^ (7 * suc i)
split_group w i = omega (
  arith,
  ap (λ (t : ℕ). t * 2 ^ (7 * i)) (div-add-mod w 128),
  ap (λ (t : ℕ). w / 128 * t) (shift_seven i),
)

last_byte :
    (w acc i : ℕ) (rest : List ℕ)
    → w < 128
    → i ≤ 9
    → (i ≡ 9 → w ≤ 1)
    → acc + w * 2 ^ (7 * i) < 2 ^ 64
    → decode_varint_from i acc (w ∷ rest) ≡ ok (acc + w * 2 ^ (7 * i), suc i)
unfolding decode_varint_from
last_byte w acc i rest hw hi top fits = ground arith

inner_byte :
    (g acc i : ℕ) (rest : List ℕ)
    → g < 128
    → acc + g * 2 ^ (7 * i) < 2 ^ 64
    → decode_varint_from i acc ((g + 0x80) ∷ rest)
      ≡ decode_varint_from (suc i) (acc + g * 2 ^ (7 * i)) rest
unfolding decode_varint_from
inner_byte g acc i rest hg fits = ground arith

-- w is what is still to be read, from byte i on.
decode_varint_from-groups :
    (k w acc i : ℕ) (rest : List ℕ)
    → i + k ≡ 9
    → acc + w * 2 ^ (7 * i) < 2 ^ 64
    → decode_varint_from i acc (varint_groups k w ++ rest)
      ≡ ok (acc + w * 2 ^ (7 * i), i + length (varint_groups k w))
unfolding varint_groups
decode_varint_from-groups zero w acc i rest hi fits =
    let nine : i ≡ 9 = omega arith in
    let top : w ≤ 1 = let f = rw nine at fits in omega arith in
    let one : suc i ≡ i + 1 = omega arith in
    last_byte w acc i rest (omega arith) (omega arith) (λ _. top) fits
    ∙ ap (λ (n : ℕ). ok (acc + w * 2 ^ (7 * i), n)) one
decode_varint_from-groups (suc k) w acc i rest hi fits = elim (Bool-cases (leb (2 ^ 7) w)) [
  | inl more ↦
      let e = split_group w i in
      let ih =
        decode_varint_from-groups k (w / 128) (acc + w % 128 * 2 ^ (7 * i)) (suc i) rest
          (omega arith) (omega arith) in
      let sum : acc + w % 128 * 2 ^ (7 * i) + w / 128 * 2 ^ (7 * suc i) ≡ acc + w * 2 ^ (7 * i) =
        omega arith in
      let size : suc i + length (varint_groups k (w / 128))
          ≡ i + suc (length (varint_groups k (w / 128))) =
        omega arith in
      rw more
        (inner_byte (w % 128) acc i _ (omega arith) (omega arith) ∙ ih ∙ (λ j. ok (sum j, size j)))
  | inr last ↦
      let one : suc i ≡ i + 1 = omega arith in
      rw last (
        last_byte w acc i rest (ground arith) (omega arith) (λ e. absurd (omega arith)) fits
        ∙ ap (λ (n : ℕ). ok (acc + w * 2 ^ (7 * i), n)) one)
]

-- decodeVarint reads back the uint64 that encodeVarint wrote, and says how many bytes it took,
-- whatever follows them.
pub decode_varint-encode_varint :
    (v : ℕ) (rest : List ℕ)
    → v < 2 ^ 64
    → decode_varint (encode_varint v ++ rest) ≡ ok (v, length (encode_varint v))
unfolding decode_varint encode_varint
decode_varint-encode_varint v rest h =
    let all : 0 + v * 2 ^ (7 * 0) ≡ v = omega arith in
    decode_varint_from-groups 9 v 0 0 rest refl (omega arith)
    ∙ (λ j. ok (all j, size (varint_groups 9 v) j))
  where
    size : (bs : List ℕ) → 0 + length bs ≡ length bs
    size bs = omega arith

pub unzigzag-zigzag : (v : ℤ) → unzigzag (zigzag v) ≡ v
unfolding zigzag unzigzag
unzigzag-zigzag (pos n) = ground arith
unzigzag-zigzag (negsuc n) = ground arith

pub from-little_endian_4 : (v : ℕ) → v < 2 ^ 32 → from_little_endian (little_endian 4 v) ≡ v
unfolding from_little_endian little_endian
from-little_endian_4 v h = omega arith

pub from-little_endian_8 : (v : ℕ) → v < 2 ^ 64 → from_little_endian (little_endian 8 v) ≡ v
unfolding from_little_endian little_endian
from-little_endian_8 v h = omega arith

pub length-little_endian : (k v : ℕ) → length (little_endian k v) ≡ k
unfolding little_endian
length-little_endian zero v = refl
length-little_endian (suc k) v = ap suc (length-little_endian k (v / 256))
