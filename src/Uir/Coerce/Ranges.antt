-- ===== src/Uir/Coerce/Ranges.antt =====
-- internal/uir/project.go: the ranges of the integer types, and values in them.
use omni_schema.Prelude.{ℕ, ◌%◌, ◌^◌, ◌<◌, ◌≡◌, refl, Bool, true, false, ltb, arith}
use omni_schema.Prelude.Int.{ℤ, pos, negsuc, IsInt32, IsInt64, int32_of, int64_of, uint64_of}
use omni_schema.Uir.Types.{UirType}
use omni_schema.Uir.Node.{Any}

-- A value of one of Go's integer types, in the range of the type.
pub data IsIntegral : Any → Type 0 where
  int_value : (v : ℤ) → IsInt64 v → IsIntegral (Any.int v)
  int32_value : (v : ℤ) → IsInt32 v → IsIntegral (Any.int32 v)
  int64_value : (v : ℤ) → IsInt64 v → IsIntegral (Any.int64 v)
  uint32_value : (u : ℕ) → u < 2 ^ 32 → IsIntegral (Any.uint32 u)
  uint64_value : (u : ℕ) → u < 2 ^ 64 → IsIntegral (Any.uint64 u)

-- The number that it is.
abbrev pub number : Any → ℤ
number (Any.int v) = v
number (Any.int32 v) = v
number (Any.int64 v) = v
number (Any.uint32 u) = pos u
number (Any.uint64 u) = pos u
number _ = pos 0

-- -below ≤ z < above
abbrev pub within : ℕ → ℕ → ℤ → Bool
within below above (pos n) = ltb n above
within below above (negsuc n) = ltb n below

-- The ranges of the integer types.
abbrev pub fits : UirType → ℤ → Bool
fits UirType.int32 = within (2 ^ 31) (2 ^ 31)
fits UirType.sint32 = within (2 ^ 31) (2 ^ 31)
fits UirType.sfixed32 = within (2 ^ 31) (2 ^ 31)
fits UirType.int64 = within (2 ^ 63) (2 ^ 63)
fits UirType.sint64 = within (2 ^ 63) (2 ^ 63)
fits UirType.sfixed64 = within (2 ^ 63) (2 ^ 63)
fits UirType.uint32 = within 0 (2 ^ 32)
fits UirType.fixed32 = within 0 (2 ^ 32)
fits UirType.uint64 = within 0 (2 ^ 64)
fits UirType.fixed64 = within 0 (2 ^ 64)
fits _ = λ z. false

-- The low bits of a number as a value of an integer type.
abbrev pub wrapped : UirType → ℤ → Any
wrapped UirType.int32 z = Any.int32 (int32_of (uint64_of z))
wrapped UirType.sint32 z = Any.int32 (int32_of (uint64_of z))
wrapped UirType.sfixed32 z = Any.int32 (int32_of (uint64_of z))
wrapped UirType.int64 z = Any.int64 (int64_of (uint64_of z))
wrapped UirType.sint64 z = Any.int64 (int64_of (uint64_of z))
wrapped UirType.sfixed64 z = Any.int64 (int64_of (uint64_of z))
wrapped UirType.uint32 z = Any.uint32 (uint64_of z % 2 ^ 32)
wrapped UirType.fixed32 z = Any.uint32 (uint64_of z % 2 ^ 32)
wrapped UirType.uint64 z = Any.uint64 (uint64_of z)
wrapped UirType.fixed64 z = Any.uint64 (uint64_of z)
wrapped _ z = Any.nil

-- A value of an integer type that is the number z.
abbrev pub Holds : ℤ → Any → Type 0
Holds z v = IsIntegral v × (number v ≡ z)

int32-Holds :
    (z : ℤ) → within (2 ^ 31) (2 ^ 31) z ≡ true → Holds z (Any.int32 (int32_of (uint64_of z)))
int32-Holds (pos n) h = (IsIntegral.int32_value _ (ground arith), ground arith)
int32-Holds (negsuc n) h = (IsIntegral.int32_value _ (ground arith), ground arith)

int64-Holds :
    (z : ℤ) → within (2 ^ 63) (2 ^ 63) z ≡ true → Holds z (Any.int64 (int64_of (uint64_of z)))
int64-Holds (pos n) h = (IsIntegral.int64_value _ (ground arith), ground arith)
int64-Holds (negsuc n) h = (IsIntegral.int64_value _ (ground arith), ground arith)

uint32-Holds : (z : ℤ) → within 0 (2 ^ 32) z ≡ true → Holds z (Any.uint32 (uint64_of z % 2 ^ 32))
uint32-Holds (pos n) h = (IsIntegral.uint32_value _ (ground arith), ground arith)
uint32-Holds (negsuc n) h = ground arith

uint64-Holds : (z : ℤ) → within 0 (2 ^ 64) z ≡ true → Holds z (Any.uint64 (uint64_of z))
uint64-Holds (pos n) h = (IsIntegral.uint64_value _ (ground arith), refl)
uint64-Holds (negsuc n) h = ground arith

pub wrapped-Holds : (t : UirType) (z : ℤ) → fits t z ≡ true → Holds z (wrapped t z)
wrapped-Holds UirType.int32 z h = int32-Holds z h
wrapped-Holds UirType.sint32 z h = int32-Holds z h
wrapped-Holds UirType.sfixed32 z h = int32-Holds z h
wrapped-Holds UirType.int64 z h = int64-Holds z h
wrapped-Holds UirType.sint64 z h = int64-Holds z h
wrapped-Holds UirType.sfixed64 z h = int64-Holds z h
wrapped-Holds UirType.uint32 z h = uint32-Holds z h
wrapped-Holds UirType.fixed32 z h = uint32-Holds z h
wrapped-Holds UirType.uint64 z h = uint64-Holds z h
wrapped-Holds UirType.fixed64 z h = uint64-Holds z h
wrapped-Holds _ z h = cc
