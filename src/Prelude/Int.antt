-- ===== src/Prelude/Int.antt =====
-- Signed integers over the native numbers, and Go's fixed-width reading of a bit pattern.
use Prim.Native.Nat.{ℕ, ◌-◌, ◌%◌, ◌^◌, ◌<◌}
use mathlib.Core.Path.{◌≡◌}
use native.Mathlib.Omega.{arith}
use omni_schema.Prelude.Tests.{ltb, if◌then◌else◌}

-- `negsuc n` is -(n + 1).
pub data ℤ : Type 0 where
  pos : ℕ → ℤ
  negsuc : ℕ → ℤ

-- int64(u) for a 64-bit pattern u.
abbrev pub int64_of : ℕ → ℤ
int64_of u = if ltb u (2 ^ 63) then pos u else negsuc (2 ^ 64 - 1 - u)

-- The pattern of an int64, which is uint64(v).
abbrev pub uint64_of : ℤ → ℕ
uint64_of (pos n) = n
uint64_of (negsuc n) = 2 ^ 64 - 1 - n

-- int32(u), which keeps the low 32 bits of a pattern.
abbrev pub int32_of : ℕ → ℤ
int32_of u =
    if ltb (u % 2 ^ 32) (2 ^ 31) then pos (u % 2 ^ 32) else negsuc (2 ^ 32 - 1 - u % 2 ^ 32)

-- The range of a signed w-bit integer, by the half of its modulus.
abbrev pub InHalf : ℕ → ℤ → Type 0
InHalf half (pos n) = n < half
InHalf half (negsuc n) = n < half

abbrev pub IsInt64 : ℤ → Type 0
IsInt64 = InHalf (2 ^ 63)

abbrev pub IsInt32 : ℤ → Type 0
IsInt32 = InHalf (2 ^ 31)

pub int64_of-uint64_of : (v : ℤ) → IsInt64 v → int64_of (uint64_of v) ≡ v
int64_of-uint64_of (pos n) h = ground arith
int64_of-uint64_of (negsuc n) h = ground arith

pub uint64_of-int64_of : (u : ℕ) → u < 2 ^ 64 → uint64_of (int64_of u) ≡ u
uint64_of-int64_of u h = ground arith

pub int64_of-IsInt64 : (u : ℕ) → u < 2 ^ 64 → IsInt64 (int64_of u)
int64_of-IsInt64 u h = ground arith

pub uint64_of-lt : (v : ℤ) → IsInt64 v → uint64_of v < 2 ^ 64
uint64_of-lt (pos n) h = omega arith
uint64_of-lt (negsuc n) h = omega arith
