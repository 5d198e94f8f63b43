-- ===== src/Prelude/Bits.antt =====
-- Laws of the bit operations at every width, from the digit recursion that they stand for.
use Prim.Native.Nat.{ℕ, zero, suc, ◌+◌, ◌*◌, ◌/◌, ◌%◌, ◌^◌, ◌≤◌, ◌<◌, max}
use Prim.Native.Nat.{bit_or, digits, bit_or-bitwise}
use mathlib.Core.Path.{◌≡◌, refl, ap, ◌∙◌}
use native.Mathlib.Decide.{dec_le}
use native.Mathlib.Nat.{pow-suc}
use native.Mathlib.Omega.{arith}

-- `digits` on its fuel, for any operation on digits.
module _ (z : ℕ → ℕ) (f : ℕ → ℕ → ℕ) where
  spare_round : (n a b : ℕ) → a ≤ n → digits z f (suc n) a b ≡ digits z f n a b
  spare_round zero zero b h = refl
  spare_round (suc n) zero b h = refl
  spare_round zero (suc a) b h = absurd (omega arith)
  spare_round (suc n) (suc a) b h =
      ap (λ (t : ℕ). t * 2 + f (suc a % 2) (b % 2))
        (spare_round n (suc a / 2) (b / 2) (omega arith))

  -- The number itself is fuel enough.
  pub least_fuel : (n a b : ℕ) → a ≤ n → digits z f n a b ≡ digits z f a a b
  least_fuel zero zero b h = refl
  least_fuel zero (suc a) b h = absurd (omega arith)
  least_fuel (suc n) a b h = elim (dec_le a n) [
    | yes less ↦ spare_round n a b less ∙ least_fuel n a b less
    | no more ↦ let top : suc n ≡ a = omega arith in ap (λ (t : ℕ). digits z f t a b) top
  ]

or-zero_left : (b : ℕ) → bit_or 0 b ≡ b
or-zero_left b = bit_or-bitwise 0 b

-- The lowest digits join, and so do the halves.
or_by_halves : (a b : ℕ) → bit_or a b ≡ bit_or (a / 2) (b / 2) * 2 + max (a % 2) (b % 2)
or_by_halves zero b = omega (arith, or-zero_left b, or-zero_left (b / 2))
or_by_halves (suc a) b =
    let half = least_fuel (λ t. t) max a (suc a / 2) (b / 2) (omega arith) in
    omega (arith, half, bit_or-bitwise (suc a) b, bit_or-bitwise (suc a / 2) (b / 2))

or-zero_right : (n a : ℕ) → a ≤ n → bit_or a 0 ≡ a
or-zero_right n zero h = refl
or-zero_right zero (suc a) h = absurd (omega arith)
or-zero_right (suc n) (suc a) h =
    let half = or-zero_right n (suc a / 2) (omega arith) in
    omega (arith, half, or_by_halves (suc a) 0)

shifted_twice : (q k : ℕ) → q * 2 ^ suc k ≡ 2 * (q * 2 ^ k)
shifted_twice q k = let e = ap (λ (t : ℕ). q * t) (pow-suc 2 k) in omega (arith, e)

-- A field of k low bits joined to a number whose k low bits are clear.
pub bit_or_low : (k q r : ℕ) → r < 2 ^ k → bit_or (q * 2 ^ k) r ≡ q * 2 ^ k + r
bit_or_low zero q r h = ground (arith, or-zero_right q q (omega arith))
bit_or_low (suc k) q r h =
    let half = bit_or_low k q (r / 2) (omega arith) in
    ground (arith, half, shifted_twice q k, or_by_halves (q * 2 ^ suc k) r)
