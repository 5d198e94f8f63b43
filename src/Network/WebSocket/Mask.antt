-- ===== src/Network/WebSocket/Mask.antt =====
-- Masking with a four byte key is undone by masking again.
use Prim.Native.Nat.{bit_xor, differ, bit_xor-bitwise}
use omni_schema.Prelude.{ℕ, zero, suc, ◌+◌, ◌*◌, ◌/◌, ◌%◌, ◌≤◌, ◌≡◌, refl, ap, ◌∙◌, arith}
use omni_schema.Prelude.{List, [], ◌∷◌, length}
use omni_schema.Prelude.Bits.{least_fuel}
use omni_schema.Network.WebSocket.{xor_mask, key_at}

xor-zero_left : (b : ℕ) → bit_xor 0 b ≡ b
xor-zero_left b = bit_xor-bitwise 0 b

xor_by_halves : (a b : ℕ) → bit_xor a b ≡ bit_xor (a / 2) (b / 2) * 2 + differ (a % 2) (b % 2)
xor_by_halves zero b = ground (arith, xor-zero_left b, xor-zero_left (b / 2))
xor_by_halves (suc a) b =
    let half = least_fuel (λ t. t) differ a (suc a / 2) (b / 2) (omega arith) in
    omega (arith, half, bit_xor-bitwise (suc a) b, bit_xor-bitwise (suc a / 2) (b / 2))

-- On single digits.
differ_digits : (x y : ℕ) → x ≤ 1 → y ≤ 1 → (differ x y ≤ 1) × (differ (differ x y) y ≡ x)
differ_digits zero zero h k = (omega arith, refl)
differ_digits zero (suc zero) h k = (omega arith, refl)
differ_digits (suc zero) zero h k = (omega arith, refl)
differ_digits (suc zero) (suc zero) h k = (omega arith, refl)
differ_digits x (suc (suc y)) h k = absurd (omega arith)
differ_digits (suc (suc x)) y h k = absurd (omega arith)

xor_cancel_below : (n a k : ℕ) → a ≤ n → k ≤ n → bit_xor (bit_xor a k) k ≡ a
xor_cancel_below zero zero zero h l = xor-zero_left (bit_xor 0 0) ∙ xor-zero_left 0
xor_cancel_below zero (suc a) k h l = absurd (omega arith)
xor_cancel_below zero zero (suc k) h l = absurd (omega arith)
xor_cancel_below (suc n) a k h l =
    let half = xor_cancel_below n (a / 2) (k / 2) (omega arith) (omega arith) in
    let digits_of = differ_digits (a % 2) (k % 2) (omega arith) (omega arith) in
    let inner = xor_by_halves a k in
    let high : bit_xor a k / 2 ≡ bit_xor (a / 2) (k / 2) = omega arith in
    let low : bit_xor a k % 2 ≡ differ (a % 2) (k % 2) = omega arith in
    xor_by_halves (bit_xor a k) k ∙ rw (high, low, half, digits_of.1) (omega arith)

pub xor_cancel : (a k : ℕ) → bit_xor (bit_xor a k) k ≡ a
xor_cancel a k = xor_cancel_below (a + k) a k (omega arith) (omega arith)

pub length-xor_mask : (key : List ℕ) (i : ℕ) (bs : List ℕ) → length (xor_mask key i bs) ≡ length bs
unfolding xor_mask
length-xor_mask key i [] = refl
length-xor_mask key i (b ∷ bs) = ap suc (length-xor_mask key (i + 1) bs)

-- Unmasking what was masked with the same key gives the payload back.
pub xor_mask-xor_mask :
    (key : List ℕ) (i : ℕ) (bs : List ℕ) → xor_mask key i (xor_mask key i bs) ≡ bs
unfolding xor_mask
xor_mask-xor_mask key i [] = refl
xor_mask-xor_mask key i (b ∷ bs) =
    rw (xor_cancel b (key_at key (i % 4)), xor_mask-xor_mask key (i + 1) bs) refl
