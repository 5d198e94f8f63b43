-- ===== src/Codec/Cbor/Half.antt =====
-- internal/codec/cbor.go: the half-precision case of read, on bit patterns.
use omni_schema.Prelude.{ℕ, zero, suc, ◌+◌, ◌-◌, ◌*◌, ◌/◌, ◌%◌, ◌^◌, ◌==◌, ltb}
use omni_schema.Prelude.{if◌then◌else◌}

-- The position of the highest set bit of a number below 2 ^ (f + 1), 0 for 0.
top_bit : ℕ → ℕ → ℕ
top_bit zero n = 0
top_bit (suc f) n = let more = suc (top_bit f (n / 2)) in if ltb n 2 then 0 else more

-- The bits of the float64 m * 2^(e - 1074), for 0 < m < 2^11 where that is a normal number:
-- math.Ldexp of a short mantissa is exact.
ldexp_bits : ℕ → ℕ → ℕ
unfolding top_bit
ldexp_bits m e = let k = top_bit 11 m in (k + e - 51) * 2 ^ 52 + (m - 2 ^ k) * 2 ^ (52 - k)

-- The sign bit is that of the value; NaN is math.NaN() whatever the sign.
-- A subnormal is frac * 2^-24 and a normal (1024 + frac) * 2^(exp - 25).
unfoldable pub half_to_double : ℕ → ℕ
unfolding ldexp_bits
half_to_double value =
    let sign = value / 2 ^ 15 % 2 * 2 ^ 63 in
    let exp = value / 1024 % 32 in
    let frac = value % 1024 in
    if exp == 31
    then (if frac == 0 then sign + 0x7ff * 2 ^ 52 else 0x7ff8_0000_0000_0001)
    else if exp == 0
    then (if frac == 0 then sign else sign + ldexp_bits frac 1050)
    else sign + ldexp_bits (1024 + frac) (exp + 1049)
