-- ===== src/Prelude/Float.antt =====
-- Go's float64 and float32 as bit patterns: what a pattern stands for, and the conversions between
-- floats, signed numbers and each other, rounded to nearest with ties to even.
use omni_schema.Prelude.{ℕ, zero, suc, ◌+◌, ◌-◌, ◌*◌, ◌/◌, ◌%◌, ◌^◌}
use omni_schema.Prelude.{Bool, true, not, ◌&&◌, ◌||◌, ◌==◌, ltb, leb, if◌then◌else◌}
use omni_schema.Prelude.Int.{ℤ, pos, negsuc}

abbrev pub is_negative : ℕ → Bool
is_negative f = leb (2 ^ 63) f

abbrev exponent : ℕ → ℕ
exponent f = f / 2 ^ 52 % 2 ^ 11

abbrev fraction : ℕ → ℕ
fraction f = f % 2 ^ 52

unfoldable pub is_nan : ℕ → Bool
is_nan f = exponent f == 2047 && not (fraction f == 0)

unfoldable pub is_inf : ℕ → Bool
is_inf f = exponent f == 2047 && fraction f == 0

-- A finite float is significand * 2 ^ (scale - 1075), with its sign.
unfoldable pub significand : ℕ → ℕ
significand f = if exponent f == 0 then fraction f else 2 ^ 52 + fraction f

unfoldable pub scale : ℕ → ℕ
scale f = if exponent f == 0 then 1 else exponent f

-- The magnitude of math.Trunc(f).
unfoldable pub whole : ℕ → ℕ
unfolding significand scale
whole f =
    if leb 1075 (scale f)
    then significand f * 2 ^ (scale f - 1075)
    else significand f / 2 ^ (1075 - scale f)

-- f == math.Trunc(f), which no NaN is.
unfoldable pub is_integral : ℕ → Bool
is_integral f =
    not (is_nan f)
    && (if leb 1075 (scale f) then true else significand f % 2 ^ (1075 - scale f) == 0)

-- |f| > n, for a natural number n.
unfoldable pub exceeds : ℕ → ℕ → Bool
exceeds f n = not (is_nan f) && (ltb n (whole f) || whole f == n && not (is_integral f))

-- f < 0
unfoldable pub is_below_zero : ℕ → Bool
unfolding is_nan
is_below_zero f = not (is_nan f) && is_negative f && not (f == 2 ^ 63)

-- f == g: NaN is equal to nothing, and the zeros are equal.
unfoldable pub float_eq : ℕ → ℕ → Bool
unfolding is_nan
float_eq f g = not (is_nan f) && not (is_nan g) && (f == g || f % 2 ^ 63 == 0 && g % 2 ^ 63 == 0)

-- n / 2 ^ k, to the nearest, ties to even.
unfoldable pub round_even : ℕ → ℕ → ℕ
round_even n k =
    let q = n / 2 ^ k in
    let r = n % 2 ^ k in if ltb (2 ^ k) (2 * r) || 2 * r == 2 ^ k && q % 2 == 1 then suc q else q

-- The number of binary digits, for a number below 2 ^ fuel.
unfoldable pub bit_length : ℕ → ℕ → ℕ
bit_length zero n = 0
bit_length (suc fuel) n = let more = suc (bit_length fuel (n / 2)) in if n == 0 then 0 else more

-- A number of l binary digits as a float64 significand.
unfoldable pub aligned : ℕ → ℕ → ℕ
unfolding round_even
aligned n l = if leb l 53 then n * 2 ^ (53 - l) else round_even n (l - 53)

-- float64(n) for a uint64. A significand that rounds up to 2 ^ 53 carries into the exponent.
unfoldable pub float64_of : ℕ → ℕ
unfolding bit_length aligned
float64_of n =
    let l = bit_length 64 n in if n == 0 then 0 else (1022 + l) * 2 ^ 52 + (aligned n l - 2 ^ 52)

-- float64(v) for an int64.
unfoldable pub float64_of_int : ℤ → ℕ
unfolding float64_of
float64_of_int (pos n) = float64_of n
float64_of_int (negsuc n) = 2 ^ 63 + float64_of (suc n)

-- float64(f) for a float32, where a NaN becomes quiet.
unfoldable pub widen : ℕ → ℕ
unfolding bit_length
widen f =
    let sign = f / 2 ^ 31 * 2 ^ 63 in
    let exp = f / 2 ^ 23 % 2 ^ 8 in
    let frac = f % 2 ^ 23 in
    let l = bit_length 23 frac in
    if exp == 255
    then (if frac == 0
        then sign + 2047 * 2 ^ 52
        else sign + 2047 * 2 ^ 52 + 2 ^ 51 + frac % 2 ^ 22 * 2 ^ 29)
    else if exp == 0
    then (if frac == 0 then sign else sign + (l + 873) * 2 ^ 52 + (frac * 2 ^ (53 - l) - 2 ^ 52))
    else sign + (exp + 896) * 2 ^ 52 + frac * 2 ^ 29

-- float32(f) for a float64: too large a number becomes infinite, too small a one subnormal or zero.
unfoldable pub narrow : ℕ → ℕ
unfolding is_nan is_inf significand scale round_even
narrow f =
    let sign = f / 2 ^ 63 * 2 ^ 31 in
    let normal = (scale f - 896) * 2 ^ 23 + (round_even (significand f) 29 - 2 ^ 23) in
    if is_nan f
    then sign + 255 * 2 ^ 23 + 2 ^ 22 + fraction f / 2 ^ 29 % 2 ^ 22
    else if is_inf f
    then sign + 255 * 2 ^ 23
    else if leb (scale f) 896
    then sign + round_even (significand f) (926 - scale f)
    else if leb (255 * 2 ^ 23) normal
    then sign + 255 * 2 ^ 23
    else sign + normal
