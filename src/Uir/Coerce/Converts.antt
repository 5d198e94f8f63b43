-- ===== src/Uir/Coerce/Converts.antt =====
-- internal/uir/project.go: toInt64 and toUint64 on a value of an integer type.
use omni_schema.Prelude.{◌-◌, ◌^◌, ◌<◌, ◌≡◌, Bool, ◌||◌, ltb, arith}
use omni_schema.Prelude.{if◌then◌else◌}
use omni_schema.Prelude.Int.{pos, negsuc, int64_of, uint64_of}
use omni_schema.Prelude.Result.{Result, ok, err}
use omni_schema.Uir.Presence.{ConversionKind}
use omni_schema.Uir.Node.{Any}
use omni_schema.Uir.Coerce.{
  Host, CoerceError, LossinessPolicy, is_permissive, to_int64, to_uint64, sign_checked,
}
use omni_schema.Uir.Coerce.Ranges.{IsIntegral, number, within}

-- A conversion that gives `out` where the number fits or the policy is permissive.
abbrev pub Converts : {A : Type 0} → Bool → A → Result CoerceError (A × ConversionKind) → Type 0
Converts can out result =
    (k : ConversionKind) × (e : CoerceError) × (result ≡ (if can then ok (out, k) else err e))

pub to_int64-Converts :
    (host : Host) {v : Any} (lossiness : LossinessPolicy)
    → IsIntegral v
    → Converts
        (within (2 ^ 63) (2 ^ 63) (number v) || is_permissive lossiness)
        (int64_of (uint64_of (number v)))
        (to_int64 host v lossiness)
unfolding to_int64
to_int64-Converts host lossiness (IsIntegral.int_value (pos n) h) =
    (ConversionKind.lossless, CoerceError.no_int, ground arith)
to_int64-Converts host lossiness (IsIntegral.int_value (negsuc n) h) =
    (ConversionKind.lossless, CoerceError.no_int, ground arith)
to_int64-Converts host lossiness (IsIntegral.int32_value (pos n) h) =
    (ConversionKind.lossless, CoerceError.no_int, ground arith)
to_int64-Converts host lossiness (IsIntegral.int32_value (negsuc n) h) =
    (ConversionKind.lossless, CoerceError.no_int, ground arith)
to_int64-Converts host lossiness (IsIntegral.int64_value (pos n) h) =
    (ConversionKind.lossless, CoerceError.no_int, ground arith)
to_int64-Converts host lossiness (IsIntegral.int64_value (negsuc n) h) =
    (ConversionKind.lossless, CoerceError.no_int, ground arith)
to_int64-Converts host lossiness (IsIntegral.uint32_value u h) =
    (ConversionKind.lossless, CoerceError.no_int, ground arith)
to_int64-Converts host lossiness (IsIntegral.uint64_value u h) = (
  if ltb (2 ^ 63 - 1) u then ConversionKind.lossy else ConversionKind.safe_coerce,
  CoerceError.overflow_int64,
  ground arith,
)

pub to_uint64-Converts :
    (host : Host) {v : Any} (lossiness : LossinessPolicy)
    → IsIntegral v
    → Converts
        (within 0 (2 ^ 64) (number v) || is_permissive lossiness)
        (uint64_of (number v))
        (to_uint64 host v lossiness)
unfolding to_uint64 to_int64 sign_checked
to_uint64-Converts host lossiness (IsIntegral.int_value (pos n) h) =
    (ConversionKind.lossless, CoerceError.no_int, ground arith)
to_uint64-Converts host lossiness (IsIntegral.int_value (negsuc n) h) =
    (ConversionKind.lossy, CoerceError.negative_to_uint, ground arith)
to_uint64-Converts host lossiness (IsIntegral.int32_value (pos n) h) =
    (ConversionKind.safe_coerce, CoerceError.no_int, ground arith)
to_uint64-Converts host lossiness (IsIntegral.int32_value (negsuc n) h) =
    (ConversionKind.lossy, CoerceError.negative_to_uint, ground arith)
to_uint64-Converts host lossiness (IsIntegral.int64_value (pos n) h) =
    (ConversionKind.safe_coerce, CoerceError.no_int, ground arith)
to_uint64-Converts host lossiness (IsIntegral.int64_value (negsuc n) h) =
    (ConversionKind.lossy, CoerceError.negative_to_uint, ground arith)
to_uint64-Converts host lossiness (IsIntegral.uint32_value u h) =
    (ConversionKind.lossless, CoerceError.no_int, ground arith)
to_uint64-Converts host lossiness (IsIntegral.uint64_value u h) =
    (ConversionKind.lossless, CoerceError.no_int, ground arith)

pub number-pattern : {v : Any} → IsIntegral v → uint64_of (number v) < 2 ^ 64
number-pattern (IsIntegral.int_value (pos n) h) = omega arith
number-pattern (IsIntegral.int_value (negsuc n) h) = omega arith
number-pattern (IsIntegral.int32_value (pos n) h) = omega arith
number-pattern (IsIntegral.int32_value (negsuc n) h) = omega arith
number-pattern (IsIntegral.int64_value (pos n) h) = omega arith
number-pattern (IsIntegral.int64_value (negsuc n) h) = omega arith
number-pattern (IsIntegral.uint32_value u h) = omega arith
number-pattern (IsIntegral.uint64_value u h) = omega arith
