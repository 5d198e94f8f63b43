-- ===== src/Uir/Coerce/Floats.antt =====
-- internal/uir/project.go: floatToInt64 and coerceValue on a float64 that is to become an int64.
use omni_schema.Prelude.{ℕ, ◌^◌, ◌≡◌, ◌≢◌, refl, Bool, true, false, not, ◌&&◌, ◌||◌, arith}
use omni_schema.Prelude.{ltb, leb, ◌==◌, if◌then◌else◌}
use omni_schema.Prelude.Int.{ℤ, pos}
use omni_schema.Prelude.Bytes.{Text}
use omni_schema.Prelude.Float.{is_nan, is_inf, is_integral, whole, exceeds, is_negative}
use omni_schema.Prelude.Result.{ok, err}
use omni_schema.Uir.Types.{UirType}
use omni_schema.Uir.Presence.{ConversionKind, ConversionReport}
use omni_schema.Uir.Node.{Any, new_node, new_head}
use omni_schema.Uir.Types.Compat.{lookup_compat}
use omni_schema.Uir.Coerce.{
  Host, CoerceError, LossinessPolicy, ProjectOptions, is_permissive, merge_kind, minus,
  int64_of_float, float_to_int64, overflows_int64, to_int64,
}
use omni_schema.Uir.Coerce.Value.{coerce_value, convert, forced, compat_kind, into_int64}

-- A whole number between -2 ^ 63 and 2 ^ 63, the ends included.
unfoldable pub is_convertible : ℕ → Bool
is_convertible f = is_integral f && not (is_inf f) && leb (whole f) (2 ^ 63)

-- The number that a float without a fraction is.
unfoldable pub signed_whole : ℕ → ℤ
signed_whole f = if is_negative f then minus (whole f) else pos (whole f)

not-first : (a b : Bool) → not a && b ≡ true → a ≡ false
not-first false b h = refl
not-first true b h = cc

integral_not_nan : (f : ℕ) → is_integral f ≡ true → is_nan f ≡ false
unfolding is_integral
integral_not_nan f h = not-first (is_nan f) _ h

exceeds-whole : (f n : ℕ) → is_integral f ≡ true → exceeds f n ≡ ltb n (whole f)
unfolding exceeds
exceeds-whole f n h = rw (integral_not_nan f h, h) (on (ltb n (whole f)) (whole f == n))
  where
    on : (a b : Bool) → (a || b && not true) ≡ a
    on true b = refl
    on false true = refl
    on false false = refl

overflows-whole : (f : ℕ) → is_integral f ≡ true → overflows_int64 f ≡ not (leb (whole f) (2 ^ 63))
unfolding overflows_int64
overflows-whole f h = let e = exceeds-whole f (2 ^ 63) h in ground arith

-- Why a float does not convert, by the first of the tests that it fails.
abbrev failure : CoerceError → ℕ → CoerceError
failure fractional f =
    if is_nan f || is_inf f
    then CoerceError.not_finite
    else if not (is_integral f)
    then fractional
    else CoerceError.float_overflow

-- The tests in the order of the code, where `good` is a result.
by_tests :
    {A : Type 0} (nan inf integral over small : Bool) (good : A) (fractional : CoerceError)
    → (integral ≡ true → nan ≡ false)
    → (integral ≡ true → over ≡ not small)
    → (if nan || inf
        then err CoerceError.not_finite
        else if not integral
        then err fractional
        else if over
        then err CoerceError.float_overflow
        else ok good)
      ≡ (if integral && not inf && small
          then ok good
          else err (
              if nan || inf
              then CoerceError.not_finite
              else if not integral
              then fractional
              else CoerceError.float_overflow))
by_tests nan inf integral over small good fractional h k = ground arith

float_to_int64-convertible :
    (host : Host) (f : ℕ) (lossiness : LossinessPolicy)
    → is_permissive lossiness ≡ false
    → (e : CoerceError) × (float_to_int64 host f lossiness ≡ (
        if is_convertible f then ok (int64_of_float host f, ConversionKind.safe_coerce) else err e))
unfolding float_to_int64 is_convertible
float_to_int64-convertible host f LossinessPolicy.strict h = (
  failure CoerceError.precision_loss f,
  by_tests (is_nan f) (is_inf f) (is_integral f) (overflows_int64 f) (leb (whole f) (2 ^ 63)) _ _
      (integral_not_nan f) (overflows-whole f),
)
float_to_int64-convertible host f LossinessPolicy.safe h = (
  failure CoerceError.rounding_required f,
  by_tests (is_nan f) (is_inf f) (is_integral f) (overflows_int64 f) (leb (whole f) (2 ^ 63)) _ _
      (integral_not_nan f) (overflows-whole f),
)
float_to_int64-convertible host f LossinessPolicy.permissive h = cc

int64_of_float-whole :
    (host : Host) (f : ℕ)
    → is_convertible f ≡ true
    → (is_negative f ≡ false → whole f ≢ 2 ^ 63)
    → int64_of_float host f ≡ signed_whole f
unfolding int64_of_float is_convertible signed_whole
int64_of_float-whole host f h k = ground arith

into_int64-if :
    (opt : ProjectOptions) (report : ConversionReport) (key : Text) (kind k : ConversionKind)
    (e : CoerceError) (b : Bool) (i j : ℤ)
    → (b ≡ true → i ≡ j)
    → into_int64 opt report key kind (if b then ok (i, k) else err e)
      ≡ (report, if b then ok (Any.int64 j, merge_kind kind k) else err e)
unfolding into_int64
into_int64-if opt report key kind k e true i j h = rw (h refl) refl
into_int64-if opt report key kind k e false i j h = refl

-- A float64 that coerceValue is to make an int64 under a policy that is not permissive: it becomes
-- the whole number that it is, if it has no fraction and its magnitude is at most 2 ^ 63, and it is
-- an error otherwise. The one float left aside is 2 ^ 63 itself.
pub coerce_value-float_int64 :
    (host : Host) (opt : ProjectOptions) (report : ConversionReport) (key : Text) (f : ℕ)
    → is_permissive opt.lossiness ≡ false
    → (is_negative f ≡ false → whole f ≢ 2 ^ 63)
    → (k : ConversionKind) × (e : CoerceError) × (coerce_value host opt report
          (new_node UirType.float64 key (Any.float64 f))
          UirType.int64
        ≡ (report, if is_convertible f then ok (Any.int64 (signed_whole f), k) else err e))
unfolding coerce_value new_node new_head convert forced to_int64 lookup_compat
coerce_value-float_int64 host opt report key f h k =
    let (e, run) = float_to_int64-convertible host f opt.lossiness h in
    (
      merge_kind (compat_kind UirType.float64 UirType.int64) ConversionKind.safe_coerce,
      e,
      rw run (
          into_int64-if opt report key _ _ e (is_convertible f) _ _
            (λ c. int64_of_float-whole host f c k)),
    )
