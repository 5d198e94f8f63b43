-- ===== src/Uir/Coerce.antt =====
-- internal/uir/project.go: the policies and the conversions of one value, toInt64, toUint64,
-- toFloat64 and mergeKind. Floats are bit patterns, as in Uir/Node.antt.
pub mod Encoding
pub mod Value
pub mod Ranges
pub mod Converts
pub mod Integers
pub mod Floats
pub mod Bytes
use omni_schema.Prelude.{ℕ, suc, ◌*◌, ◌+◌, ◌-◌, ◌^◌, Bool, true, false, not, ◌&&◌, ◌||◌}
use omni_schema.Prelude.{
  ◌==◌, ltb, leb, if◌then◌else◌, Option, none, some, ◌++◌, zero, [], ◌∷◌, List,
}
use omni_schema.Prelude.Int.{ℤ, pos, negsuc, int64_of, uint64_of}
use omni_schema.Prelude.Bytes.{Text, codes, text_eq, decimal}
use omni_schema.Prelude.Float.{is_negative, is_nan, is_inf, whole, is_integral, exceeds}
use omni_schema.Prelude.Float.{is_below_zero, float64_of, float64_of_int, widen}
use omni_schema.Prelude.Result.{Result, ok, err}
use omni_schema.Uir.Presence.{ConversionKind, severity, BytesPolicy}
use omni_schema.Uir.Node.{Any, Node}

pub data UnknownFieldPolicy : Type 0 where
  ignore strict preserve : UnknownFieldPolicy

pub data LossinessPolicy : Type 0 where
  strict safe permissive : LossinessPolicy

pub data NameMatchPolicy : Type 0 where
  exact fold snake_camel : NameMatchPolicy

-- The fields that stay the same throughout a projection: SchemaRoot and Report are passed on their
-- own.
pub record ProjectOptions : Type 0 where
  pub unknown_fields : UnknownFieldPolicy
  pub emit_null_for_missing : Bool
  pub lossiness : LossinessPolicy
  pub bytes : BytesPolicy
  pub name_match : NameMatchPolicy

unfoldable pub default_project_options : ProjectOptions
default_project_options = record {
  unknown_fields = UnknownFieldPolicy.ignore;
  emit_null_for_missing = false;
  lossiness = LossinessPolicy.strict;
  bytes = BytesPolicy.base64;
  name_match = NameMatchPolicy.snake_camel;
}

-- What the language leaves open: int64(f) and uint64(f) where the number does not fit, and the order
-- in which a loop ranges over a map. Besides that the text of a float, strconv.ParseFloat and
-- fmt.Sprint, and strings.EqualFold, which goes by the case tables of Unicode.
pub record Host : Type 0 where
  pub int64_misfit : ℕ → ℕ
  pub uint64_misfit : ℕ → ℕ
  pub parse_float : Text → Option ℕ
  pub sprint_float32 : ℕ → Text
  pub sprint_float64 : ℕ → Text
  pub sprint_other : Text
  pub ranged : List (Text × Node) → List (Text × Node)
  pub equal_fold : Text → Text → Bool

pub data CoerceError : Type 0 where
  overflow_int32 overflow_uint32 overflow_int64 : CoerceError
  not_finite precision_loss rounding_required float_overflow : CoerceError
  negative_to_uint float_to_uint uint_overflow : CoerceError
  int_precision uint_precision float32_precision : CoerceError
  not_an_int not_a_float not_a_bool no_int no_float no_bytes : CoerceError
  invalid_hex refused : CoerceError

abbrev pub is_permissive : LossinessPolicy → Bool
is_permissive LossinessPolicy.permissive = true
is_permissive _ = false

abbrev pub is_strict : LossinessPolicy → Bool
is_strict LossinessPolicy.strict = true
is_strict _ = false

unfoldable pub merge_kind : ConversionKind → ConversionKind → ConversionKind
merge_kind a b = if ltb (severity a) (severity b) then b else a

abbrev pub minus : ℕ → ℤ
minus zero = pos 0
minus (suc n) = negsuc n

-- int64(f)
unfoldable pub int64_of_float : Host → ℕ → ℤ
int64_of_float host f =
    if is_negative f
    then (if leb (whole f) (2 ^ 63) then minus (whole f) else int64_of (host.int64_misfit f))
    else if ltb (whole f) (2 ^ 63)
    then pos (whole f)
    else int64_of (host.int64_misfit f)

-- uint64(f)
unfoldable pub uint64_of_float : Host → ℕ → ℕ
uint64_of_float host f =
    if is_negative f
    then (if whole f == 0 then 0 else host.uint64_misfit f)
    else if ltb (whole f) (2 ^ 64)
    then whole f
    else host.uint64_misfit f

-- f > math.MaxInt64 || f < math.MinInt64, where both constants become floats of magnitude 2 ^ 63.
unfoldable pub overflows_int64 : ℕ → Bool
overflows_int64 f = exceeds f (2 ^ 63)

unfoldable pub float_to_int64 : Host → ℕ → LossinessPolicy → Result CoerceError (ℤ × ConversionKind)
unfolding int64_of_float overflows_int64
float_to_int64 host f lossiness =
    if is_nan f || is_inf f
    then err CoerceError.not_finite
    else if not (is_integral f)
    then elim lossiness [
      | strict ↦ err CoerceError.precision_loss
      | safe ↦ err CoerceError.rounding_required
      | permissive ↦
          if overflows_int64 f
          then err CoerceError.float_overflow
          else ok (int64_of_float host f, ConversionKind.lossy)
    ]
    else if overflows_int64 f
    then err CoerceError.float_overflow
    else ok (int64_of_float host f, ConversionKind.safe_coerce)

-- The number that decimal digits spell, after acc.
unfoldable pub parse_digits : ℕ → Text → Option ℕ
parse_digits acc [] = some acc
parse_digits acc (d ∷ ds) =
    let rest = parse_digits (acc * 10 + (d - b'0')) ds in
    if leb b'0' d && leb d b'9' then rest else none

-- Digits, one at least.
abbrev pub parse_unsigned : Text → Option ℕ
parse_unsigned [] = none
parse_unsigned (d ∷ ds) = parse_digits 0 (d ∷ ds)

-- strconv.ParseInt(s, 10, 64)
unfoldable pub parse_int : Text → Option ℤ
unfolding parse_digits
parse_int [] = none
parse_int (c ∷ cs) =
    if c == b'-'
    then elim (parse_unsigned cs) [
      | none ↦ none
      | some n ↦ if leb n (2 ^ 63) then some (minus n) else none
    ]
    else elim (parse_unsigned (if c == b'+' then cs else c ∷ cs)) [
      | none ↦ none
      | some n ↦ if ltb n (2 ^ 63) then some (pos n) else none
    ]

unfoldable pub to_int64 : Host → Any → LossinessPolicy → Result CoerceError (ℤ × ConversionKind)
unfolding float_to_int64 parse_int
to_int64 host (Any.int64 v) lossiness = ok (v, ConversionKind.lossless)
to_int64 host (Any.int32 v) lossiness = ok (v, ConversionKind.lossless)
to_int64 host (Any.int v) lossiness = ok (v, ConversionKind.lossless)
to_int64 host (Any.uint32 u) lossiness = ok (pos u, ConversionKind.lossless)
to_int64 host (Any.uint64 u) lossiness =
    if ltb (2 ^ 63 - 1) u
    then (if is_permissive lossiness
        then ok (int64_of u, ConversionKind.lossy)
        else err CoerceError.overflow_int64)
    else ok (int64_of u, ConversionKind.safe_coerce)
to_int64 host (Any.float32 f) lossiness = float_to_int64 host (widen f) lossiness
to_int64 host (Any.float64 f) lossiness = float_to_int64 host f lossiness
to_int64 host (Any.text s) lossiness = elim (parse_int s) [
  | none ↦ err CoerceError.not_an_int
  | some i ↦ ok (i, ConversionKind.safe_coerce)
]
to_int64 host (Any.bool b) lossiness = ok (pos (if b then 1 else 0), ConversionKind.safe_coerce)
to_int64 host _ lossiness = err CoerceError.no_int

-- A signed number as a uint64, and the kind where it is not negative.
unfoldable pub sign_checked :
    LossinessPolicy → ConversionKind → ℤ → Result CoerceError (ℕ × ConversionKind)
sign_checked lossiness kind (pos n) = ok (n, kind)
sign_checked lossiness kind (negsuc n) =
    if is_permissive lossiness
    then ok (uint64_of (negsuc n), ConversionKind.lossy)
    else err CoerceError.negative_to_uint

unfoldable pub float_to_uint64 :
    Host → ℕ → LossinessPolicy → Result CoerceError (ℕ × ConversionKind)
unfolding uint64_of_float
float_to_uint64 host f lossiness =
    if is_below_zero f || not (is_integral f)
    then (if is_permissive lossiness
        then ok (uint64_of_float host f, ConversionKind.lossy)
        else err CoerceError.float_to_uint)
    else if exceeds f (2 ^ 64)
    then err CoerceError.uint_overflow
    else ok (uint64_of_float host f, ConversionKind.safe_coerce)

-- The default case: through an int64.
abbrev pub through_int64 :
    LossinessPolicy
    → Result CoerceError (ℤ × ConversionKind)
    → Result CoerceError (ℕ × ConversionKind)
through_int64 lossiness (err e) = err e
through_int64 lossiness (ok (i, k)) = sign_checked lossiness k i

unfoldable pub to_uint64 : Host → Any → LossinessPolicy → Result CoerceError (ℕ × ConversionKind)
unfolding sign_checked float_to_uint64
to_uint64 host (Any.uint64 u) lossiness = ok (u, ConversionKind.lossless)
to_uint64 host (Any.uint32 u) lossiness = ok (u, ConversionKind.lossless)
to_uint64 host (Any.int64 v) lossiness = sign_checked lossiness ConversionKind.safe_coerce v
to_uint64 host (Any.int32 v) lossiness = sign_checked lossiness ConversionKind.safe_coerce v
to_uint64 host (Any.float64 f) lossiness = float_to_uint64 host f lossiness
to_uint64 host v lossiness = through_int64 lossiness (to_int64 host v lossiness)

abbrev pub int_eq : ℤ → ℤ → Bool
int_eq (pos m) (pos n) = m == n
int_eq (negsuc m) (negsuc n) = m == n
int_eq _ _ = false

unfoldable pub to_float64 : Host → Any → LossinessPolicy → Result CoerceError (ℕ × ConversionKind)
unfolding int64_of_float uint64_of_float
to_float64 host (Any.float64 f) lossiness = ok (f, ConversionKind.lossless)
to_float64 host (Any.float32 f) lossiness = ok (widen f, ConversionKind.safe_coerce)
to_float64 host (Any.int64 v) lossiness =
    let f = float64_of_int v in
    let same = int_eq (int64_of_float host f) v in
    if is_strict lossiness && not same
    then err CoerceError.int_precision
    else ok (f, if same then ConversionKind.safe_coerce else ConversionKind.lossy)
to_float64 host (Any.int32 v) lossiness = ok (float64_of_int v, ConversionKind.lossless)
to_float64 host (Any.uint64 u) lossiness =
    let f = float64_of u in
    if is_strict lossiness && not (uint64_of_float host f == u)
    then err CoerceError.uint_precision
    else ok (f, ConversionKind.safe_coerce)
to_float64 host (Any.uint32 u) lossiness = ok (float64_of u, ConversionKind.lossless)
to_float64 host (Any.text s) lossiness = elim (host.parse_float s) [
  | none ↦ err CoerceError.not_a_float
  | some f ↦ ok (f, ConversionKind.safe_coerce)
]
to_float64 host _ lossiness = err CoerceError.no_float
