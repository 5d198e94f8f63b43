-- ===== src/Uir/Coerce/Value.antt =====
-- internal/uir/project.go: coerceValue, coerceBytes, bytesToText and zeroForType. The report that the
-- options point to is passed in and given back.
use omni_schema.Prelude.{ℕ, ◌-◌, ◌%◌, ◌^◌, Bool, true, false, not, ◌&&◌, ◌||◌}
use omni_schema.Prelude.{ltb, leb, ◌==◌, if◌then◌else◌, Option, none, some, [], ◌++◌, ◌∷◌}
use omni_schema.Prelude.Int.{ℤ, pos, negsuc, int32_of, uint64_of}
use omni_schema.Prelude.Bytes.{Text, codes, mem_text}
use omni_schema.Prelude.Float.{is_nan, is_inf, float_eq, widen, narrow}
use omni_schema.Prelude.Result.{Result, ok, err}
use omni_schema.Uir.Types.{UirType, type_eq, type_name, is_integer, is_float}
use omni_schema.Uir.Types.Compat.{lookup_compat}
use omni_schema.Uir.Presence.{ConversionKind, ConversionReport, BytesPolicy, add_to}
use omni_schema.Uir.Node.{Any, Node, Head}
use omni_schema.Uir.Coerce.{
  Host, CoerceError, ProjectOptions, is_permissive, is_strict, merge_kind, to_int64, to_uint64,
  to_float64,
}
use omni_schema.Uir.Coerce.Encoding.{hex_decode, hex_encode, base64_decode, base64_encode, sprint}

abbrev pub Coerced : Type 0
Coerced = Result CoerceError (Any × ConversionKind)

unfoldable pub zero_for_type : UirType → Any
zero_for_type UirType.null = Any.nil
zero_for_type UirType.bytes = Any.bytes []
zero_for_type UirType.string = Any.text []
zero_for_type UirType.enum = Any.text []
zero_for_type UirType.timestamp = Any.text []
zero_for_type UirType.date = Any.text []
zero_for_type UirType.time = Any.text []
zero_for_type UirType.duration = Any.text []
zero_for_type UirType.decimal = Any.text []
zero_for_type UirType.int32 = Any.int32 (pos 0)
zero_for_type UirType.sint32 = Any.int32 (pos 0)
zero_for_type UirType.sfixed32 = Any.int32 (pos 0)
zero_for_type UirType.int64 = Any.int64 (pos 0)
zero_for_type UirType.sint64 = Any.int64 (pos 0)
zero_for_type UirType.sfixed64 = Any.int64 (pos 0)
zero_for_type UirType.uint32 = Any.uint32 0
zero_for_type UirType.fixed32 = Any.uint32 0
zero_for_type UirType.uint64 = Any.uint64 0
zero_for_type UirType.fixed64 = Any.uint64 0
zero_for_type UirType.float32 = Any.float32 0
zero_for_type UirType.float64 = Any.float64 0
zero_for_type UirType.boolean = Any.bool false
zero_for_type _ = Any.nil

unfoldable pub same_numeric_family : UirType → UirType → Bool
same_numeric_family a b = (is_integer a || is_float a) && (is_integer b || is_float b)

unfoldable pub coerce_bytes : Any → BytesPolicy → Coerced
coerce_bytes (Any.bytes b) policy = ok (Any.bytes b, ConversionKind.lossless)
coerce_bytes (Any.text s) BytesPolicy.hex = elim (hex_decode s) [
  | none ↦ err CoerceError.invalid_hex
  | some b ↦ ok (Any.bytes b, ConversionKind.safe_coerce)
]
coerce_bytes (Any.text s) BytesPolicy.reject = err CoerceError.refused
coerce_bytes (Any.text s) _ = elim (base64_decode s) [
  | none ↦ ok (Any.bytes s, ConversionKind.lossy)
  | some b ↦ ok (Any.bytes b, ConversionKind.safe_coerce)
]
coerce_bytes _ policy = err CoerceError.no_bytes

unfoldable pub bytes_to_text : Host → Any → BytesPolicy → Coerced
bytes_to_text host (Any.bytes b) BytesPolicy.hex =
    ok (Any.text (hex_encode b), ConversionKind.safe_coerce)
bytes_to_text host (Any.bytes b) BytesPolicy.reject = err CoerceError.refused
bytes_to_text host (Any.bytes b) _ = ok (Any.text (base64_encode b), ConversionKind.safe_coerce)
bytes_to_text host v policy = ok (Any.text (sprint host v), ConversionKind.safe_coerce)

-- What the compatibility table says of a value of one type for another.
unfoldable pub compat_kind : UirType → UirType → ConversionKind
compat_kind src dst =
    if not (type_eq src dst) && not (type_eq src UirType.unknown)
    then (if (lookup_compat src dst).lossless
        then ConversionKind.lossless
        else if (lookup_compat src dst).safe
        then ConversionKind.safe_coerce
        else ConversionKind.lossy)
    else ConversionKind.lossless

unfoldable pub fits_int32 : ℤ → Bool
fits_int32 (pos n) = ltb n (2 ^ 31)
fits_int32 (negsuc n) = ltb n (2 ^ 31)

-- int32(i)
abbrev pub to_int32 : ℤ → ℤ
to_int32 i = int32_of (uint64_of i)

abbrev pub Reported : Type 0
Reported = ConversionReport × Coerced

module _ (opt : ProjectOptions) (report : ConversionReport) (key : Text)
    (kind : ConversionKind) where
  unfoldable pub into_int32 : Result CoerceError (ℤ × ConversionKind) → Reported
  unfolding fits_int32
  into_int32 (err e) = (report, err e)
  into_int32 (ok (i, k)) =
      let result = ok (Any.int32 (to_int32 i), merge_kind kind k) in
      if fits_int32 i
      then (report, result)
      else if is_permissive opt.lossiness
      then (add_to report ConversionKind.lossy key (codes "int32 overflow truncated"), result)
      else (report, err CoerceError.overflow_int32)

  unfoldable pub into_int64 : Result CoerceError (ℤ × ConversionKind) → Reported
  into_int64 (err e) = (report, err e)
  into_int64 (ok (i, k)) = (report, ok (Any.int64 i, merge_kind kind k))

  unfoldable pub into_uint32 : Result CoerceError (ℕ × ConversionKind) → Reported
  into_uint32 (err e) = (report, err e)
  into_uint32 (ok (u, k)) =
      let result = ok (Any.uint32 (u % 2 ^ 32), merge_kind kind k) in
      if leb u (2 ^ 32 - 1)
      then (report, result)
      else if is_permissive opt.lossiness
      then (add_to report ConversionKind.lossy key (codes "uint32 overflow truncated"), result)
      else (report, err CoerceError.overflow_uint32)

  unfoldable pub into_uint64 : Result CoerceError (ℕ × ConversionKind) → Reported
  into_uint64 (err e) = (report, err e)
  into_uint64 (ok (u, k)) = (report, ok (Any.uint64 u, merge_kind kind k))

  unfoldable pub into_float32 : Result CoerceError (ℕ × ConversionKind) → Reported
  into_float32 (err e) = (report, err e)
  into_float32 (ok (f, k)) =
      let same = float_eq (widen (narrow f)) f in
      if is_strict opt.lossiness && not same && not (is_inf f) && not (is_nan f)
      then (report, err CoerceError.float32_precision)
      else (
        report,
        ok (Any.float32 (narrow f), merge_kind kind (if same then k else ConversionKind.lossy)),
      )

  unfoldable pub into_float64 : Result CoerceError (ℕ × ConversionKind) → Reported
  into_float64 (err e) = (report, err e)
  into_float64 (ok (f, k)) = (report, ok (Any.float64 f, merge_kind kind k))

-- strconv.ParseBool
unfoldable pub parse_bool : Text → Option Bool
parse_bool s =
    if mem_text s
      (codes "1" ∷ codes "t" ∷ codes "T" ∷ codes "TRUE" ∷ codes "true" ∷ codes "True" ∷ [])
    then some true
    else if mem_text s
        (codes "0" ∷ codes "f" ∷ codes "F" ∷ codes "FALSE" ∷ codes "false" ∷ codes "False" ∷ [])
    then some false
    else none

abbrev pub is_zero : ℤ → Bool
is_zero (pos n) = n == 0
is_zero (negsuc n) = false

unfoldable pub into_boolean : ConversionKind → Any → Coerced
unfolding parse_bool
into_boolean kind (Any.bool b) = ok (Any.bool b, kind)
into_boolean kind (Any.int64 v) = ok (Any.bool (not (is_zero v)), ConversionKind.safe_coerce)
into_boolean kind (Any.text s) = elim (parse_bool s) [
  | none ↦ err CoerceError.not_a_bool
  | some b ↦ ok (Any.bool b, ConversionKind.safe_coerce)
]
into_boolean kind v = ok (v, kind)

unfoldable pub into_text : Host → ConversionKind → Any → Coerced
into_text host kind (Any.text s) = ok (Any.text s, kind)
into_text host kind v = ok (Any.text (sprint host v), ConversionKind.safe_coerce)

-- The switch on the target type.
module _ (host : Host) (opt : ProjectOptions) (report : ConversionReport) (key : Text) where
  unfoldable pub convert : ConversionKind → Any → UirType → Reported
  unfolding into_int32 into_int64 into_uint32 into_uint64 into_float32 into_float64
  convert kind val UirType.int32 = into_int32 opt report key kind (to_int64 host val opt.lossiness)
  convert kind val UirType.sint32 = into_int32 opt report key kind (to_int64 host val opt.lossiness)
  convert kind val UirType.sfixed32 =
      into_int32 opt report key kind (to_int64 host val opt.lossiness)
  convert kind val UirType.int64 = into_int64 opt report key kind (to_int64 host val opt.lossiness)
  convert kind val UirType.sint64 = into_int64 opt report key kind (to_int64 host val opt.lossiness)
  convert kind val UirType.sfixed64 =
      into_int64 opt report key kind (to_int64 host val opt.lossiness)
  convert kind val UirType.uint32 =
      into_uint32 opt report key kind (to_uint64 host val opt.lossiness)
  convert kind val UirType.fixed32 =
      into_uint32 opt report key kind (to_uint64 host val opt.lossiness)
  convert kind val UirType.uint64 =
      into_uint64 opt report key kind (to_uint64 host val opt.lossiness)
  convert kind val UirType.fixed64 =
      into_uint64 opt report key kind (to_uint64 host val opt.lossiness)
  convert kind val UirType.float32 =
      into_float32 opt report key kind (to_float64 host val opt.lossiness)
  convert kind val UirType.float64 =
      into_float64 opt report key kind (to_float64 host val opt.lossiness)
  convert kind val UirType.string = (report, into_text host kind val)
  convert kind val UirType.enum = (report, into_text host kind val)
  convert kind val UirType.timestamp = (report, into_text host kind val)
  convert kind val UirType.date = (report, into_text host kind val)
  convert kind val UirType.time = (report, into_text host kind val)
  convert kind val UirType.duration = (report, into_text host kind val)
  convert kind val UirType.decimal = (report, into_text host kind val)
  convert kind val UirType.boolean = (report, into_boolean kind val)
  convert kind val UirType.null = (report, ok (Any.nil, kind))
  convert kind val _ = (report, ok (val, kind))

-- The note of a conversion that the table forbids and a permissive policy makes all the same.
unfoldable pub forced : ProjectOptions → ConversionReport → Head → UirType → ConversionReport
unfolding same_numeric_family
forced opt report h target =
    let note = type_name h.type ++ (codes " -> " ++ (type_name target ++ codes " forced")) in
    if not (lookup_compat h.type target).allowed
      && not (type_eq h.type target)
      && not (same_numeric_family h.type target)
      && is_permissive opt.lossiness
    then add_to report ConversionKind.lossy h.key note
    else report

abbrev pub is_nil : Any → Bool
is_nil Any.nil = true
is_nil _ = false

unfoldable pub coerce_value : Host → ProjectOptions → ConversionReport → Node → UirType → Reported
unfolding zero_for_type coerce_bytes bytes_to_text compat_kind convert forced
coerce_value host opt report Node.nil target =
    (report, ok (zero_for_type target, ConversionKind.lossless))
coerce_value host opt report (Node.node h ns) target =
    if is_nil h.value || type_eq h.type UirType.null
    then (report, ok (zero_for_type target, ConversionKind.lossless))
    else if type_eq target UirType.bytes
    then (report, coerce_bytes h.value opt.bytes)
    else if type_eq target UirType.string && type_eq h.type UirType.bytes
    then (report, bytes_to_text host h.value opt.bytes)
    else convert host opt (forced opt report h target) h.key (compat_kind h.type target) h.value
        target
