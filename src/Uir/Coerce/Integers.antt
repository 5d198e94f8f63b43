-- ===== src/Uir/Coerce/Integers.antt =====
-- internal/uir/project.go: an integer coerced to an integer type, against the ranges of the types.
use omni_schema.Prelude.{◌%◌, ◌^◌, ◌<◌, ◌≡◌, refl, Bool, true, false, not, ◌&&◌, ◌||◌, arith}
use omni_schema.Prelude.Int.{ℤ, pos, negsuc, int32_of, int64_of, uint64_of}
use omni_schema.Prelude.Bytes.{Text}
use omni_schema.Prelude.Result.{Result, ok, err}
use omni_schema.Uir.Types.{UirType, type_eq, is_integer}
use omni_schema.Uir.Types.Tags.{every_type, every_type_sound}
use omni_schema.Uir.Presence.{ConversionKind, ConversionReport}
use omni_schema.Uir.Node.{Any, Node, Nodes, Head}
use omni_schema.Uir.Coerce.{
  Host, CoerceError, ProjectOptions, is_permissive, merge_kind, to_int64, to_uint64,
}
use omni_schema.Uir.Coerce.Value.{
  Coerced, into_int32, into_int64, into_uint32, into_uint64, fits_int32, convert, coerce_value,
  forced, compat_kind, is_nil,
}
use omni_schema.Uir.Coerce.Ranges.{IsIntegral, number, within, fits, wrapped, Holds, wrapped-Holds}
use omni_schema.Uir.Coerce.Converts.{
  Converts, to_int64-Converts, to_uint64-Converts, number-pattern,
}

-- A conversion to a wide type and one from there to the target, whose report is left aside.
lift_Converts :
    {A : Type 0} (into : Result CoerceError (A × ConversionKind) → ConversionReport × Coerced)
    (can fit : Bool) (out : Any) (i : A) (r : Result CoerceError (A × ConversionKind))
    → ((e : CoerceError) → (into (err e)).1 ≡ err e)
    → (can ≡ false → fit ≡ false)
    → ((k : ConversionKind) → can ≡ true → Converts fit out (into (ok (i, k))).1)
    → Converts can i r
    → Converts fit out (into r).1
lift_Converts into true fit out i r fails narrower works (k, e, eq) = rw eq (works k refl)
lift_Converts into false fit out i r fails narrower works (k, e, eq) =
    (k, e, rw (eq, fails e, narrower refl) refl)

module _ (opt : ProjectOptions) (report : ConversionReport) (key : Text)
    (kind : ConversionKind) where
  abbrev allows : Bool
  allows = is_permissive opt.lossiness

  into_int32-wrapped :
      (z : ℤ) (k : ConversionKind)
      → uint64_of z < 2 ^ 64
      → within (2 ^ 63) (2 ^ 63) z || allows ≡ true
      → Converts
          (within (2 ^ 31) (2 ^ 31) z || allows)
          (Any.int32 (int32_of (uint64_of z)))
          (into_int32 opt report key kind (ok (int64_of (uint64_of z), k))).1
  unfolding into_int32 fits_int32
  into_int32-wrapped (pos n) k u can = (merge_kind kind k, CoerceError.overflow_int32, ground arith)
  into_int32-wrapped (negsuc n) k u can =
      (merge_kind kind k, CoerceError.overflow_int32, ground arith)

  into_int64-wrapped :
      (z : ℤ) (k : ConversionKind)
      → within (2 ^ 63) (2 ^ 63) z || allows ≡ true
      → Converts
          (within (2 ^ 63) (2 ^ 63) z || allows)
          (Any.int64 (int64_of (uint64_of z)))
          (into_int64 opt report key kind (ok (int64_of (uint64_of z), k))).1
  unfolding into_int64
  into_int64-wrapped z k can = (merge_kind kind k, CoerceError.no_int, rw can refl)

  into_uint64-wrapped :
      (z : ℤ) (k : ConversionKind)
      → within 0 (2 ^ 64) z || allows ≡ true
      → Converts
          (within 0 (2 ^ 64) z || allows)
          (Any.uint64 (uint64_of z))
          (into_uint64 opt report key kind (ok (uint64_of z, k))).1
  unfolding into_uint64
  into_uint64-wrapped z k can = (merge_kind kind k, CoerceError.no_int, rw can refl)

  into_uint32-wrapped :
      (z : ℤ) (k : ConversionKind)
      → uint64_of z < 2 ^ 64
      → within 0 (2 ^ 64) z || allows ≡ true
      → Converts
          (within 0 (2 ^ 32) z || allows)
          (Any.uint32 (uint64_of z % 2 ^ 32))
          (into_uint32 opt report key kind (ok (uint64_of z, k))).1
  unfolding into_uint32
  into_uint32-wrapped (pos n) k u can =
      (merge_kind kind k, CoerceError.overflow_uint32, ground arith)
  into_uint32-wrapped (negsuc n) k u can =
      (merge_kind kind k, CoerceError.overflow_uint32, ground arith)

  narrower_int32 :
      (z : ℤ)
      → within (2 ^ 63) (2 ^ 63) z || allows ≡ false
      → within (2 ^ 31) (2 ^ 31) z || allows ≡ false
  narrower_int32 (pos n) h = ground arith
  narrower_int32 (negsuc n) h = ground arith

  narrower_uint32 :
      (z : ℤ) → within 0 (2 ^ 64) z || allows ≡ false → within 0 (2 ^ 32) z || allows ≡ false
  narrower_uint32 (pos n) h = ground arith
  narrower_uint32 (negsuc n) h = ground arith

  module _ (host : Host) {v : Any} (h : IsIntegral v) where
    int32-Converts :
        Converts
          (within (2 ^ 31) (2 ^ 31) (number v) || allows)
          (Any.int32 (int32_of (uint64_of (number v))))
          (into_int32 opt report key kind (to_int64 host v opt.lossiness)).1
    int32-Converts =
        lift_Converts (into_int32 opt report key kind) _ _ _ _ _ (λ e. unfold into_int32 in refl)
          (narrower_int32 (number v))
          (λ k can. into_int32-wrapped (number v) k (number-pattern h) can)
          (to_int64-Converts host opt.lossiness h)

    int64-Converts :
        Converts
          (within (2 ^ 63) (2 ^ 63) (number v) || allows)
          (Any.int64 (int64_of (uint64_of (number v))))
          (into_int64 opt report key kind (to_int64 host v opt.lossiness)).1
    int64-Converts =
        lift_Converts (into_int64 opt report key kind) _ _ _ _ _ (λ e. unfold into_int64 in refl)
          (λ no. no) (λ k can. into_int64-wrapped (number v) k can)
          (to_int64-Converts host opt.lossiness h)

    uint32-Converts :
        Converts
          (within 0 (2 ^ 32) (number v) || allows)
          (Any.uint32 (uint64_of (number v) % 2 ^ 32))
          (into_uint32 opt report key kind (to_uint64 host v opt.lossiness)).1
    uint32-Converts =
        lift_Converts (into_uint32 opt report key kind) _ _ _ _ _ (λ e. unfold into_uint32 in refl)
          (narrower_uint32 (number v))
          (λ k can. into_uint32-wrapped (number v) k (number-pattern h) can)
          (to_uint64-Converts host opt.lossiness h)

    uint64-Converts :
        Converts
          (within 0 (2 ^ 64) (number v) || allows)
          (Any.uint64 (uint64_of (number v)))
          (into_uint64 opt report key kind (to_uint64 host v opt.lossiness)).1
    uint64-Converts =
        lift_Converts (into_uint64 opt report key kind) _ _ _ _ _ (λ e. unfold into_uint64 in refl)
          (λ no. no) (λ k can. into_uint64-wrapped (number v) k can)
          (to_uint64-Converts host opt.lossiness h)

    convert-Converts :
        (t : UirType)
        → is_integer t ≡ true
        → Converts
            (fits t (number v) || allows)
            (wrapped t (number v))
            (convert host opt report key kind v t).1
    unfolding is_integer convert
    convert-Converts UirType.int32 i = int32-Converts
    convert-Converts UirType.sint32 i = int32-Converts
    convert-Converts UirType.sfixed32 i = int32-Converts
    convert-Converts UirType.int64 i = int64-Converts
    convert-Converts UirType.sint64 i = int64-Converts
    convert-Converts UirType.sfixed64 i = int64-Converts
    convert-Converts UirType.uint32 i = uint32-Converts
    convert-Converts UirType.fixed32 i = uint32-Converts
    convert-Converts UirType.uint64 i = uint64-Converts
    convert-Converts UirType.fixed64 i = uint64-Converts
    convert-Converts _ i = cc

IsIntegral-not_nil : {v : Any} → IsIntegral v → is_nil v ≡ false
IsIntegral-not_nil (IsIntegral.int_value v h) = refl
IsIntegral-not_nil (IsIntegral.int32_value v h) = refl
IsIntegral-not_nil (IsIntegral.int64_value v h) = refl
IsIntegral-not_nil (IsIntegral.uint32_value u h) = refl
IsIntegral-not_nil (IsIntegral.uint64_value u h) = refl

integer_or_other :
    (t : UirType)
    → not (is_integer t) || not (type_eq t UirType.bytes) && not (type_eq t UirType.string) ≡ true
unfolding is_integer
integer_or_other =
    every_type_sound
      (λ t. not (is_integer t) || not (type_eq t UirType.bytes) && not (type_eq t UirType.string))
      (unfold every_type in refl)

is_integer-convert :
    (host : Host) (opt : ProjectOptions) (report : ConversionReport) (h : Head) (ns : Nodes)
    (t : UirType)
    → IsIntegral h.value
    → type_eq h.type UirType.null ≡ false
    → is_integer t ≡ true
    → coerce_value host opt report (Node.node h ns) t
      ≡ convert host opt (forced opt report h t) h.key (compat_kind h.type t) h.value t
unfolding coerce_value is_integer
is_integer-convert host opt report h ns t v n i =
    let c = integer_or_other t in ground (arith, IsIntegral-not_nil v)

-- coerceValue on a node that holds an integer, to an integer type: where the range of the type has
-- the number the result is that very number; elsewhere a permissive policy keeps its low bits, and
-- any other policy makes it an error. The node is not of type null.
pub coerce_value-integer :
    (host : Host) (opt : ProjectOptions) (report : ConversionReport) (h : Head) (ns : Nodes)
    (t : UirType)
    → IsIntegral h.value
    → type_eq h.type UirType.null ≡ false
    → is_integer t ≡ true
    → Converts
        (fits t (number h.value) || is_permissive opt.lossiness)
        (wrapped t (number h.value))
        (coerce_value host opt report (Node.node h ns) t).1
      × (fits t (number h.value) ≡ true → Holds (number h.value) (wrapped t (number h.value)))
coerce_value-integer host opt report h ns t v n i =
    let done =
      convert-Converts opt (forced opt report h t) h.key (compat_kind h.type t) host v t i in
    (
      (done.0, done.1, rw (is_integer-convert host opt report h ns t v n i) done.2),
      wrapped-Holds t (number h.value),
    )
