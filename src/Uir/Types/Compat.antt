-- ===== src/Uir/Types/Compat.antt =====
-- internal/uir/compat.go: LookupCompat, the table of exceptions and the ladder of rules behind it.
pub mod Laws
use omni_schema.Prelude.{ℕ, Bool, true, false, ◌&&◌, ◌||◌, ◌==◌, leb, if◌then◌else◌}
use omni_schema.Prelude.{Option, none, some}
use omni_schema.Prelude.Bytes.{Text, codes}
use omni_schema.Uir.Types.{UirType, type_eq, is_integer, is_float, is_logical}

pub record CompatEntry : Type 0 where
  pub allowed : Bool
  pub lossless : Bool
  pub safe : Bool
  pub note : Text

abbrev entry : Bool → Bool → Bool → Text → CompatEntry
entry a l s n = record { allowed = a; lossless = l; safe = s; note = n }

unfoldable pub integer_width : UirType → ℕ
integer_width UirType.int32 = 32
integer_width UirType.uint32 = 32
integer_width UirType.sint32 = 32
integer_width UirType.fixed32 = 32
integer_width UirType.sfixed32 = 32
integer_width _ = 64

unfoldable pub unsignedness : UirType → ℕ
unsignedness UirType.uint32 = 1
unsignedness UirType.uint64 = 1
unsignedness UirType.fixed32 = 1
unsignedness UirType.fixed64 = 1
unsignedness _ = 0

-- The map literal, as a lookup.
compat_table : UirType → UirType → Option CompatEntry
compat_table UirType.int32 UirType.int64 = some (entry true true true (codes "widen"))
compat_table UirType.int32 UirType.float64 = some (entry true true true (codes "exact in float64"))
compat_table UirType.boolean UirType.int32 = some (entry true true true (codes "bool as 0/1"))
compat_table UirType.boolean UirType.int64 = some (entry true true true (codes "bool as 0/1"))
compat_table _ _ = none

-- The rules for a pair that the table does not list, in the order of the source.
compat_rules : UirType → UirType → CompatEntry
unfolding is_integer is_float is_logical integer_width unsignedness
compat_rules src dst =
    if is_integer src && is_integer dst
    then (if leb (integer_width src) (integer_width dst) && unsignedness src == unsignedness dst
        then entry true true true (codes "integer widen")
        else entry true false false (codes "integer narrow or signedness change; overflow checked"))
    else if is_integer src && is_float dst
    then entry true false (type_eq dst UirType.float64) (codes "int to float")
    else if is_float src && is_integer dst
    then entry true false false (codes "float to int requires integral finite value")
    else if type_eq src UirType.float32 && type_eq dst UirType.float64
    then entry true true true (codes "float widen")
    else if type_eq src UirType.float64 && type_eq dst UirType.float32
    then entry true false false (codes "float64 to float32 may lose precision")
    else if type_eq src UirType.bytes && type_eq dst UirType.string
    then entry true false true (codes "bytes to text uses BytesPolicy")
    else if type_eq src UirType.string && type_eq dst UirType.bytes
    then entry true false true (codes "text to bytes uses BytesPolicy")
    else if type_eq src UirType.enum && type_eq dst UirType.string
        || type_eq src UirType.string && type_eq dst UirType.enum
    then entry true true true (codes "enum/string")
    else if is_logical src && (type_eq dst UirType.string || is_logical dst)
    then entry true true true (codes "logical type as string")
    else if type_eq src UirType.null
    then entry true true true (codes "null")
    else entry false false false (codes "unsupported")

unfoldable pub lookup_compat : UirType → UirType → CompatEntry
unfolding compat_table compat_rules
lookup_compat src dst =
    if type_eq src dst
    then entry true true true (codes "identity")
    else elim (compat_table src dst) [ some e ↦ e | none ↦ compat_rules src dst ]
