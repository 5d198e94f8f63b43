-- ===== src/Uir/Types.antt =====
-- internal/uir/types.go and internal/uir/compat.go: the UIR types and their compatibility matrix.
pub mod Tags
pub mod Compat
use omni_schema.Prelude.{ℕ, Bool, true, false, ◌||◌, ◌==◌}
use omni_schema.Prelude.Bytes.{Text, codes}

-- UIRType, in the order of its `iota` block.
pub data UirType : Type 0 where
  unknown null string bytes int32 int64 uint32 uint64 : UirType
  sint32 sint64 fixed32 fixed64 sfixed32 sfixed64 float32 float64 boolean : UirType
  array map enum union interface definition ref : UirType
  timestamp date time duration decimal : UirType

-- The integer that a UIRType is.
abbrev pub iota : UirType → ℕ
iota UirType.unknown = 0
iota UirType.null = 1
iota UirType.string = 2
iota UirType.bytes = 3
iota UirType.int32 = 4
iota UirType.int64 = 5
iota UirType.uint32 = 6
iota UirType.uint64 = 7
iota UirType.sint32 = 8
iota UirType.sint64 = 9
iota UirType.fixed32 = 10
iota UirType.fixed64 = 11
iota UirType.sfixed32 = 12
iota UirType.sfixed64 = 13
iota UirType.float32 = 14
iota UirType.float64 = 15
iota UirType.boolean = 16
iota UirType.array = 17
iota UirType.map = 18
iota UirType.enum = 19
iota UirType.union = 20
iota UirType.interface = 21
iota UirType.definition = 22
iota UirType.ref = 23
iota UirType.timestamp = 24
iota UirType.date = 25
iota UirType.time = 26
iota UirType.duration = 27
iota UirType.decimal = 28

-- a == b on UIRType.
abbrev pub type_eq : UirType → UirType → Bool
type_eq a b = iota a == iota b

unfoldable pub type_name : UirType → Text
type_name UirType.null = codes "UIR_Null"
type_name UirType.string = codes "UIR_String"
type_name UirType.bytes = codes "UIR_Bytes"
type_name UirType.int32 = codes "UIR_Int32"
type_name UirType.int64 = codes "UIR_Int64"
type_name UirType.uint32 = codes "UIR_UInt32"
type_name UirType.uint64 = codes "UIR_UInt64"
type_name UirType.sint32 = codes "UIR_SInt32"
type_name UirType.sint64 = codes "UIR_SInt64"
type_name UirType.fixed32 = codes "UIR_Fixed32"
type_name UirType.fixed64 = codes "UIR_Fixed64"
type_name UirType.sfixed32 = codes "UIR_SFixed32"
type_name UirType.sfixed64 = codes "UIR_SFixed64"
type_name UirType.float32 = codes "UIR_Float32"
type_name UirType.float64 = codes "UIR_Float64"
type_name UirType.boolean = codes "UIR_Boolean"
type_name UirType.array = codes "UIR_Array"
type_name UirType.map = codes "UIR_Map"
type_name UirType.enum = codes "UIR_Enum"
type_name UirType.union = codes "UIR_Union"
type_name UirType.interface = codes "UIR_Interface"
type_name UirType.definition = codes "UIR_Definition"
type_name UirType.ref = codes "UIR_Ref"
type_name UirType.timestamp = codes "UIR_Timestamp"
type_name UirType.date = codes "UIR_Date"
type_name UirType.time = codes "UIR_Time"
type_name UirType.duration = codes "UIR_Duration"
type_name UirType.decimal = codes "UIR_Decimal"
type_name _ = codes "UIR_Unknown"

unfoldable pub is_integer : UirType → Bool
is_integer UirType.int32 = true
is_integer UirType.int64 = true
is_integer UirType.uint32 = true
is_integer UirType.uint64 = true
is_integer UirType.sint32 = true
is_integer UirType.sint64 = true
is_integer UirType.fixed32 = true
is_integer UirType.fixed64 = true
is_integer UirType.sfixed32 = true
is_integer UirType.sfixed64 = true
is_integer _ = false

unfoldable pub is_float : UirType → Bool
is_float t = type_eq t UirType.float32 || type_eq t UirType.float64

unfoldable pub is_logical : UirType → Bool
is_logical UirType.timestamp = true
is_logical UirType.date = true
is_logical UirType.time = true
is_logical UirType.duration = true
is_logical UirType.decimal = true
is_logical _ = false
