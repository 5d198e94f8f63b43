-- ===== src/Codec/Protobuf/Values.antt =====
-- internal/codec/protobuf.go: the values that encodeProtoField writes under the name of a type.
use omni_schema.Prelude.{ℕ, ◌%◌, ◌^◌, true, ◌||◌, if◌then◌else◌}
use omni_schema.Prelude.{Option, none, some, List, []}
use omni_schema.Prelude.Int.{ℤ, pos, int64_of, uint64_of}
use omni_schema.Prelude.Bytes.{Text, codes, text_eq}
use omni_schema.Prelude.Float.{narrow}
use omni_schema.Uir.Node.{Any}
use omni_schema.Uir.Coerce.{Host, int64_of_float, uint64_of_float}
use omni_schema.Codec.Protobuf.{zigzag, append_varint, append_fixed32, append_fixed64, append_len}

unfoldable pub as_int64 : Host → Any → ℤ
as_int64 host (Any.int64 n) = n
as_int64 host (Any.int32 n) = n
as_int64 host (Any.int n) = n
as_int64 host (Any.uint64 n) = int64_of n
as_int64 host (Any.uint32 n) = pos n
as_int64 host (Any.float64 f) = int64_of_float host f
as_int64 host _ = pos 0

unfoldable pub as_uint64 : Host → Any → ℕ
as_uint64 host (Any.uint64 n) = n
as_uint64 host (Any.uint32 n) = n
as_uint64 host (Any.int64 n) = uint64_of n
as_uint64 host (Any.int32 n) = uint64_of n
as_uint64 host (Any.int n) = uint64_of n
as_uint64 host (Any.float64 f) = uint64_of_float host f
as_uint64 host _ = 0

-- The type assertions, with the zero value where they fail.
abbrev pub float32_bits : Any → ℕ
float32_bits (Any.float32 f) = f
float32_bits (Any.float64 f) = narrow f
float32_bits _ = 0

abbrev pub float64_bits : Any → ℕ
float64_bits (Any.float64 f) = f
float64_bits _ = 0

abbrev pub bool_bit : Any → ℕ
bool_bit (Any.bool true) = 1
bool_bit _ = 0

abbrev pub text_bytes : Any → List ℕ
text_bytes (Any.text s) = s
text_bytes _ = []

abbrev pub bytes_of : Any → List ℕ
bytes_of (Any.bytes b) = b
bytes_of _ = []

abbrev pub bytes_or_text : Any → List ℕ
bytes_or_text (Any.bytes b) = b
bytes_or_text (Any.text s) = s
bytes_or_text _ = []

-- The switch on the protobuf type.
unfoldable pub encode_by_name : Host → ℕ → Text → Any → Option (List ℕ)
unfolding zigzag append_varint append_fixed32 append_fixed64 append_len as_int64 as_uint64
encode_by_name host tag p v =
    if text_eq p (codes "sint32") || text_eq p (codes "sint64")
    then some (append_varint tag (zigzag (as_int64 host v)))
    else if text_eq p (codes "fixed32")
    then some (append_fixed32 tag (as_uint64 host v % 2 ^ 32))
    else if text_eq p (codes "sfixed32")
    then some (append_fixed32 tag (uint64_of (as_int64 host v) % 2 ^ 32))
    else if text_eq p (codes "fixed64")
    then some (append_fixed64 tag (as_uint64 host v))
    else if text_eq p (codes "sfixed64")
    then some (append_fixed64 tag (uint64_of (as_int64 host v)))
    else if text_eq p (codes "float")
    then some (append_fixed32 tag (float32_bits v))
    else if text_eq p (codes "double")
    then some (append_fixed64 tag (float64_bits v))
    else if text_eq p (codes "bool")
    then some (append_varint tag (bool_bit v))
    else if text_eq p (codes "string")
    then some (append_len tag (text_bytes v))
    else if text_eq p (codes "bytes")
    then some (append_len tag (bytes_or_text v))
    else none
