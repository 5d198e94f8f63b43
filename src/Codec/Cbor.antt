-- ===== src/Codec/Cbor.antt =====
-- internal/codec/cbor.go: the definite-length, text-keyed subset of RFC 8949.
pub mod Encode
pub mod Half
pub mod Decode
pub mod Head
pub mod Decoded
pub mod Scalars
pub mod Fields
pub mod Containers
pub mod Bodies
pub mod RoundTrip
use omni_schema.Prelude.{ℕ}

-- The errors of the codec, one for each message.
pub data CborError : Type 0 where
  item_count nesting nil_field duplicate_key invalid_key invalid_text unsupported_value : CborError
  trailing truncated reserved_length negative_range map_key impossible_length : CborError
  unsupported_item : CborError

abbrev pub cbor_max_depth : ℕ
cbor_max_depth = 64

abbrev pub cbor_max_items : ℕ
cbor_max_items = 100000
