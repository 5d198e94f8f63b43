-- ===== src/Codec/MsgPack.antt =====
-- internal/codec/msgpack.go: the errors of the encoder and the parser; `nil_pointer` is a panic.
pub mod Encode
pub mod Decode
pub mod Decoded
pub mod Integers
pub mod Payloads
pub mod Typed
pub mod RoundTrip

pub data MsgPackError : Type 0 where
  unsupported_node unexpected_end invalid_fixstr unexpected_eof trailing_bytes : MsgPackError
  unsupported_byte nil_pointer out_of_fuel : MsgPackError
