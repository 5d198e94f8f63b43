-- ===== src/Codec.antt =====
-- internal/codec: the wire formats.
pub mod Cbor
pub mod MsgPack
pub mod Options
pub mod Protobuf
pub mod Formats
pub mod Target
pub mod Payload
