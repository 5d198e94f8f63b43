-- ===== src/Network/WebSocket.antt =====
-- internal/network/websocket.go: one end of a WebSocket connection, as the bytes still to come from the
-- peer and the bytes sent to it. The random source and the failures of the network are fields of the
-- state; a deadline that passes is the end of the incoming bytes.
pub mod Read
pub mod Mask
pub mod Frames
pub mod Receive
pub mod Assembly
pub mod Message
pub mod Closed
pub mod Steps
pub mod Safety
pub mod Delivery
pub mod Exchange
pub mod Handshake
use Prim.Native.Nat.{bit_or, bit_xor}
use omni_schema.Prelude.{ℕ, zero, suc, ◌+◌, ◌%◌, ◌/◌, Bool, true, false, ◌&&◌, ◌||◌, if◌then◌else◌}
use omni_schema.Prelude.{
  ltb, leb, ◌==◌, List, [], ◌∷◌, ◌++◌, length, take, drop, Option, none, some,
}
use omni_schema.Prelude.Bytes.{Text, codes, valid_utf8, decimal, big_endian, from_big_endian}

-- The frame types, by their opcodes.
abbrev pub op_continuation : ℕ
op_continuation = 0

abbrev pub op_text : ℕ
op_text = 1

abbrev pub op_binary : ℕ
op_binary = 2

abbrev pub op_close : ℕ
op_close = 8

abbrev pub op_ping : ℕ
op_ping = 9

abbrev pub op_pong : ℕ
op_pong = 10

abbrev pub close_normal_closure : ℕ
close_normal_closure = 1000

abbrev pub close_protocol_error : ℕ
close_protocol_error = 1002

abbrev pub close_message_too_big : ℕ
close_message_too_big = 1009

-- 5 << 20
abbrev pub max_message_size : ℕ
max_message_size = 5242880

pub data WsError : Type 0 where
  protocol_error : ℕ → Text → WsError
  eof unexpected_eof net_closed control_too_long write_failed random_failed close_failed : WsError
  exceeds_max_size assembled_exceeds_max_size out_of_fuel : WsError

pub record Conn : Type 0 where
  pub client : Bool
  pub closed : Bool
  pub close_sent : Bool
  pub incoming : List ℕ
  pub outgoing : List ℕ
  pub random : List ℕ
  pub write_fails : Bool
  pub close_fails : Bool

unfoldable pub is_known_opcode : ℕ → Bool
is_known_opcode op =
    op == op_continuation
    || (op == op_text || (op == op_binary || (op == op_close || (op == op_ping || op == op_pong))))

unfoldable pub is_control_opcode : ℕ → Bool
is_control_opcode op = op == op_close || (op == op_ping || op == op_pong)

unfoldable pub valid_close_code : ℕ → Bool
valid_close_code code =
    leb 1000 code && leb code 1003
    || (leb 1007 code && leb code 1014 || leb 3000 code && leb code 4999)

unfoldable pub validate_close_payload : List ℕ → Option WsError
validate_close_payload [] = none
validate_close_payload (a ∷ []) =
    some (WsError.protocol_error close_protocol_error (codes "close payload must not be 1 byte"))
validate_close_payload (a ∷ b ∷ reason) =
    let code = from_big_endian 0 (a ∷ b ∷ []) in
    if valid_close_code code
    then (if valid_utf8 reason
        then none
        else some
            (WsError.protocol_error close_protocol_error (codes "close reason is not valid UTF-8")))
    else some
        (WsError.protocol_error close_protocol_error (codes "invalid close code " ++ decimal code))

-- `maskKey[i]`, for a key of four bytes.
unfoldable pub key_at : List ℕ → ℕ → ℕ
key_at [] i = 0
key_at (k ∷ ks) zero = k
key_at (k ∷ ks) (suc i) = key_at ks i

-- `payload[i] ^= maskKey[i%4]` from place i on.
unfoldable pub xor_mask : List ℕ → ℕ → List ℕ → List ℕ
xor_mask key i [] = []
xor_mask key i (b ∷ bs) = bit_xor b (key_at key (i % 4)) ∷ xor_mask key (i + 1) bs

-- The length bytes of a header, the mask bit in the first.
unfoldable pub length_bytes : ℕ → ℕ → List ℕ
length_bytes mask_bit n =
    if ltb n 126
    then bit_or mask_bit n ∷ []
    else if leb n 65535
    then bit_or mask_bit 126 ∷ big_endian 2 n
    else bit_or mask_bit 127 ∷ big_endian 8 n

-- Write and Flush on the buffered writer.
abbrev pub flush : List ℕ → Conn → Conn × Option WsError
flush bytes c =
    if c.write_fails
    then (c, some WsError.write_failed)
    else (record c { outgoing = c.outgoing ++ bytes }, none)

-- Draws the four key bytes, masks and sends.
unfoldable pub write_masked : ℕ → List ℕ → Conn → Conn × Option WsError
write_masked op payload c =
    let key = take 4 c.random in
    let header = bit_or 128 op ∷ length_bytes 128 (length payload) in
    if ltb (length c.random) 4
    then (c, some WsError.random_failed)
    else flush (header ++ (key ++ xor_mask key 0 payload)) (record c { random = drop 4 c.random })

unfoldable pub write_message_locked : ℕ → List ℕ → Conn → Conn × Option WsError
write_message_locked op payload c =
    if c.closed
    then (c, some WsError.net_closed)
    else if is_control_opcode op && ltb 125 (length payload)
    then (c, some WsError.control_too_long)
    else if c.client
    then write_masked op payload c
    else flush (bit_or 128 op ∷ (length_bytes 0 (length payload) ++ payload)) c

abbrev pub write_message : ℕ → List ℕ → Conn → Conn × Option WsError
write_message = write_message_locked

abbrev pub tcp_close : Conn → Option WsError
tcp_close c = if c.close_fails then some WsError.close_failed else none

-- The first of two errors.
abbrev pub first_error : Option WsError → Option WsError → Option WsError
first_error none e = e
first_error (some e) f = some e

-- The Close frame, unless one was sent.
unfoldable pub send_close : ℕ → Text → Conn → Conn × Option WsError
send_close code reason c =
    if c.close_sent
    then (c, none)
    else write_message_locked op_close (big_endian 2 code ++ reason)
        (record c { close_sent = true })

-- Returns on a closed connection, else closes it, whether or not the frame was sent.
abbrev pub shut_down : Bool → Conn → Conn × Option WsError → Conn × Option WsError
shut_down true c x = (c, some WsError.net_closed)
shut_down false c (d, sent) = (record d { closed = true }, first_error sent (tcp_close d))

unfoldable pub close_with_code : ℕ → Text → Conn → Conn × Option WsError
close_with_code code reason c = shut_down c.closed c (send_close code reason c)

unfoldable pub close : Conn → Conn × Option WsError
close c =
    if c.closed then (c, some WsError.net_closed) else (record c { closed = true }, tcp_close c)

-- The reason that HandleCloseFrame passes on.
abbrev pub refusal : WsError → Text
refusal (WsError.protocol_error code (r ∷ rs)) = r ∷ rs
refusal _ = codes "invalid close payload"

-- The code and the reason of a valid payload.
abbrev pub echo : List ℕ → ℕ × Text
echo (a ∷ b ∷ reason) = (from_big_endian 0 (a ∷ b ∷ []), reason)
echo _ = (close_normal_closure, [])

unfoldable pub handle_close_frame : List ℕ → Conn → Conn × Option WsError
handle_close_frame payload c = elim (validate_close_payload payload) [
  | some e ↦ close_with_code close_protocol_error (refusal e) c
  | none ↦ close_with_code (echo payload).0 (echo payload).1 c
]

unfoldable pub fail_protocol : Text → Conn → Conn × WsError
fail_protocol reason c = (
  (close_with_code close_protocol_error reason c).0,
  WsError.protocol_error close_protocol_error reason,
)

-- failClose with an error to wrap.
unfoldable pub fail_close : ℕ → Text → WsError → Conn → Conn × WsError
fail_close code reason wrap c = ((close_with_code code reason c).0, wrap)
