-- ===== src/Network/WebSocket/Read.antt =====
-- internal/network/websocket.go: ReadMessage. A bit test on a byte is written by division.
use omni_schema.Prelude.{ℕ, zero, suc, ◌+◌, ◌%◌, ◌/◌, Bool, false, not, ◌&&◌, ◌||◌}
use omni_schema.Prelude.{if◌then◌else◌, ltb, ◌==◌, List, [], ◌∷◌, ◌++◌, length, take, drop}
use omni_schema.Prelude.{Option, none, some}
use omni_schema.Prelude.Bytes.{codes, from_big_endian}
use omni_schema.Prelude.Result.{Result, ok, err}
use omni_schema.Network.WebSocket.{
  Conn, WsError, op_continuation, op_close, op_ping, op_pong, close_message_too_big,
  max_message_size, is_known_opcode, is_control_opcode, xor_mask, write_message, fail_protocol,
  fail_close,
}

-- A step of the reader: the connection moves on whether or not the step fails.
abbrev pub R : Type 0 → Type 0
R A = Conn → Conn × Result WsError A

-- Goes on from a value, and returns from an error.
abbrev pub continue : {A B : Type 0} → (A → R B) → Conn × Result WsError A → Conn × Result WsError B
continue f (d, ok a) = f a d
continue f (d, err e) = (d, err e)

infixl 5 ◌>>=◌ ◌>>◌
unfoldable pub ◌>>=◌ : {A B : Type 0} → R A → (A → R B) → R B
◌>>=◌ m f c = continue f (m c)

abbrev pub ◌>>◌ : {B : Type 0} → R (Unit {0}) → R B → R B
m >> k = m >>= λ _. k

abbrev pub return : {A : Type 0} → A → R A
return a c = (c, ok a)

-- `return 0, nil, f` for a failure that closes the connection.
abbrev pub refuse : {A : Type 0} → (Conn → Conn × WsError) → R A
refuse f c = ((f c).0, err (f c).1)

unfoldable pub require : Bool → (Conn → Conn × WsError) → R (Unit {0})
require b f = if b then return tt else refuse f

-- io.ReadFull of n bytes.
unfoldable pub read_full : ℕ → R (List ℕ)
read_full n c =
    if ltb (length c.incoming) n
    then (
      record c { incoming = [] },
      err (if length c.incoming == 0 then WsError.eof else WsError.unexpected_eof),
    )
    else (record c { incoming = drop n c.incoming }, ok (take n c.incoming))

-- The head of a frame: the bits of its two bytes.
pub record FrameHead : Type 0 where
  pub fin : Bool
  pub rsv : ℕ
  pub opcode : ℕ
  pub masked : Bool
  pub payload_len7 : ℕ

unfoldable pub split_head : List ℕ → FrameHead
split_head (a ∷ b ∷ rest) = record {
  fin = a / 128 % 2 == 1;
  rsv = a / 16 % 8;
  opcode = a % 16;
  masked = b / 128 % 2 == 1;
  payload_len7 = b % 128;
}
split_head _ = record { fin = false; rsv = 0; opcode = 0; masked = false; payload_len7 = 0 }

-- %X of an opcode.
abbrev pub hex_digit : ℕ → ℕ
hex_digit n = if ltb n 10 then 48 + n else 55 + n

unfoldable pub check_control : FrameHead → R (Unit {0})
check_control h = do
  require h.fin (fail_protocol (codes "control frames must not be fragmented"))
  require (not (h.payload_len7 == 126 || h.payload_len7 == 127))
      (fail_protocol (codes "control frame payload must be <= 125 bytes"))

unfoldable pub check_head : FrameHead → R (Unit {0})
check_head h = do
  require (h.rsv == 0)
      (fail_protocol (codes "RSV bits must be 0 unless an extension is negotiated"))
  require (is_known_opcode h.opcode)
      (fail_protocol (codes "unknown opcode 0x" ++ (hex_digit h.opcode ∷ [])))
  (λ c. require (c.client || h.masked) (fail_protocol (codes "client frames must be masked")) c)
  (λ c.
      require (not (c.client && h.masked))
        (fail_protocol (codes "server frames must not be masked")) c)
  if is_control_opcode h.opcode then check_control h else return tt

-- `ext[0]&0x80 != 0`
abbrev pub high_bit : List ℕ → Bool
high_bit [] = false
high_bit (a ∷ bs) = a / 128 % 2 == 1

abbrev pub long_length : List ℕ → R ℕ
long_length ext = do
  require (not (high_bit ext)) (fail_protocol (codes "invalid 64-bit payload length"))
  return (from_big_endian 0 ext)

unfoldable pub read_length : ℕ → R ℕ
read_length len7 =
    if len7 == 126
    then (do ext ← read_full 2; return (from_big_endian 0 ext))
    else if len7 == 127
    then (do ext ← read_full 8; long_length ext)
    else return len7

unfoldable pub read_mask : Bool → R (List ℕ)
read_mask masked = if masked then read_full 4 else return []

-- The message under assembly: the opcode of its first frame, and the payloads so far.
abbrev pub Assembling : Type 0
Assembling = Option (ℕ × List ℕ)

abbrev pub overflows : Assembling → ℕ → Bool
overflows none n = false
overflows (some (op, buf)) n = ltb max_message_size (length buf + n)

unfoldable pub check_size : Assembling → ℕ → ℕ → R (Unit {0})
check_size a op n = do
  require (not (is_control_opcode op && ltb 125 n))
      (fail_protocol (codes "control frame payload must be <= 125 bytes"))
  require (not (ltb max_message_size n))
      (fail_close close_message_too_big (codes "message too big") WsError.exceeds_max_size)
  require (not (overflows a n)) (
      fail_close close_message_too_big (codes "message too big") WsError.assembled_exceeds_max_size)

unfoldable pub read_payload : FrameHead → ℕ → List ℕ → R (FrameHead × List ℕ)
read_payload h n key = do
  payload ← read_full n
  return (h, if h.masked then xor_mask key 0 payload else payload)

unfoldable pub read_masked : Assembling → FrameHead → ℕ → R (FrameHead × List ℕ)
read_masked a h n = do key ← read_mask h.masked; check_size a h.opcode n; read_payload h n key

unfoldable pub read_after_head : Assembling → FrameHead → R (FrameHead × List ℕ)
read_after_head a h = do check_head h; n ← read_length h.payload_len7; read_masked a h n

-- The part of the loop before a frame is handled: its head and its payload, unmasked.
unfoldable pub read_frame : Assembling → R (FrameHead × List ℕ)
read_frame a = do header ← read_full 2; read_after_head a (split_head header)

-- `if err := ...; err != nil { return err }`
abbrev pub pong_result : Conn × Option WsError → Conn × Result WsError (Unit {0})
pong_result (d, none) = (d, ok tt)
pong_result (d, some e) = (d, err e)

unfoldable pub send_pong : List ℕ → R (Unit {0})
send_pong payload c = pong_result (write_message op_pong payload c)

-- The rest of the loop, from the state of the assembly.
abbrev pub Loop : Type 0
Loop = Assembling → R (ℕ × List ℕ)

unfoldable pub on_control : Loop → Assembling → ℕ → List ℕ → R (ℕ × List ℕ)
on_control next a op payload =
    if op == op_ping
    then (do send_pong payload; next a)
    else if op == op_close
    then return (op_close, payload)
    else next a

unfoldable pub on_data : Loop → Assembling → Bool → ℕ → List ℕ → R (ℕ × List ℕ)
on_data next none fin op payload =
    if op == op_continuation
    then refuse (fail_protocol (codes "unexpected continuation frame"))
    else if fin
    then return (op, payload)
    else next (some (op, payload))
on_data next (some (first, buf)) fin op payload =
    if not (op == op_continuation)
    then refuse
        (fail_protocol (codes "expected continuation frame (opcode 0x0) during fragmented message"))
    else if fin
    then return (first, buf ++ payload)
    else next (some (first, buf ++ payload))

unfoldable pub on_frame : Loop → Assembling → FrameHead × List ℕ → R (ℕ × List ℕ)
on_frame next a (h, payload) =
    if is_control_opcode h.opcode
    then on_control next a h.opcode payload
    else on_data next a h.fin h.opcode payload

-- The loop of ReadMessage. Each round takes at least the two bytes of a head.
unfoldable pub read_loop : ℕ → Loop
read_loop zero a = λ c. (c, err WsError.out_of_fuel)
read_loop (suc fuel) a = do frame ← read_frame a; on_frame (read_loop fuel) a frame

unfoldable pub read_message : R (ℕ × List ℕ)
read_message c = read_loop (suc (length c.incoming)) none c
