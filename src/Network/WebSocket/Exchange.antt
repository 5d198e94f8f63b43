-- ===== src/Network/WebSocket/Exchange.antt =====
-- A message written by one end and read by the other.
use Prim.Native.Nat.{bit_or}
use omni_schema.Prelude.{ℕ, ◌+◌, ◌≤◌, ◌≡◌, refl, ap, ◌∙◌, arith, inl, inr}
use omni_schema.Prelude.{Bool, true, false, not, ltb, le→ltb_false}
use omni_schema.Prelude.{List, ◌++◌, length, take, none}
use omni_schema.Prelude.{length-take}
use omni_schema.Prelude.Result.{ok}
use omni_schema.Network.WebSocket.{
  Conn, max_message_size, is_known_opcode, is_control_opcode, write_masked, write_message,
  write_message_locked,
}
use omni_schema.Network.WebSocket.Read.{
  R, Assembling, read_frame, on_frame, on_data, read_loop, read_message,
}
use omni_schema.Network.WebSocket.Frames.{awaiting, WireFrame, wire, IsLawful, bind-ok, head_of}
use omni_schema.Network.WebSocket.Receive.{read_frame-wire}
use omni_schema.Network.WebSocket.Message.{IsMessage}

-- The frame that a message is sent in, with the key that is drawn for it.
abbrev pub frame_of : ℕ → List ℕ → Conn → WireFrame
frame_of op p c = record { final = true; op = op; payload = p; key = take 4 c.random }

-- A connection that is open, takes writes and, on the client's side, has a key to draw.
abbrev pub CanWrite : Conn → Type 0
CanWrite c = (c.closed ≡ false) × (c.write_fails ≡ false) × (c.client ≡ true → 4 ≤ length c.random)

first_byte : (op : ℕ) → IsMessage op → bit_or 128 op ≡ 128 + op
first_byte op (inl text) = rw text refl
first_byte op (inr binary) = rw binary refl

data_op : (op : ℕ) → IsMessage op → is_control_opcode op ≡ false
unfolding is_control_opcode
data_op op (inl text) = rw text refl
data_op op (inr binary) = rw binary refl

-- WriteMessage sends exactly the frame.
pub write_message-wire :
    (op : ℕ) (p : List ℕ) (c : Conn)
    → IsMessage op
    → CanWrite c
    → ((write_message op p c).0.outgoing ≡ c.outgoing ++ wire c.client (frame_of op p c))
      × ((write_message op p c).1 ≡ none)
unfolding write_message_locked write_masked
write_message-wire op p c kind (alive, takes, key) = on c.client refl
  where
    on :
        (b : Bool)
        → c.client ≡ b
        → ((write_message op p c).0.outgoing ≡ c.outgoing ++ wire c.client (frame_of op p c))
          × ((write_message op p c).1 ≡ none)
    on true client =
        let drawn : ltb (length c.random) 4 ≡ false = le→ltb_false _ _ (key client) in
        ground (arith, client, alive, takes, drawn, data_op op kind, first_byte op kind)
    on false server = ground (arith, server, alive, takes, data_op op kind, first_byte op kind)

frame_of-IsLawful :
    (op : ℕ) (p : List ℕ) (c : Conn)
    → IsMessage op
    → length p ≤ max_message_size
    → 4 ≤ length c.random
    → IsLawful (frame_of op p c)
unfolding is_known_opcode
frame_of-IsLawful op p c kind small key = (
  known kind,
  ground (arith, kind),
  λ control. ground (arith, control, data_op op kind),
  small,
  length-take 4 c.random ∙ omega (arith, key),
)
  where
    known : IsMessage op → is_known_opcode op ≡ true
    known (inl text) = rw text refl
    known (inr binary) = rw binary refl

on_frame-message :
    (next : Assembling → R (ℕ × List ℕ)) (m : Bool) (op : ℕ) (p : List ℕ) (c d : Conn)
    → IsMessage op
    → on_frame next none (head_of m (frame_of op p c), p) d ≡ (d, ok (op, p))
unfolding on_frame on_data is_control_opcode
on_frame-message next m op p c d (inl text) = rw (on_frame, on_data, text) refl
on_frame-message next m op p c d (inr binary) = rw (on_frame, on_data, binary) refl

-- A text or binary message within the size limit that one end, client or server, writes on a
-- connection that is open, takes writes and has four random bytes to draw: the write succeeds, and
-- the bytes that it adds to what was sent, read by the other end in front of anything else, come out
-- as the same type and payload, and the rest is left unread.
pub read_message-write_message :
    (op : ℕ) (p : List ℕ) (c d : Conn) (rest : List ℕ)
    → IsMessage op
    → length p ≤ max_message_size
    → c.closed ≡ false
    → c.write_fails ≡ false
    → 4 ≤ length c.random
    → d.client ≡ not c.client
    → (bytes : List ℕ) × ((write_message op p c).0.outgoing ≡ c.outgoing ++ bytes)
      × ((write_message op p c).1 ≡ none)
      × (read_message (awaiting d (bytes ++ rest)) ≡ (awaiting d rest, ok (op, p)))
unfolding read_message read_loop
read_message-write_message op p c d rest kind small alive takes key other =
    let f = frame_of op p c in
    let written = write_message-wire op p c kind (alive, takes, λ t. key) in
    let side : wire c.client f ≡ wire (not d.client) f =
      ap (λ b. wire b f) (ground (arith, other)) in
    let bytes = wire c.client f ++ rest in
    (
      wire c.client f,
      written.0,
      written.1,
      ap (λ w. read_message (awaiting d (w ++ rest))) side
          ∙ bind-ok (read_frame none)
              (on_frame (read_loop (length (wire (not d.client) f ++ rest))) none)
              (awaiting d (wire (not d.client) f ++ rest))
              (read_frame-wire none f rest d (frame_of-IsLawful op p c kind small key) refl)
          ∙ on_frame-message (read_loop (length (wire (not d.client) f ++ rest))) (not d.client) op
              p c (awaiting d rest) kind,
    )
