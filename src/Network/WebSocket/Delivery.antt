-- ===== src/Network/WebSocket/Delivery.antt =====
-- What ReadMessage never does, whatever bytes the peer sends.
use omni_schema.Prelude.{ℕ, zero, suc, ◌≤◌, ◌<◌, ◌≡◌, refl, arith, ◌⊎◌, inl, inr}
use omni_schema.Prelude.{Bool, true, false, not, if◌then◌else◌, ◌==◌}
use omni_schema.Prelude.{List, ◌++◌, length, none, some, length-append}
use omni_schema.Prelude.Bytes.{codes}
use omni_schema.Network.WebSocket.{
  Conn, op_continuation, op_text, op_binary, op_close, op_ping, max_message_size, is_known_opcode,
  is_control_opcode, fail_protocol,
}
use omni_schema.Network.WebSocket.Read.{
  R, ◌>>=◌, ◌>>◌, return, refuse, FrameHead, Assembling, read_frame, send_pong, on_control, on_data,
  on_frame, read_loop, read_message,
}
use omni_schema.Network.WebSocket.Closed.{Fair, Fair-return, Fair-bind, Fair-refuse}
use omni_schema.Network.WebSocket.Steps.{Anything, fewer, Sized}
use omni_schema.Network.WebSocket.Safety.{Taken, read_frame-Fairly, send_pong-Fairly}

-- A text or a binary message within the size limit, or the payload of a Close frame.
abbrev pub Delivered : ℕ × List ℕ → Type 0
Delivered (op, p) =
    (((op ≡ op_text) ⊎ (op ≡ op_binary)) × (length p ≤ max_message_size))
    ⊎ ((op ≡ op_close) × (length p ≤ 125))

-- What the loop has put together so far.
abbrev Within : Assembling → Type 0
Within none = Unit {0}
Within (some (op, buf)) = ((op ≡ op_text) ⊎ (op ≡ op_binary)) × (length buf ≤ max_message_size)

-- The rest of the loop, while it has fuel.
abbrev Goes : ℕ → (Assembling → R (ℕ × List ℕ)) → Type 0
Goes fuel next =
    (a : Assembling) (e : Conn)
    → Within a
    → length e.incoming < fuel
    → Fair Delivered 0 e (next a e)

on_control-Fair :
    (fuel : ℕ) (next : Assembling → R (ℕ × List ℕ)) (a : Assembling) (op : ℕ) (p : List ℕ)
    (d : Conn)
    → Goes fuel next
    → Within a
    → length d.incoming < fuel
    → length p ≤ 125
    → Fair Delivered 0 d (on_control next a op p d)
unfolding on_control
on_control-Fair fuel next a op p d goes within enough small = on (op == op_ping) (op == op_close)
  where
    on :
        (b1 b2 : Bool)
        → Fair Delivered 0 d (
            (if b1 then (do send_pong p; next a) else if b2 then return (op_close, p) else next a)
              d)
    on true b2 =
        Fair-bind Anything Delivered 0 d (send_pong p) (λ u. next a) ((send_pong-Fairly p).run d)
          (λ u e t less. goes a e within (omega arith))
    on false true = Fair-return Delivered (op_close, p) d (inr (refl, small))
    on false false = goes a d within enough

data_opcode :
    (op : ℕ)
    → is_known_opcode op ≡ true
    → is_control_opcode op ≡ false
    → (op == op_continuation) ≡ false
    → (op ≡ op_text) ⊎ (op ≡ op_binary)
unfolding is_known_opcode is_control_opcode
data_opcode op known data_frame first = ground arith

on_data-Fair :
    (fuel : ℕ) (next : Assembling → R (ℕ × List ℕ)) (a : Assembling) (fin : Bool) (op : ℕ)
    (p : List ℕ) (d : Conn)
    → Goes fuel next
    → Within a
    → length d.incoming < fuel
    → is_known_opcode op ≡ true
    → is_control_opcode op ≡ false
    → Sized a op (length p)
    → Fair Delivered 0 d (on_data next a fin op p d)
unfolding on_data
on_data-Fair fuel next none fin op p d goes within enough known data_frame sized =
    on (op == op_continuation) refl fin
  where
    on :
        (b : Bool)
        → (op == op_continuation) ≡ b
        → (f : Bool)
        → Fair Delivered 0 d (
            (if b
                then refuse (fail_protocol (codes "unexpected continuation frame"))
                else if f
                then return (op, p)
                else next (some (op, p)))
              d)
    on true e f = Fair-refuse Delivered _ d
    on false e true =
        Fair-return Delivered (op, p) d (inl (data_opcode op known data_frame e, sized.1))
    on false e false = goes (some (op, p)) d (data_opcode op known data_frame e, sized.1) enough
on_data-Fair fuel next (some (first, buf)) fin op p d goes (kind, small) enough known data_frame
      sized =
    on (not (op == op_continuation)) fin
  where
    joined : length (buf ++ p) ≤ max_message_size
    joined = ground (arith, length-append buf p, sized.2)

    on :
        (b f : Bool)
        → Fair Delivered 0 d (
            (if b
                then refuse (
                    fail_protocol
                      (codes "expected continuation frame (opcode 0x0) during fragmented message"))
                else if f
                then return (first, buf ++ p)
                else next (some (first, buf ++ p)))
              d)
    on true f = Fair-refuse Delivered _ d
    on false true = Fair-return Delivered (first, buf ++ p) d (inl (kind, joined))
    on false false = goes (some (first, buf ++ p)) d (kind, joined) enough

on_frame-Fair :
    (fuel : ℕ) (next : Assembling → R (ℕ × List ℕ)) (a : Assembling) (x : FrameHead × List ℕ)
    (d : Conn)
    → Goes fuel next
    → Within a
    → length d.incoming < fuel
    → Taken a x
    → Fair Delivered 0 d (on_frame next a x d)
unfolding on_frame
on_frame-Fair fuel next a (h, p) d goes within enough (known, sized) =
    on (is_control_opcode h.opcode) refl
  where
    on :
        (b : Bool)
        → is_control_opcode h.opcode ≡ b
        → Fair Delivered 0 d
            ((if b then on_control next a h.opcode p else on_data next a h.fin h.opcode p) d)
    on true e = on_control-Fair fuel next a h.opcode p d goes within enough (sized.0 e)
    on false e = on_data-Fair fuel next a h.fin h.opcode p d goes within enough known e sized

read_loop-Fair : (fuel : ℕ) → Goes fuel (read_loop fuel)
unfolding read_loop
read_loop-Fair zero a e within enough = absurd (omega arith)
read_loop-Fair (suc fuel) a e within enough =
    fewer Delivered 2 e ((read_frame a >>= on_frame (read_loop fuel) a) e) (
      Fair-bind (Taken a) Delivered 2 e (read_frame a) (on_frame (read_loop fuel) a)
        ((read_frame-Fairly a).run e)
        (λ x d taken less.
          on_frame-Fair fuel (read_loop fuel) a x d (read_loop-Fair fuel) within (omega arith)
            taken))

-- Whatever the peer sends and whatever the state of the connection, ReadMessage ends: it returns a text
-- or binary message of at most 5 MB, or the payload of a Close frame of at most 125 bytes, or an error
-- of the transport, or a protocol or size error, and then the connection is closed. A closed
-- connection stays closed and sends nothing.
pub read_message-Delivered : (c : Conn) → Fair Delivered 0 c (read_message c)
unfolding read_message
read_message-Delivered c = read_loop-Fair (suc (length c.incoming)) none c tt (omega arith)
