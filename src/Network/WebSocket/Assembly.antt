-- ===== src/Network/WebSocket/Assembly.antt =====
-- A whole message over several frames, with pings and pongs between them, as a server reads it.
use omni_schema.Prelude.{ℕ, suc, ◌≤◌, ◌≡◌, refl, ap, ◌∙◌, arith, ◌⊎◌, inl, inr}
use omni_schema.Prelude.{true, false, if◌then◌else◌, ltb, ◌==◌, le→ltb_false}
use omni_schema.Prelude.{List, [], ◌∷◌, ◌++◌, length, none, some, append-nil}
use omni_schema.Prelude.Result.{ok}
use omni_schema.Network.WebSocket.{
  Conn, op_continuation, op_ping, op_pong, is_control_opcode, length_bytes, write_message_locked,
}
use omni_schema.Network.WebSocket.Read.{
  R, Assembling, overflows, read_frame, on_frame, on_control, on_data, send_pong, pong_result,
  read_loop,
}
use omni_schema.Network.WebSocket.Frames.{WireFrame, wire, IsLawful, bind-ok, head_of}
use omni_schema.Network.WebSocket.Frames.{length_bytes-split}
use omni_schema.Network.WebSocket.Receive.{read_frame-wire}

-- A ping or a pong.
abbrev pub IsAside : WireFrame → Type 0
IsAside f = (f.op ≡ op_ping) ⊎ (f.op ≡ op_pong)

-- The frames after the first of a message: continuations, the last of them final.
pub data Continues : List WireFrame → Type 0 where
  ended :
      (f : WireFrame) → IsLawful f → f.op ≡ op_continuation → f.final ≡ true → Continues (f ∷ [])
  piece :
      (f : WireFrame) (fs : List WireFrame)
      → IsLawful f
      → f.op ≡ op_continuation
      → f.final ≡ false
      → Continues fs
      → Continues (f ∷ fs)
  aside :
      (f : WireFrame) (fs : List WireFrame)
      → IsLawful f
      → IsAside f
      → Continues fs
      → Continues (f ∷ fs)

-- The frames of a message of a type, in one piece or in several.
pub data Spells (op : ℕ) : List WireFrame → Type 0 where
  whole : (f : WireFrame) → IsLawful f → f.op ≡ op → f.final ≡ true → Spells op (f ∷ [])
  opening :
      (f : WireFrame) (fs : List WireFrame)
      → IsLawful f
      → f.op ≡ op
      → f.final ≡ false
      → Continues fs
      → Spells op (f ∷ fs)
  before :
      (f : WireFrame) (fs : List WireFrame)
      → IsLawful f
      → IsAside f
      → Spells op fs
      → Spells op (f ∷ fs)

-- The bytes of frames from a client.
abbrev pub wires : List WireFrame → List ℕ
wires [] = []
wires (f ∷ fs) = wire true f ++ wires fs

-- The payloads of the data frames, joined.
abbrev pub data_of : List WireFrame → List ℕ
data_of [] = []
data_of (f ∷ fs) =
    let rest = data_of fs in if is_control_opcode f.op then rest else f.payload ++ rest

-- The pongs that are due: one for every ping, with its payload.
abbrev pub pongs : List WireFrame → List ℕ
pongs [] = []
pongs (f ∷ fs) =
    let rest = pongs fs in
    if f.op == op_ping then 138 ∷ length f.payload ∷ (f.payload ++ rest) else rest

-- A server's connection that is open and takes writes.
abbrev pub serving : Conn → List ℕ → List ℕ → Conn
serving c incoming outgoing = record c {
  client = false;
  closed = false;
  write_fails = false;
  incoming = incoming;
  outgoing = outgoing;
}

pub short_length : (n : ℕ) → n ≤ 125 → length_bytes 0 n ≡ n ∷ []
short_length n h =
    let short : ltb n 126 ≡ true = ground arith in
    length_bytes-split false n ∙ rw short (ap (λ k. k ∷ []) (omega arith))

write_pong-serving :
    (c : Conn) (w o p : List ℕ)
    → length p ≤ 125
    → write_message_locked op_pong p (serving c w o)
      ≡ (serving c w (o ++ (138 ∷ length p ∷ p)), none)
unfolding write_message_locked is_control_opcode
write_pong-serving c w o p h =
    let fits : ltb 125 (length p) ≡ false = le→ltb_false _ _ h in
    rw (write_message_locked, fits, short_length (length p) h) refl

send_pong-serving :
    (c : Conn) (w o p : List ℕ)
    → length p ≤ 125
    → send_pong p (serving c w o) ≡ (serving c w (o ++ (138 ∷ length p ∷ p)), ok tt)
unfolding send_pong
send_pong-serving c w o p h = ap pong_result (write_pong-serving c w o p h)

on_frame-aside :
    (next : Assembling → R (ℕ × List ℕ)) (a : Assembling) (f : WireFrame) (c : Conn) (w o : List ℕ)
    → length f.payload ≤ 125
    → IsAside f
    → on_frame next a (head_of true f, f.payload) (serving c w o)
      ≡ next a (serving c w (o ++ pongs (f ∷ [])))
unfolding on_frame on_control is_control_opcode
on_frame-aside next a f c w o short (inl ping) =
    rw (on_frame, on_control, ping, append-nil f.payload)
      (bind-ok (send_pong f.payload) (λ u. next a) (serving c w o)
        (send_pong-serving c w o f.payload short))
on_frame-aside next a f c w o short (inr pong) = rw (on_frame, on_control, pong, append-nil o) refl

-- A round of the loop that takes a ping or a pong.
pub read_loop-aside :
    (fuel : ℕ) (a : Assembling) (f : WireFrame) (c : Conn) (w o : List ℕ)
    → IsLawful f
    → IsAside f
    → overflows a (length f.payload) ≡ false
    → read_loop (suc fuel) a (serving c (wire true f ++ w) o)
      ≡ read_loop fuel a (serving c w (o ++ pongs (f ∷ [])))
unfolding read_loop is_control_opcode
read_loop-aside fuel a f c w o lawful which fits =
    let control : is_control_opcode f.op ≡ true = ground (arith, which) in
    bind-ok (read_frame a) (on_frame (read_loop fuel) a) (serving c (wire true f ++ w) o)
      (read_frame-wire a f w (serving c w o) lawful fits)
    ∙ on_frame-aside (read_loop fuel) a f c w o (lawful.2 control).1 which

pub on_frame-ended :
    (next : Assembling → R (ℕ × List ℕ)) (op : ℕ) (buf : List ℕ) (f : WireFrame) (d : Conn)
    → f.op ≡ op_continuation
    → f.final ≡ true
    → on_frame next (some (op, buf)) (head_of true f, f.payload) d ≡ (d, ok (op, buf ++ f.payload))
unfolding on_frame on_data is_control_opcode
on_frame-ended next op buf f d zeroth final = rw (on_frame, on_data, zeroth, final) refl

pub on_frame-piece :
    (next : Assembling → R (ℕ × List ℕ)) (op : ℕ) (buf : List ℕ) (f : WireFrame) (d : Conn)
    → f.op ≡ op_continuation
    → f.final ≡ false
    → on_frame next (some (op, buf)) (head_of true f, f.payload) d
      ≡ next (some (op, buf ++ f.payload)) d
unfolding on_frame on_data is_control_opcode
on_frame-piece next op buf f d zeroth more = rw (on_frame, on_data, zeroth, more) refl

-- What a data frame and an aside add to the data and the pongs.
pub data_of-data :
    (f : WireFrame) (fs : List WireFrame)
    → f.op ≡ op_continuation
    → (data_of (f ∷ fs) ≡ f.payload ++ data_of fs) × (pongs (f ∷ fs) ≡ pongs fs)
unfolding is_control_opcode
data_of-data f fs zeroth = rw (data_of, zeroth) (refl, refl)

pub data_of-aside :
    (f : WireFrame) (fs : List WireFrame) → IsAside f → data_of (f ∷ fs) ≡ data_of fs
unfolding is_control_opcode
data_of-aside f fs (inl ping) = rw ping refl
data_of-aside f fs (inr pong) = rw pong refl

pub pongs-aside :
    (f : WireFrame) (fs : List WireFrame) → IsAside f → pongs (f ∷ []) ++ pongs fs ≡ pongs (f ∷ fs)
pongs-aside f fs (inl ping) = rw (ping, append-nil f.payload) refl
pongs-aside f fs (inr pong) = rw pong refl
