-- ===== src/Network/WebSocket/Message.antt =====
-- ReadMessage over the frames of a whole message.
use omni_schema.Prelude.{ℕ, zero, suc, ◌+◌, ◌≤◌, ◌≡◌, refl, ap, ◌∙◌, arith, ◌⊎◌, inl, inr}
use omni_schema.Prelude.{true, false, le→ltb_false}
use omni_schema.Prelude.{List, [], ◌∷◌, ◌++◌, length, none, some, append_assoc, append-nil}
use omni_schema.Prelude.{length-append}
use omni_schema.Prelude.Result.{ok}
use omni_schema.Network.WebSocket.{
  Conn, op_continuation, op_text, op_binary, max_message_size, is_control_opcode,
}
use omni_schema.Network.WebSocket.Read.{
  R, Assembling, overflows, read_frame, on_frame, on_data, read_loop, read_message,
}
use omni_schema.Network.WebSocket.Frames.{WireFrame, wire, IsLawful, bind-ok, head_of}
use omni_schema.Network.WebSocket.Receive.{read_frame-wire}
use omni_schema.Network.WebSocket.Assembly.{
  IsAside, Continues, Spells, wires, data_of, pongs, serving, read_loop-aside, on_frame-ended,
  on_frame-piece, data_of-data, data_of-aside, pongs-aside,
}

short : (f : WireFrame) → IsLawful f → IsAside f → length f.payload ≤ 125
unfolding is_control_opcode
short f lawful which = (lawful.2 (ground (arith, which))).1

-- The room that a message under assembly leaves.
fits-some :
    (op : ℕ) (buf : List ℕ) (n : ℕ)
    → length buf + n ≤ max_message_size
    → overflows (some (op, buf)) n ≡ false
fits-some op buf n h = le→ltb_false _ _ h

length-data_of :
    (f : WireFrame) (fs : List WireFrame)
    → f.op ≡ op_continuation
    → length (data_of (f ∷ fs)) ≡ length f.payload + length (data_of fs)
length-data_of f fs zeroth =
    ap length (data_of-data f fs zeroth).0 ∙ length-append f.payload (data_of fs)

-- Control frames count against the limit too, so the theorems leave room for one.
abbrev HasRoom : List ℕ → List WireFrame → Type 0
HasRoom buf fs = length buf + length (data_of fs) + 125 ≤ max_message_size

read_loop-frame :
    (fuel : ℕ) (a : Assembling) (f : WireFrame) (c : Conn) (w rest o : List ℕ)
    → IsLawful f
    → overflows a (length f.payload) ≡ false
    → read_loop (suc fuel) a (serving c ((wire true f ++ w) ++ rest) o)
      ≡ on_frame (read_loop fuel) a (head_of true f, f.payload) (serving c (w ++ rest) o)
unfolding read_loop
read_loop-frame fuel a f c w rest o lawful fits =
    ap (λ bytes. read_loop (suc fuel) a (serving c bytes o)) (append_assoc (wire true f) w rest)
    ∙ bind-ok (read_frame a) (on_frame (read_loop fuel) a)
        (serving c (wire true f ++ (w ++ rest)) o)
        (read_frame-wire a f (w ++ rest) (serving c (w ++ rest) o) lawful fits)

read_loop-Continues :
    (fuel op : ℕ) (buf : List ℕ) (fs : List WireFrame) (c : Conn) (rest o : List ℕ)
    → Continues fs
    → HasRoom buf fs
    → length fs ≤ fuel
    → read_loop fuel (some (op, buf)) (serving c (wires fs ++ rest) o)
      ≡ (serving c rest (o ++ pongs fs), ok (op, buf ++ data_of fs))
read_loop-Continues zero op buf _ c rest o (Continues.ended f lawful zeroth final) room enough =
    absurd (omega arith)
read_loop-Continues zero op buf _ c rest o (Continues.piece f fs lawful zeroth more cont) room
      enough =
    absurd (omega arith)
read_loop-Continues zero op buf _ c rest o (Continues.aside f fs lawful which cont) room enough =
    absurd (omega arith)
read_loop-Continues (suc fuel) op buf _ c rest o (Continues.ended f lawful zeroth final) room
      enough =
    let (whole, silent) = data_of-data f [] zeroth in
    let fits = fits-some op buf (length f.payload) (omega (arith, length-data_of f [] zeroth)) in
    read_loop-frame fuel (some (op, buf)) f c [] rest o lawful fits
    ∙ on_frame-ended (read_loop fuel) op buf f (serving c rest o) zeroth final
    ∙ rw (whole, silent, append-nil o, append-nil f.payload) refl
read_loop-Continues (suc fuel) op buf _ c rest o (Continues.piece f fs lawful zeroth more cont) room
      enough =
    let (joined, silent) = data_of-data f fs zeroth in
    let size = length-data_of f fs zeroth in
    let fits = fits-some op buf (length f.payload) (omega (arith, size)) in
    let buf' = buf ++ f.payload in
    read_loop-frame fuel (some (op, buf)) f c (wires fs) rest o lawful fits
    ∙ on_frame-piece (read_loop fuel) op buf f (serving c (wires fs ++ rest) o) zeroth more
    ∙ read_loop-Continues fuel op buf' fs c rest o cont
        (omega (arith, size, length-append buf f.payload)) (omega arith)
    ∙ rw (joined, silent, append_assoc buf f.payload (data_of fs)) refl
read_loop-Continues (suc fuel) op buf _ c rest o (Continues.aside f fs lawful which cont) room
      enough =
    let same = data_of-aside f fs which in
    let fits = fits-some op buf (length f.payload) (omega (arith, short f lawful which)) in
    ap (λ w. read_loop (suc fuel) (some (op, buf)) (serving c w o))
      (append_assoc (wire true f) (wires fs) rest)
    ∙ read_loop-aside fuel (some (op, buf)) f c (wires fs ++ rest) o lawful which fits
    ∙ read_loop-Continues fuel op buf fs c rest (o ++ pongs (f ∷ [])) cont
        (omega (arith, ap length same)) (omega arith)
    ∙ rw (same, append_assoc o (pongs (f ∷ [])) (pongs fs), pongs-aside f fs which) refl

-- A text or a binary message.
abbrev pub IsMessage : ℕ → Type 0
IsMessage op = (op ≡ op_text) ⊎ (op ≡ op_binary)

on_frame-whole :
    (next : Assembling → R (ℕ × List ℕ)) (op : ℕ) (f : WireFrame) (d : Conn)
    → IsMessage op
    → f.op ≡ op
    → f.final ≡ true
    → on_frame next none (head_of true f, f.payload) d ≡ (d, ok (op, f.payload ++ []))
unfolding on_frame on_data is_control_opcode
on_frame-whole next op f d (inl text) same final =
    rw (on_frame, on_data, same, text, final, append-nil f.payload) refl
on_frame-whole next op f d (inr binary) same final =
    rw (on_frame, on_data, same, binary, final, append-nil f.payload) refl

on_frame-opening :
    (next : Assembling → R (ℕ × List ℕ)) (op : ℕ) (f : WireFrame) (d : Conn)
    → IsMessage op
    → f.op ≡ op
    → f.final ≡ false
    → on_frame next none (head_of true f, f.payload) d ≡ next (some (op, f.payload)) d
unfolding on_frame on_data is_control_opcode
on_frame-opening next op f d (inl text) same more = rw (on_frame, on_data, same, text, more) refl
on_frame-opening next op f d (inr binary) same more =
    rw (on_frame, on_data, same, binary, more) refl

data_of-first :
    (op : ℕ) (f : WireFrame) (fs : List WireFrame)
    → IsMessage op
    → f.op ≡ op
    → (data_of (f ∷ fs) ≡ f.payload ++ data_of fs) × (pongs (f ∷ fs) ≡ pongs fs)
unfolding is_control_opcode
data_of-first op f fs (inl text) same = rw (data_of, same, text) (refl, refl)
data_of-first op f fs (inr binary) same = rw (data_of, same, binary) (refl, refl)

read_loop-Spells :
    (fuel op : ℕ) (fs : List WireFrame) (c : Conn) (rest o : List ℕ)
    → IsMessage op
    → Spells op fs
    → HasRoom [] fs
    → length fs ≤ fuel
    → read_loop fuel none (serving c (wires fs ++ rest) o)
      ≡ (serving c rest (o ++ pongs fs), ok (op, data_of fs))
read_loop-Spells zero op _ c rest o kind (Spells.whole f lawful same final) room enough =
    absurd (omega arith)
read_loop-Spells zero op _ c rest o kind (Spells.opening f fs lawful same more cont) room enough =
    absurd (omega arith)
read_loop-Spells zero op _ c rest o kind (Spells.before f fs lawful which spelled) room enough =
    absurd (omega arith)
read_loop-Spells (suc fuel) op _ c rest o kind (Spells.whole f lawful same final) room enough =
    let (joined, silent) = data_of-first op f [] kind same in
    read_loop-frame fuel none f c [] rest o lawful refl
    ∙ on_frame-whole (read_loop fuel) op f (serving c rest o) kind same final
    ∙ rw (joined, silent, append-nil o) refl
read_loop-Spells (suc fuel) op _ c rest o kind (Spells.opening f fs lawful same more cont) room
      enough =
    let (joined, silent) = data_of-first op f fs kind same in
    let size = ap length joined ∙ length-append f.payload (data_of fs) in
    read_loop-frame fuel none f c (wires fs) rest o lawful refl
    ∙ on_frame-opening (read_loop fuel) op f (serving c (wires fs ++ rest) o) kind same more
    ∙ read_loop-Continues fuel op f.payload fs c rest o cont (omega (arith, size)) (omega arith)
    ∙ rw (joined, silent) refl
read_loop-Spells (suc fuel) op _ c rest o kind (Spells.before f fs lawful which spelled) room
      enough =
    let same = data_of-aside f fs which in
    ap (λ w. read_loop (suc fuel) none (serving c w o)) (append_assoc (wire true f) (wires fs) rest)
    ∙ read_loop-aside fuel none f c (wires fs ++ rest) o lawful which refl
    ∙ read_loop-Spells fuel op fs c rest (o ++ pongs (f ∷ [])) kind spelled
        (omega (arith, ap length same)) (omega arith)
    ∙ rw (same, append_assoc o (pongs (f ∷ [])) (pongs fs), pongs-aside f fs which) refl

length-wires : (fs : List WireFrame) (rest : List ℕ) → length fs ≤ length (wires fs ++ rest)
length-wires [] rest = omega arith
length-wires (f ∷ fs) rest =
    let ih = length-wires fs rest in
    let tail = length-append (wires fs) rest in
    let all = length-append (wire true f ++ wires fs) rest in
    let both = length-append (wire true f) (wires fs) in omega (arith, ih, tail, all, both)

-- Lawful masked frames that spell a text or binary message, in one piece or in fragments with pings
-- and pongs between them, whose data leave the room of one control frame below the size limit: a
-- server whose connection is open and takes writes returns the type and the joined data, has sent
-- one pong with the same payload for every ping, in order, and leaves what follows unread.
pub read_message-Spells :
    (op : ℕ) (fs : List WireFrame) (c : Conn) (rest o : List ℕ)
    → IsMessage op
    → Spells op fs
    → length (data_of fs) + 125 ≤ max_message_size
    → read_message (serving c (wires fs ++ rest) o)
      ≡ (serving c rest (o ++ pongs fs), ok (op, data_of fs))
unfolding read_message
read_message-Spells op fs c rest o kind spelled room =
    read_loop-Spells (suc (length (wires fs ++ rest))) op fs c rest o kind spelled (omega arith)
      (omega (arith, length-wires fs rest))
