-- ===== src/Network/WebSocket/Receive.antt =====
-- How the loop of ReadMessage takes one frame off the stream.
use omni_schema.Prelude.{ℕ, ◌+◌, ◌≡◌, refl, ap, ◌∙◌, arith}
use omni_schema.Prelude.{Bool, true, false, not, if◌then◌else◌}
use omni_schema.Prelude.{List, [], ◌∷◌, ◌++◌, length, append_assoc}
use omni_schema.Prelude.Result.{ok}
use omni_schema.Network.WebSocket.{Conn, xor_mask}
use omni_schema.Network.WebSocket.Read.{
  ◌>>=◌, ◌>>◌, split_head, read_full, check_head, read_length, read_mask, Assembling, overflows,
  check_size, read_frame, read_payload, read_masked, read_after_head, return,
}
use omni_schema.Network.WebSocket.Mask.{xor_mask-xor_mask, length-xor_mask}
use omni_schema.Network.WebSocket.Frames.{
  awaiting, WireFrame, wire, IsLawful, bind-ok, read_full-append, len7, head_of, ext, bit,
  length_bytes-split, split_head-wire, check_head-lawful, read_length-ext, read_mask-wire,
  check_size-lawful,
}

-- The payload as it stands on the wire.
abbrev sent : Bool → WireFrame → List ℕ
sent m f = if m then xor_mask f.key 0 f.payload else f.payload

length-sent : (m : Bool) (f : WireFrame) → length (sent m f) ≡ length f.payload
length-sent true f = length-xor_mask f.key 0 f.payload
length-sent false f = refl

unmasked :
    (m : Bool) (f : WireFrame)
    → (if m then xor_mask (if m then f.key else []) 0 (sent m f) else sent m f) ≡ f.payload
unmasked true f = xor_mask-xor_mask f.key 0 f.payload
unmasked false f = refl

read_payload-sent :
    (m : Bool) (f : WireFrame) (rest : List ℕ) (c : Conn)
    → read_payload
        (head_of m f)
        (length f.payload)
        (if m then f.key else [])
        (awaiting c (sent m f ++ rest))
      ≡ (awaiting c rest, ok (head_of m f, f.payload))
unfolding read_payload
read_payload-sent m f rest c =
    let taken = read_full-append (sent m f) rest c in
    let exact = rw (length-sent m f) at taken in
    bind-ok (read_full (length f.payload))
      (λ p. return (head_of m f, if m then xor_mask (if m then f.key else []) 0 p else p))
      (awaiting c (sent m f ++ rest)) exact
    ∙ ap (λ p. (awaiting c rest, ok (head_of m f, p))) (unmasked m f)

wire-body :
    (m : Bool) (f : WireFrame) (rest : List ℕ)
    → wire m f ++ rest
      ≡ (bit f.final + f.op)
        ∷ (bit m + len7 (length f.payload))
        ∷ (ext (length f.payload) ++ ((if m then f.key else []) ++ (sent m f ++ rest)))
wire-body true f rest =
    rw
      (
        length_bytes-split true (length f.payload),
        append_assoc (ext (length f.payload)) (f.key ++ sent true f) rest,
        append_assoc f.key (sent true f) rest,
      )
      refl
wire-body false f rest =
    rw
      (
        length_bytes-split false (length f.payload),
        append_assoc (ext (length f.payload)) f.payload rest,
      )
      refl

read_masked-sent :
    (a : Assembling) (m : Bool) (f : WireFrame) (rest : List ℕ) (c : Conn)
    → IsLawful f
    → overflows a (length f.payload) ≡ false
    → read_masked a
        (head_of m f)
        (length f.payload)
        (awaiting c ((if m then f.key else []) ++ (sent m f ++ rest)))
      ≡ (awaiting c rest, ok (head_of m f, f.payload))
unfolding read_masked
read_masked-sent a m f rest c (known, small_op, control, small, four) fits =
    let sized =
      check_size-lawful a f.op (length f.payload) (awaiting c (sent m f ++ rest))
        (λ ctl. (control ctl).1) small fits in
    bind-ok (read_mask m)
      (λ key.
        check_size a f.op (length f.payload) >> read_payload (head_of m f) (length f.payload) key)
      (awaiting c ((if m then f.key else []) ++ (sent m f ++ rest)))
      (read_mask-wire m f.key (sent m f ++ rest) c four)
    ∙ bind-ok (check_size a f.op (length f.payload))
        (λ u. read_payload (head_of m f) (length f.payload) (if m then f.key else []))
        (awaiting c (sent m f ++ rest)) sized
    ∙ read_payload-sent m f rest c

read_after_head-wire :
    (a : Assembling) (f : WireFrame) (rest : List ℕ) (c : Conn)
    → IsLawful f
    → overflows a (length f.payload) ≡ false
    → read_after_head a (head_of (not c.client) f) (
        awaiting c (
          ext (length f.payload)
          ++ ((if not c.client then f.key else []) ++ (sent (not c.client) f ++ rest))))
      ≡ (awaiting c rest, ok (head_of (not c.client) f, f.payload))
unfolding read_after_head
read_after_head-wire a f rest c lawful fits =
    let m = not c.client in
    let tail = (if m then f.key else []) ++ (sent m f ++ rest) in
    let (known, small_op, control, small, four) = lawful in
    bind-ok (check_head (head_of m f))
      (λ u. read_length (len7 (length f.payload)) >>= λ n. read_masked a (head_of m f) n)
      (awaiting c (ext (length f.payload) ++ tail))
      (check_head-lawful (head_of m f) (awaiting c (ext (length f.payload) ++ tail)) refl known refl
        (λ ctl. ((control ctl).0, ground (arith, (control ctl).1))))
    ∙ bind-ok (read_length (len7 (length f.payload))) (λ n. read_masked a (head_of m f) n)
        (awaiting c (ext (length f.payload) ++ tail))
        (read_length-ext (length f.payload) tail c small)
    ∙ read_masked-sent a m f rest c lawful fits

-- From a peer on the other side, a lawful frame that the message has room for is taken off the
-- stream, to its last byte, and its payload comes out unmasked.
pub read_frame-wire :
    (a : Assembling) (f : WireFrame) (rest : List ℕ) (c : Conn)
    → IsLawful f
    → overflows a (length f.payload) ≡ false
    → read_frame a (awaiting c (wire (not c.client) f ++ rest))
      ≡ (awaiting c rest, ok (head_of (not c.client) f, f.payload))
unfolding read_frame
read_frame-wire a f rest c lawful fits =
    let m = not c.client in
    let tail = ext (length f.payload) ++ ((if m then f.key else []) ++ (sent m f ++ rest)) in
    let two = (bit f.final + f.op) ∷ (bit m + len7 (length f.payload)) ∷ [] in
    ap (λ w. read_frame a (awaiting c w)) (wire-body m f rest)
    ∙ bind-ok (read_full 2) (λ header. read_after_head a (split_head header))
        (awaiting c (two ++ tail)) (read_full-append two tail c)
    ∙ ap (λ h. read_after_head a h (awaiting c tail)) (split_head-wire m f lawful.1)
    ∙ read_after_head-wire a f rest c lawful fits
