-- ===== src/Network/WebSocket/Safety.antt =====
-- What ReadMessage never does, whatever bytes the peer sends.
use Prim.Native.Nat.{bit_or}
use omni_schema.Prelude.{ℕ, ◌≡◌, refl, ap, ◌∙◌, arith}
use omni_schema.Prelude.{Bool, true, false, ◌&&◌, if◌then◌else◌, ltb}
use omni_schema.Prelude.{List, ◌∷◌, ◌++◌, length, take, drop, Option, none, some}
use omni_schema.Network.WebSocket.{
  Conn, WsError, op_pong, is_known_opcode, is_control_opcode, write_message, write_message_locked,
  write_masked, xor_mask, length_bytes, flush,
}
use omni_schema.Network.WebSocket.Read.{
  FrameHead, split_head, Assembling, read_payload, read_masked, read_after_head, read_frame,
  pong_result, send_pong,
}
use omni_schema.Network.WebSocket.Mask.{length-xor_mask}
use omni_schema.Network.WebSocket.Closed.{
  Calm, Fair, Blamed, Fair-read_full, write-Calm, Fairly, Fairly-bind,
}
use omni_schema.Network.WebSocket.Steps.{
  Anything, check_head-Fairly, read_some, pure, read_length-Fairly, read_mask-Fairly, Sized,
  check_size-Fairly,
}

abbrev pub Taken : Assembling → FrameHead × List ℕ → Type 0
Taken a (h, p) = (is_known_opcode h.opcode ≡ true) × Sized a h.opcode (length p)

length-unmasked :
    (b : Bool) (key p : List ℕ) → length (if b then xor_mask key 0 p else p) ≡ length p
length-unmasked true key p = length-xor_mask key 0 p
length-unmasked false key p = refl

read_payload-Fairly :
    (a : Assembling) (h : FrameHead) (n : ℕ) (key : List ℕ)
    → is_known_opcode h.opcode ≡ true
    → Sized a h.opcode n
    → Fairly (Taken a) 0 (read_payload h n key)
unfolding read_payload
read_payload-Fairly a h n key known sized =
    Fairly-bind _ _ 0 _ _ (read_some n)
      (λ p size. pure (Taken a) _ (known, rw (length-unmasked h.masked key p, size) sized))

read_masked-Fairly :
    (a : Assembling) (h : FrameHead) (n : ℕ)
    → is_known_opcode h.opcode ≡ true
    → Fairly (Taken a) 0 (read_masked a h n)
unfolding read_masked
read_masked-Fairly a h n known = Fairly-bind _ _ 0 _ _ (read_mask-Fairly h.masked) (λ key t.
    Fairly-bind _ _ 0 _ _ (check_size-Fairly a h.opcode n)
      (λ u sized. read_payload-Fairly a h n key known sized))

read_after_head-Fairly : (a : Assembling) (h : FrameHead) → Fairly (Taken a) 0 (read_after_head a h)
unfolding read_after_head
read_after_head-Fairly a h = Fairly-bind _ _ 0 _ _ (check_head-Fairly h) (λ u known.
    Fairly-bind _ _ 0 _ _ (read_length-Fairly h.payload_len7)
      (λ n t. read_masked-Fairly a h n known))

pub read_frame-Fairly : (a : Assembling) → Fairly (Taken a) 2 (read_frame a)
unfolding read_frame
read_frame-Fairly a =
    Fairly-bind _ _ 2 _ _ (record { run = λ c. Fair-read_full 2 c })
      (λ header size. read_after_head-Fairly a (split_head header))

-- The errors of the writer blame nothing on the peer.
abbrev Excused : Conn × Option WsError → Type 0
Excused (d, none) = Unit {0}
Excused (d, some e) = Blamed d e

flush-Excused :
    (b : Bool) (bytes : List ℕ) (c : Conn)
    → Excused (
        if b
        then (c, some WsError.write_failed)
        else (record c { outgoing = c.outgoing ++ bytes }, none))
flush-Excused true bytes c = tt
flush-Excused false bytes c = tt

masked_if :
    (b : Bool) (c : Conn) (x : Conn × Option WsError)
    → Excused x
    → Excused (if b then (c, some WsError.random_failed) else x)
masked_if true c x h = tt
masked_if false c x h = h

write_masked-Excused : (op : ℕ) (p : List ℕ) (c : Conn) → Excused (write_masked op p c)
unfolding write_masked
write_masked-Excused op p c =
    let key = take 4 c.random in
    let header = bit_or 128 op ∷ length_bytes 128 (length p) in
    let bytes = header ++ (key ++ xor_mask key 0 p) in
    let drawn = record c { random = drop 4 c.random } in
    masked_if (ltb (length c.random) 4) c (flush bytes drawn)
      (flush-Excused c.write_fails bytes drawn)

write_if :
    (b1 b2 b3 : Bool) (c : Conn) (x y : Conn × Option WsError)
    → Excused x
    → Excused y
    → Excused (
        if b1
        then (c, some WsError.net_closed)
        else if b2
        then (c, some WsError.control_too_long)
        else if b3
        then x
        else y)
write_if true b2 b3 c x y h k = tt
write_if false true b3 c x y h k = tt
write_if false false true c x y h k = h
write_if false false false c x y h k = k

write-Excused : (op : ℕ) (p : List ℕ) (c : Conn) → Excused (write_message_locked op p c)
unfolding write_message_locked
write-Excused op p c =
    let bytes = bit_or 128 op ∷ (length_bytes 0 (length p) ++ p) in
    write_if c.closed (is_control_opcode op && ltb 125 (length p)) c.client c (write_masked op p c)
      (flush bytes c) (write_masked-Excused op p c) (flush-Excused c.write_fails bytes c)

pub send_pong-Fairly : (p : List ℕ) → Fairly Anything 0 (send_pong p)
unfolding send_pong
send_pong-Fairly p = record {
  run =
      λ c. told c (write_message op_pong p c) (write-Calm op_pong p c) (write-Excused op_pong p c);
}
  where
    told :
        (c : Conn) (x : Conn × Option WsError)
        → Calm c x
        → Excused x
        → Fair Anything 0 c (pong_result x)
    told c (d, none) (same, shut, still) excused =
        ((λ h. (shut ∙ h, ap (λ t. t.outgoing) (still h))), (tt, omega (arith, ap length same)))
    told c (d, some e) (same, shut, still) excused =
        ((λ h. (shut ∙ h, ap (λ t. t.outgoing) (still h))), excused)
