-- ===== src/Network/WebSocket/Handshake.antt =====
-- The close handshake of internal/network/websocket.go.
use omni_schema.Prelude.{ℕ, suc, ◌+◌, ◌*◌, ◌%◌, ◌/◌, ◌≤◌, ◌<◌, ◌≡◌, refl, ap, ◌∙◌, arith}
use omni_schema.Prelude.{true, false, ltb, le→ltb_false}
use omni_schema.Prelude.{List, [], ◌∷◌, ◌++◌, length, All, Option, none}
use omni_schema.Prelude.Bytes.{Text, big_endian, from_big_endian}
use omni_schema.Network.WebSocket.{
  Conn, WsError, op_close, is_control_opcode, validate_close_payload, write_message_locked,
  send_close, shut_down, tcp_close, echo, close_with_code, handle_close_frame,
}
use omni_schema.Network.WebSocket.Assembly.{serving, short_length}

-- A server's connection that has not sent a Close frame.
abbrev pub unclosed : Conn → List ℕ → List ℕ → Conn
unclosed c w o = record (serving c w o) { close_sent = false }

write_close-serving :
    (c : Conn) (w o p : List ℕ)
    → length p ≤ 125
    → write_message_locked op_close p (record (serving c w o) { close_sent = true })
      ≡ (record (serving c w (o ++ (136 ∷ length p ∷ p))) { close_sent = true }, none)
unfolding write_message_locked is_control_opcode
write_close-serving c w o p h =
    let fits : ltb 125 (length p) ≡ false = le→ltb_false _ _ h in
    rw (write_message_locked, fits, short_length (length p) h) refl

close_with_code-serving :
    (code : ℕ) (reason : Text) (c : Conn) (w o : List ℕ)
    → length reason ≤ 123
    → close_with_code code reason (unclosed c w o) ≡ (
      record (serving c w
          (o ++ (136 ∷ suc (suc (length reason)) ∷ (big_endian 2 code ++ reason)))) {
            closed = true;
            close_sent = true;
          },
      tcp_close c,
    )
unfolding close_with_code send_close big_endian
close_with_code-serving code reason c w o h =
    ap (shut_down false (unclosed c w o))
      (write_close-serving c w o (big_endian 2 code ++ reason) (omega (arith, h)))

two_bytes :
    (a b : ℕ) → a < 256 → b < 256 → big_endian 2 (from_big_endian 0 (a ∷ b ∷ [])) ≡ a ∷ b ∷ []
unfolding big_endian from_big_endian
two_bytes a b h k =
    let hi : ((0 + a) * 256 + b) / 256 % 256 ≡ a = omega arith in
    let lo : ((0 + a) * 256 + b) / 1 % 256 ≡ b = omega arith in rw (hi, lo) refl

handle_close_frame-valid :
    (p : List ℕ) (c : Conn)
    → validate_close_payload p ≡ none
    → handle_close_frame p c ≡ close_with_code (echo p).0 (echo p).1 c
unfolding handle_close_frame
handle_close_frame-valid p c valid = rw (handle_close_frame, valid) refl

-- The connection after one Close frame and the end of the socket.
abbrev pub answered : Conn → List ℕ → List ℕ → ℕ → List ℕ → Conn × Option WsError
answered c w o n p =
    (record (serving c w (o ++ (136 ∷ n ∷ p))) { closed = true; close_sent = true }, tcp_close c)

-- The payload of the answer: 1000 where the peer gave no code.
abbrev pub answer : List ℕ → List ℕ
answer [] = 3 ∷ 232 ∷ []
answer (a ∷ bs) = a ∷ bs

-- A server that has sent no Close frame, on an open connection that takes writes, answers a valid Close
-- payload of at most 125 bytes with one Close frame, which carries the very payload, or the code 1000
-- where it is empty, and closes the connection; an error is returned only if closing the socket
-- fails.
pub handle_close_frame-answer :
    (p : List ℕ) (c : Conn) (w o : List ℕ)
    → validate_close_payload p ≡ none
    → length p ≤ 125
    → All (λ b. b < 256) p
    → handle_close_frame p (unclosed c w o) ≡ answered c w o (length (answer p)) (answer p)
unfolding handle_close_frame validate_close_payload big_endian
handle_close_frame-answer [] c w o valid short bytes =
    close_with_code-serving 1000 [] c w o (omega arith)
handle_close_frame-answer (a ∷ []) c w o valid short bytes = cc
handle_close_frame-answer (a ∷ b ∷ reason) c w o valid short (ha, (hb, rest)) =
    handle_close_frame-valid (a ∷ b ∷ reason) (unclosed c w o) valid
    ∙ close_with_code-serving (from_big_endian 0 (a ∷ b ∷ [])) reason c w o (omega (arith, short))
    ∙ ap (λ bs. answered c w o (suc (suc (length reason))) (bs ++ reason)) (two_bytes a b ha hb)
