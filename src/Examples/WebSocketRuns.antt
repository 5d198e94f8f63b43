-- ===== src/Examples/WebSocketRuns.antt =====
-- Runs of internal/network.
use omni_schema.Prelude.{ℕ, ◌≡◌, refl, arith, inl, Bool, true, false}
use omni_schema.Prelude.{List, [], ◌∷◌, ◌++◌, none}
use omni_schema.Prelude.{length}
use omni_schema.Prelude.Bytes.{codes, from_big_endian, valid_utf8}
use omni_schema.Network.WebSocket.{handle_close_frame, validate_close_payload, valid_close_code}
use omni_schema.Network.WebSocket.Handshake.{unclosed, answered, answer, handle_close_frame-answer}
use omni_schema.Prelude.Result.{ok}
use omni_schema.Network.WebSocket.{Conn, is_known_opcode, is_control_opcode, write_message}
use omni_schema.Network.WebSocket.Read.{read_message}
use omni_schema.Network.WebSocket.Frames.{awaiting, WireFrame, IsLawful}
use omni_schema.Network.WebSocket.Assembly.{serving, wires, data_of, pongs, Continues, Spells}
use omni_schema.Network.WebSocket.Message.{read_message-Spells}
use omni_schema.Network.WebSocket.Exchange.{read_message-write_message}
use omni_schema.Network.WebSocket.Closed.{Fair}
use omni_schema.Network.WebSocket.Delivery.{Delivered, read_message-Delivered}

abbrev end_of : Bool → Conn
end_of client = record {
  client = client;
  closed = false;
  close_sent = false;
  incoming = [];
  outgoing = [];
  random = 17 ∷ 34 ∷ 51 ∷ 68 ∷ [];
  write_fails = false;
  close_fails = false;
}

abbrev frame : Bool → ℕ → List ℕ → WireFrame
frame final op payload = record {
  final = final;
  op = op;
  payload = payload;
  key = 1 ∷ 2 ∷ 3 ∷ 4 ∷ [];
}

read_message-write_message_example :
    (bytes : List ℕ) × ((write_message 1 (codes "hi") (end_of true)).0.outgoing ≡ [] ++ bytes)
    × ((write_message 1 (codes "hi") (end_of true)).1 ≡ none)
    × (read_message (awaiting (end_of false) (bytes ++ (129 ∷ [])))
        ≡ (awaiting (end_of false) (129 ∷ []), ok (1, codes "hi")))
read_message-write_message_example =
    read_message-write_message 1 (codes "hi") (end_of true) (end_of false) (129 ∷ []) (inl refl)
      (omega arith) refl refl (omega arith) refl

-- "h" and "i", with a ping between them.
abbrev three_frames : List WireFrame
three_frames = frame false 1 (codes "h") ∷ frame true 9 (codes "?") ∷ frame true 0 (codes "i") ∷ []

opening-IsLawful : IsLawful (frame false 1 (codes "h"))
unfolding is_known_opcode is_control_opcode
opening-IsLawful = (refl, omega arith, λ control. absurd (cc), omega arith, refl)

ping-IsLawful : IsLawful (frame true 9 (codes "?"))
unfolding is_known_opcode is_control_opcode
ping-IsLawful = (refl, omega arith, λ control. (refl, omega arith), omega arith, refl)

last-IsLawful : IsLawful (frame true 0 (codes "i"))
unfolding is_known_opcode is_control_opcode
last-IsLawful = (refl, omega arith, λ control. absurd (cc), omega arith, refl)

read_message-Spells_example :
    read_message (serving (end_of false) (wires three_frames ++ []) [])
    ≡ (serving (end_of false) [] ([] ++ pongs three_frames), ok (1, data_of three_frames))
unfolding is_control_opcode
read_message-Spells_example =
    read_message-Spells 1 three_frames (end_of false) [] [] (inl refl)
      (Spells.opening _ _ opening-IsLawful refl refl
        (Continues.aside _ _ ping-IsLawful (inl refl) (Continues.ended _ last-IsLawful refl refl)))
      (omega arith)

read_message-Delivered_example :
    Fair Delivered 0
      (awaiting (end_of false) (129 ∷ 2 ∷ []))
      (read_message (awaiting (end_of false) (129 ∷ 2 ∷ [])))
read_message-Delivered_example = read_message-Delivered (awaiting (end_of false) (129 ∷ 2 ∷ []))

handle_close_frame-answer_example :
    handle_close_frame (3 ∷ 233 ∷ 98 ∷ []) (unclosed (end_of false) [] [])
    ≡ answered
        (end_of false)
        []
        []
        (length (answer (3 ∷ 233 ∷ 98 ∷ [])))
        (answer (3 ∷ 233 ∷ 98 ∷ []))
unfolding validate_close_payload from_big_endian valid_close_code valid_utf8
handle_close_frame-answer_example =
    handle_close_frame-answer (3 ∷ 233 ∷ 98 ∷ []) (end_of false) [] [] refl (omega arith)
      (omega arith, (omega arith, (omega arith, tt)))
