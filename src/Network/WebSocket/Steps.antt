-- ===== src/Network/WebSocket/Steps.antt =====
-- The steps of ReadMessage up to the payload, whatever bytes the peer sends.
use omni_schema.Prelude.{ℕ, ◌≤◌, ◌≡◌, arith}
use omni_schema.Prelude.{Bool, true, false, not, ◌&&◌, ◌||◌, if◌then◌else◌, ◌==◌}
use omni_schema.Prelude.{[], length}
use omni_schema.Prelude.Bytes.{Text, from_big_endian}
use omni_schema.Prelude.Result.{Result, ok, err}
use omni_schema.Network.WebSocket.{
  Conn, WsError, max_message_size, is_known_opcode, is_control_opcode, fail_protocol, fail_close,
}
use omni_schema.Network.WebSocket.Read.{
  R, ◌>>=◌, return, require, read_full, FrameHead, check_control, check_head, read_length,
  long_length, read_mask, Assembling, overflows, check_size,
}
use omni_schema.Network.WebSocket.Closed.{
  Fair, Blamed, Fair-return, Fair-require_protocol, Fair-require_size, Fair-read_full, Fairly,
  Fairly-bind,
}

abbrev pub Anything : {A : Type 0} → A → Type 0
Anything a = Unit {0}

pub Fair-weaken :
    {A : Type 0} (P Q : A → Type 0) (n : ℕ) (c : Conn) (x : Conn × Result WsError A)
    → ((a : A) → P a → Q a)
    → Fair P n c x
    → Fair Q n c x
Fair-weaken P Q n c (d, ok a) up (silent, (p, less)) = (silent, (up a p, less))
Fair-weaken P Q n c (d, err e) up (silent, told) = (silent, told)

pub require_protocol :
    (b : Bool) (reason : Text) → Fairly (λ u. b ≡ true) 0 (require b (fail_protocol reason))
require_protocol b reason = record { run = λ c. Fair-require_protocol b reason c }

pub weaken :
    {A : Type 0} (P Q : A → Type 0) (m : R A) → ((a : A) → P a → Q a) → Fairly P 0 m → Fairly Q 0 m
weaken P Q m up fair = record { run = λ c. Fair-weaken P Q 0 c (m c) up (fair.run c) }

check_control-Fairly : (h : FrameHead) → Fairly Anything 0 (check_control h)
unfolding check_control
check_control-Fairly h =
    Fairly-bind _ Anything 0 _ _ (require_protocol h.fin _)
      (λ u fin. weaken _ Anything _ (λ a p. tt) (require_protocol _ _))

require_client :
    (g : Conn → Bool) (reason : Text)
    → Fairly Anything 0 (λ c. require (g c) (fail_protocol reason) c)
require_client g reason = record {
  run = λ c. (weaken _ Anything _ (λ a p. tt) (require_protocol (g c) reason)).run c;
}

control_if :
    (b : Bool) (h : FrameHead) → Fairly Anything 0 (if b then check_control h else return tt)
control_if true h = check_control-Fairly h
control_if false h = record { run = λ c. Fair-return Anything tt c tt }

pub check_head-Fairly :
    (h : FrameHead) → Fairly (λ u. is_known_opcode h.opcode ≡ true) 0 (check_head h)
unfolding check_head
check_head-Fairly h = Fairly-bind _ _ 0 _ _ (require_protocol _ _) (λ u rsv.
    Fairly-bind _ _ 0 _ _ (require_protocol _ _) (λ u known.
      Fairly-bind Anything _ 0 _ _ (require_client (λ c. c.client || h.masked) _) (λ u t.
        Fairly-bind Anything _ 0 _ _ (require_client (λ c. not (c.client && h.masked)) _)
          (λ u t. weaken Anything _ _ (λ a t. known) (control_if (is_control_opcode h.opcode) h)))))

-- What was taken need not be said.
pub fewer :
    {A : Type 0} (Q : A → Type 0) (n : ℕ) (c : Conn) (x : Conn × Result WsError A)
    → Fair Q n c x
    → Fair Q 0 c x
fewer Q n c (d, ok a) (silent, (q, less)) = (silent, (q, omega arith))
fewer Q n c (d, err e) (silent, told) = (silent, told)

pub read_some : (n : ℕ) → Fairly (λ b. length b ≡ n) 0 (read_full n)
read_some n = record {
  run = λ c. fewer (λ b. length b ≡ n) n c (read_full n c) (Fair-read_full n c);
}

pub pure : {A : Type 0} (Q : A → Type 0) (a : A) → Q a → Fairly Q 0 (return a)
pure Q a q = record { run = λ c. Fair-return Q a c q }

pub read_length-Fairly : (len7 : ℕ) → Fairly Anything 0 (read_length len7)
unfolding read_length
read_length-Fairly len7 = on (len7 == 126) (len7 == 127)
  where
    on :
        (b d : Bool)
        → Fairly Anything 0 (
            if b
            then (do ext ← read_full 2; return (from_big_endian 0 ext))
            else if d
            then (do ext ← read_full 8; long_length ext)
            else return len7)
    on true d = Fairly-bind _ Anything 0 _ _ (read_some 2) (λ ext size. pure Anything _ tt)
    on false true = Fairly-bind _ Anything 0 _ _ (read_some 8) (λ ext size.
        Fairly-bind _ Anything 0 _ _ (require_protocol _ _) (λ u low. pure Anything _ tt))
    on false false = pure Anything len7 tt

pub read_mask-Fairly : (masked : Bool) → Fairly Anything 0 (read_mask masked)
unfolding read_mask
read_mask-Fairly true = weaken _ Anything _ (λ a p. tt) (read_some 4)
read_mask-Fairly false = pure Anything [] tt

-- What is known of a payload once it is read.
abbrev pub Sized : Assembling → ℕ → ℕ → Type 0
Sized a op n =
    (is_control_opcode op ≡ true → n ≤ 125) × (n ≤ max_message_size) × (overflows a n ≡ false)

require_size :
    (b : Bool) (code : ℕ) (reason : Text) (e : WsError)
    → ((d : Conn) → d.closed ≡ true → Blamed d e)
    → Fairly (λ u. b ≡ true) 0 (require b (fail_close code reason e))
require_size b code reason e blamed = record {
  run = λ c. Fair-require_size b code reason e c blamed;
}

pub check_size-Fairly :
    (a : Assembling) (op n : ℕ) → Fairly (λ u. Sized a op n) 0 (check_size a op n)
unfolding check_size
check_size-Fairly a op n = Fairly-bind _ _ 0 _ _ (require_protocol _ _) (λ u control.
    Fairly-bind _ _ 0 _ _ (require_size _ _ _ WsError.exceeds_max_size (λ d shut. shut)) (λ u small.
      weaken _ (λ u. Sized a op n) _
        (λ u fits. (ground (arith, control), ground (arith, small), ground (arith, fits)))
        (require_size _ _ _ WsError.assembled_exceeds_max_size (λ d shut. shut))))
