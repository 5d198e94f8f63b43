-- ===== src/Network/WebSocket/Closed.antt =====
-- What every step of ReadMessage keeps: it only takes bytes, a refusal closes the connection, and a
-- closed connection sends nothing.
use omni_schema.Prelude.{ℕ, ◌+◌, ◌≤◌, ◌≡◌, refl, ◌∙◌, arith}
use omni_schema.Prelude.{Bool, true, false, if◌then◌else◌, ltb, ◌==◌}
use omni_schema.Prelude.{List, [], length, take, drop, Option}
use omni_schema.Prelude.{length-drop, length-take}
use omni_schema.Prelude.Bytes.{Text}
use omni_schema.Prelude.Result.{Result, ok, err}
use omni_schema.Network.WebSocket.{
  Conn, WsError, write_message_locked, write_masked, send_close, close_with_code, fail_protocol,
  fail_close, shut_down,
}
use omni_schema.Network.WebSocket.Read.{R, ◌>>=◌, continue, return, require, refuse, read_full}

-- The writer leaves the incoming bytes and the closed mark alone, and a closed connection as it is.
abbrev pub Calm : Conn → Conn × Option WsError → Type 0
Calm c (d, e) = (d.incoming ≡ c.incoming) × (d.closed ≡ c.closed) × (c.closed ≡ true → d ≡ c)

write_masked-Calm :
    (op : ℕ) (p : List ℕ) (c : Conn) → c.closed ≡ false → Calm c (write_masked op p c)
unfolding write_masked
write_masked-Calm op p c alive = ground (arith, alive)

pub write-Calm : (op : ℕ) (p : List ℕ) (c : Conn) → Calm c (write_message_locked op p c)
unfolding write_message_locked
write-Calm op p c = ground (arith, write_masked-Calm op p c)

-- A protocol error or a message too big comes with the connection closed, and no step says that the
-- fuel is used up.
abbrev pub Blamed : Conn → WsError → Type 0
Blamed d (WsError.protocol_error code reason) = d.closed ≡ true
Blamed d WsError.exceeds_max_size = d.closed ≡ true
Blamed d WsError.assembled_exceeds_max_size = d.closed ≡ true
Blamed d WsError.out_of_fuel = ⊥
Blamed d _ = Unit {0}

-- A value comes with its property and at least n bytes taken.
abbrev pub Told : {A : Type 0} → (A → Type 0) → ℕ → Conn → Conn → Result WsError A → Type 0
Told Q n c d (ok a) = Q a × (length d.incoming + n ≤ length c.incoming)
Told Q n c d (err e) = Blamed d e

-- A closed connection stays closed and sends nothing.
abbrev pub Silent : Conn → Conn → Type 0
Silent c d = c.closed ≡ true → (d.closed ≡ true) × (d.outgoing ≡ c.outgoing)

abbrev pub Fair : {A : Type 0} → (A → Type 0) → ℕ → Conn → Conn × Result WsError A → Type 0
Fair Q n c (d, r) = Silent c d × Told Q n c d r

pub Fair-return : {A : Type 0} (Q : A → Type 0) (a : A) (c : Conn) → Q a → Fair Q 0 c (return a c)
Fair-return Q a c q = (λ shut. (shut, refl), (q, omega arith))

Silent-trans : (c d e : Conn) → Silent c d → Silent d e → Silent c e
Silent-trans c d e one two shut = ((two (one shut).0).0, (two (one shut).0).1 ∙ (one shut).1)

Fair-continue :
    {A B : Type 0} (P : A → Type 0) (Q : B → Type 0) (n : ℕ) (c : Conn) (f : A → R B)
    (x : Conn × Result WsError A)
    → Fair P n c x
    → ((a : A) (d : Conn) → P a → length d.incoming + n ≤ length c.incoming → Fair Q 0 d (f a d))
    → Fair Q n c (continue f x)
Fair-continue {B = B} P Q n c f (d, ok a) (silent, (p, less)) next = moved (f a d) (next a d p less)
  where
    moved : (y : Conn × Result WsError B) → Fair Q 0 d y → Fair Q n c y
    moved (e, ok b) (still, (q, fewer)) = (Silent-trans c d e silent still, (q, omega arith))
    moved (e, err z) (still, told) = (Silent-trans c d e silent still, told)
Fair-continue P Q n c f (d, err e) (silent, told) next = (silent, told)

-- Two steps one after the other.
pub Fair-bind :
    {A B : Type 0} (P : A → Type 0) (Q : B → Type 0) (n : ℕ) (c : Conn) (m : R A) (f : A → R B)
    → Fair P n c (m c)
    → ((a : A) (d : Conn) → P a → length d.incoming + n ≤ length c.incoming → Fair Q 0 d (f a d))
    → Fair Q n c ((m >>= f) c)
unfolding ◌>>=◌
Fair-bind P Q n c m f fair next = Fair-continue P Q n c f (m c) fair next

-- CloseWithCode closes, and on a closed connection it does nothing.
pub close_with_code-closed :
    (code : ℕ) (reason : Text) (c : Conn)
    → ((close_with_code code reason c).0.closed ≡ true) × Silent c (close_with_code code reason c).0
unfolding close_with_code
close_with_code-closed code reason c = on c.closed refl (send_close code reason c)
  where
    on :
        (b : Bool)
        → c.closed ≡ b
        → (x : Conn × Option WsError)
        → ((shut_down b c x).0.closed ≡ true) × Silent c (shut_down b c x).0
    on true shut x = (shut, λ h. (shut, refl))
    on false alive x = (refl, λ h. ground (arith, alive, h))

pub Fair-require_protocol :
    (b : Bool) (reason : Text) (c : Conn)
    → Fair (λ u. b ≡ true) 0 c (require b (fail_protocol reason) c)
unfolding fail_protocol require
Fair-require_protocol true reason c = Fair-return (λ u. true ≡ true) tt c refl
Fair-require_protocol false reason c =
    let (shut, silent) = close_with_code-closed 1002 reason c in (silent, shut)

-- A size check that fails closes too.
pub Fair-require_size :
    (b : Bool) (code : ℕ) (reason : Text) (e : WsError) (c : Conn)
    → ((d : Conn) → d.closed ≡ true → Blamed d e)
    → Fair (λ u. b ≡ true) 0 c (require b (fail_close code reason e) c)
unfolding fail_close require
Fair-require_size true code reason e c blamed = Fair-return (λ u. true ≡ true) tt c refl
Fair-require_size false code reason e c blamed =
    let (shut, silent) = close_with_code-closed code reason c in
    (silent, blamed (close_with_code code reason c).0 shut)

pub Fair-refuse :
    {A : Type 0} (Q : A → Type 0) (reason : Text) (c : Conn)
    → Fair Q 0 c (refuse (fail_protocol reason) c)
unfolding fail_protocol
Fair-refuse Q reason c = let (shut, silent) = close_with_code-closed 1002 reason c in (silent, shut)

pub Fair-read_full : (n : ℕ) (c : Conn) → Fair (λ b. length b ≡ n) n c (read_full n c)
unfolding read_full
Fair-read_full n c = on (ltb (length c.incoming) n) refl
  where
    on :
        (b : Bool)
        → ltb (length c.incoming) n ≡ b
        → Fair
            (λ bs. length bs ≡ n)
            n
            c
            (if b
              then (
                record c { incoming = [] },
                err (if length c.incoming == 0 then WsError.eof else WsError.unexpected_eof),
              )
              else (record c { incoming = drop n c.incoming }, ok (take n c.incoming)))
    on true few = (λ shut. (shut, refl), ends (length c.incoming == 0))
      where
        ends :
            (z : Bool)
            → Blamed
                (record c { incoming = [] })
                (if z then WsError.eof else WsError.unexpected_eof)
        ends true = tt
        ends false = tt
    on false enough =
        let some_left : n ≤ length c.incoming = ground (arith, enough) in
        (
          λ shut. (shut, refl),
          (
            omega (arith, length-take n c.incoming, some_left),
            omega (arith, length-drop n c.incoming, some_left),
          ),
        )

-- A step that is fair wherever it starts.
pub record Fairly {A : Type 0} (Q : A → Type 0) (n : ℕ) (m : R A) : Type 0 where
  pub run : (c : Conn) → Fair Q n c (m c)

pub Fairly-bind :
    {A B : Type 0} (P : A → Type 0) (Q : B → Type 0) (n : ℕ) (m : R A) (f : A → R B)
    → Fairly P n m
    → ((a : A) → P a → Fairly Q 0 (f a))
    → Fairly Q n (m >>= f)
Fairly-bind P Q n m f fair next = record {
  run = λ c. Fair-bind P Q n c m f (fair.run c) (λ a d p less. (next a p).run d);
}
