-- ===== src/Codec/Protobuf/Fuel.antt =====
-- internal/codec/protobuf.go: the length of the bytes bounds the recursion of the parser.
use omni_schema.Prelude.{ℕ, zero, suc, ◌%◌, ◌/◌, ◌^◌, ◌≤◌, ◌<◌, ◌≡◌, refl, ap, arith}
use omni_schema.Prelude.{
  Bool, true, false, List, [], ◌∷◌, length, take, drop, length-drop, length-take,
}
use omni_schema.Prelude.{ltb, leb, ◌==◌, if◌then◌else◌, ◌||◌, ◌&&◌}
use omni_schema.Prelude.Bytes.{Text, decimal}
use omni_schema.Prelude.Result.{Result, ok, err, ◌>>=◌, >>=-ok, ok-injective}
use omni_schema.Uir.Node.{Node, Nodes}
use omni_schema.Uir.Coerce.{Host}
use omni_schema.Codec.Protobuf.{ProtoError, decode_varint_from, decode_varint, fields_by_tag}
use omni_schema.Codec.Protobuf.Decode.{
  Parser, Field, decode_len_field, sized_field, read_len, read_varint, read_fixed64, read_fixed32,
  read_wire, tagged_field, read_field, parse_protobuf_message,
}
use omni_schema.Codec.Protobuf.Leaves.{key_or}

last_or_more :
    (last over : Bool) (i v w n : ℕ) (more : Result ProtoError (ℕ × ℕ))
    → (if last then (if over then err ProtoError.varint_overflow else ok (v, suc i)) else more)
      ≡ ok (w, n)
    → (more ≡ ok (w, n) → i < n)
    → i < n
last_or_more true true i v w n more e k = cc
last_or_more true false i v w n more e k =
    let same : suc i ≡ n = ap (λ (p : ℕ × ℕ). p.1) (ok-injective e) in omega arith
last_or_more false over i v w n more e k = k e

decode_varint_from-count :
    (i v : ℕ) (bs : List ℕ) (w n : ℕ) → decode_varint_from i v bs ≡ ok (w, n) → i < n
unfolding decode_varint_from
decode_varint_from-count i v [] w n e = cc
decode_varint_from-count i v (b ∷ bs) w n e =
    last_or_more (ltb b 0x80) (ltb 9 i || i == 9 && ltb 1 b) i _ w n _ e
      (λ later. omega (arith, decode_varint_from-count (suc i) _ bs w n later))

pub decode_varint-count : (bs : List ℕ) (w n : ℕ) → decode_varint bs ≡ ok (w, n) → 0 < n
unfolding decode_varint
decode_varint-count bs w n e = decode_varint_from-count 0 0 bs w n e

-- A field leaves no more bytes than it was given.
abbrev NoLonger : List ℕ → Field → Type 0
NoLonger bs f = (c : Node) (rest : List ℕ) → f ≡ ok (c, rest) → length rest ≤ length bs

rest_of : {c d : Node} {r s : List ℕ} → ◌≡◌ {A = Field} (ok (c, r)) (ok (d, s)) → r ≡ s
rest_of e = ap (λ (p : Node × List ℕ). p.1) (ok-injective e)

drop-NoLonger :
    (n : ℕ) (bs : List ℕ) (r : Result ProtoError Node) → NoLonger bs (r >>= λ c. ok (c, drop n bs))
drop-NoLonger n bs r c rest e =
    let (c', _, e') = >>=-ok r (λ c. ok (c, drop n bs)) e in
    let same = rest_of e' in rw (← same) (omega (arith, length-drop n bs))

if-NoLonger :
    (bs : List ℕ) (b : Bool) (x y : Field)
    → NoLonger bs x
    → NoLonger bs y
    → NoLonger bs (if b then x else y)
if-NoLonger bs true x y h k = h
if-NoLonger bs false x y h k = k

err-NoLonger : (bs : List ℕ) (e : ProtoError) → NoLonger bs (err e)
err-NoLonger bs e c rest h = cc

-- Fields behind the number of n bytes.
behind-NoLonger : (n : ℕ) (bs : List ℕ) (x : Field) → NoLonger (drop n bs) x → NoLonger bs x
behind-NoLonger n bs x h c rest e = omega (arith, h c rest e, length-drop n bs)

module _ (rec : Parser) (host : Host) where
  read_varint-NoLonger :
      (key : Text) (field : Node) (bs : List ℕ) → NoLonger bs (read_varint rec host key field bs)
  unfolding read_varint
  read_varint-NoLonger key field bs c rest e =
      let ((v, n), _, e') = >>=-ok (decode_varint bs) _ e in drop-NoLonger n bs _ c rest e'

  sized_field-NoLonger :
      (key : Text) (field : Node) (l : ℕ) (bs : List ℕ)
      → NoLonger bs (sized_field rec host key field l bs)
  unfolding sized_field
  sized_field-NoLonger key field l bs = if-NoLonger bs (leb (2 ^ 63) l) _ _ (err-NoLonger _ _) (
      if-NoLonger bs (ltb (length bs) l) _ _ (err-NoLonger _ _)
        (drop-NoLonger l bs (decode_len_field rec host key (take l bs) field)))

  read_len-NoLonger :
      (key : Text) (field : Node) (bs : List ℕ) → NoLonger bs (read_len rec host key field bs)
  unfolding read_len
  read_len-NoLonger key field bs c rest e =
      let ((l, n), _, e') = >>=-ok (decode_varint bs) _ e in
      behind-NoLonger n bs _ (sized_field-NoLonger key field l (drop n bs)) c rest e'

  read_wire-NoLonger :
      (wire : ℕ) (key : Text) (field : Node) (bs : List ℕ)
      → NoLonger bs (read_wire rec host wire key field bs)
  unfolding read_wire read_fixed64 read_fixed32
  read_wire-NoLonger wire key field bs =
      if-NoLonger bs (wire == 0) _ _ (read_varint-NoLonger key field bs) (
        if-NoLonger bs (wire == 1) _ _
          (if-NoLonger bs (ltb (length bs) 8) _ _ (err-NoLonger bs _) (drop-NoLonger 8 bs (ok _)))
          (if-NoLonger bs (wire == 2) _ _ (read_len-NoLonger key field bs) (
            if-NoLonger bs (wire == 5) _ _
              (if-NoLonger bs (ltb (length bs) 4) _ _ (err-NoLonger bs _)
                (drop-NoLonger 4 bs (ok _)))
              (err-NoLonger bs _))))

  tagged_field-NoLonger :
      (schema : Node) (t : ℕ) (bs : List ℕ) → NoLonger bs (tagged_field rec host schema t bs)
  unfolding tagged_field
  tagged_field-NoLonger schema t bs =
      let field = fields_by_tag schema (t / 8) in
      read_wire-NoLonger (t % 8) (key_or (decimal (t / 8)) field) field bs

  -- A round of the loop takes a byte at least.
  pub read_field-shorter :
      (schema : Node) (b : ℕ) (bs : List ℕ) (c : Node) (rest : List ℕ)
      → read_field rec host schema (b ∷ bs) ≡ ok (c, rest)
      → length rest ≤ length bs
  unfolding read_field
  read_field-shorter schema b bs c rest e =
      let ((t, n), read, e') = >>=-ok (decode_varint (b ∷ bs)) _ e in
      omega (
        arith,
        decode_varint-count (b ∷ bs) t n read,
        length-drop n (b ∷ bs),
        tagged_field-NoLonger schema t (drop n (b ∷ bs)) c rest e',
      )

-- Two parsers that agree on what is shorter than some bytes.
abbrev pub Agree : Parser → Parser → ℕ → Type 0
Agree rec rec' l = (schema : Node) (bs : List ℕ) → length bs ≤ l → rec schema bs ≡ rec' schema bs

>>=-same :
    {A B : Type 0} (r : Result ProtoError A) (k k' : A → Result ProtoError B)
    → ((a : A) → r ≡ ok a → k a ≡ k' a)
    → (r >>= k) ≡ (r >>= k')
>>=-same (ok a) k k' h = h a refl
>>=-same (err e) k k' h = refl

module _ (rec rec' : Parser) (host : Host) (l : ℕ) (agree : Agree rec rec' l) where
  decode_len_field-Agree :
      (key : Text) (chunk : List ℕ) (field : Node)
      → length chunk ≤ l
      → decode_len_field rec host key chunk field ≡ decode_len_field rec' host key chunk field
  unfolding decode_len_field
  decode_len_field-Agree key chunk field h = rw (agree field chunk h, agree Node.nil chunk h) refl

  sized_field-Agree :
      (key : Text) (field : Node) (n : ℕ) (bs : List ℕ)
      → length bs ≤ l
      → sized_field rec host key field n bs ≡ sized_field rec' host key field n bs
  unfolding sized_field
  sized_field-Agree key field n bs h =
      let chunk = decode_len_field-Agree key (take n bs) field (omega (arith, length-take n bs)) in
      rw chunk refl

  read_len-Agree :
      (key : Text) (field : Node) (bs : List ℕ)
      → length bs ≤ l
      → read_len rec host key field bs ≡ read_len rec' host key field bs
  unfolding read_len
  read_len-Agree key field bs h =
      >>=-same (decode_varint bs) _ _
        (λ (n, k) e. sized_field-Agree key field n (drop k bs) (omega (arith, length-drop k bs)))

  read_wire-Agree :
      (wire : ℕ) (key : Text) (field : Node) (bs : List ℕ)
      → length bs ≤ l
      → read_wire rec host wire key field bs ≡ read_wire rec' host wire key field bs
  unfolding read_wire read_varint read_fixed64 read_fixed32
  read_wire-Agree wire key field bs h = rw (read_len-Agree key field bs h) refl

  tagged_field-Agree :
      (schema : Node) (t : ℕ) (bs : List ℕ)
      → length bs ≤ l
      → tagged_field rec host schema t bs ≡ tagged_field rec' host schema t bs
  unfolding tagged_field
  tagged_field-Agree schema t bs h =
      let field = fields_by_tag schema (t / 8) in
      read_wire-Agree (t % 8) (key_or (decimal (t / 8)) field) field bs h

  read_field-Agree :
      (schema : Node) (bs : List ℕ)
      → length bs ≤ suc l
      → read_field rec host schema bs ≡ read_field rec' host schema bs
  unfolding read_field
  read_field-Agree schema bs h = >>=-same (decode_varint bs) _ _ (λ (t, n) e.
      tagged_field-Agree schema t (drop n bs)
        (omega (arith, length-drop n bs, decode_varint-count bs t n e)))

pub parse_fuel :
    (f g : ℕ) (host : Host) (schema : Node) (bs : List ℕ)
    → length bs ≤ f
    → length bs ≤ g
    → parse_protobuf_message f host schema bs ≡ parse_protobuf_message g host schema bs
unfolding parse_protobuf_message
parse_fuel zero zero host schema bs h k = refl
parse_fuel zero (suc g) host schema [] h k = refl
parse_fuel zero (suc g) host schema (b ∷ bs) h k = absurd (omega arith)
parse_fuel (suc f) zero host schema [] h k = refl
parse_fuel (suc f) zero host schema (b ∷ bs) h k = absurd (omega arith)
parse_fuel (suc f) (suc g) host schema [] h k = refl
parse_fuel (suc f) (suc g) host schema (b ∷ bs) h k =
    rw
      (read_field-Agree (parse_protobuf_message f host) (parse_protobuf_message g host) host
        (length bs) (λ schema cs l. parse_fuel f g host schema cs (omega arith) (omega arith))
        schema (b ∷ bs) (omega arith))
      (>>=-same (read_field (parse_protobuf_message g host) host schema (b ∷ bs)) _ _
        (λ (c, rest) e.
          let shorter =
            read_field-shorter (parse_protobuf_message g host) host schema b bs c rest e in
          ap (λ r. r >>= λ children. ok (Nodes.more c children))
            (parse_fuel f g host schema rest (omega arith) (omega arith))))
