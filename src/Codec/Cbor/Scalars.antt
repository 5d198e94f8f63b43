-- ===== src/Codec/Cbor/Scalars.antt =====
-- internal/codec/cbor.go: each scalar that appendCBOR writes, read back.
use omni_schema.Prelude.{ℕ, ◌+◌, ◌*◌, ◌%◌, ◌^◌, ◌≤◌, ◌<◌, ◌≡◌, refl, ap, ◌∙◌, arith}
use omni_schema.Prelude.{true, false, lt→ltb, le→ltb_false}
use omni_schema.Prelude.{List, [], ◌∷◌, ◌++◌, length, append_assoc}
use mathlib.Core.Path.{subst}
use native.Mathlib.Decide.{dec_lt}
use omni_schema.Prelude.Int.{ℤ, pos, negsuc, IsInt64, IsInt32}
use omni_schema.Prelude.Bytes.{Text, valid_utf8, big_endian}
use omni_schema.Prelude.Result.{Result, ok, >>=-ok, guard, guard-ok, ok-injective}
use omni_schema.Uir.Types.{UirType}
use omni_schema.Uir.Node.{Any, Node, new_node}
use omni_schema.Codec.Cbor.{CborError}
use omni_schema.Codec.Cbor.Encode.{cbor_head, cbor_signed, encode_scalar}
use omni_schema.Codec.Cbor.Decode.{Parser, Reader, bind-ok, take_bytes, read_major}
use omni_schema.Codec.Cbor.Decode.{read_body, read_text, read_simple}
use omni_schema.Codec.Cbor.Head.{info_of, argument_of, cbor_head-append, take_bytes-append}
use omni_schema.Codec.Cbor.Head.{
  read_body-cbor_head, read_body-simple, read_body-float32, read_body-float64,
}
use omni_schema.Codec.Cbor.Decoded.{IsGoAny, decoded_scalar}

-- `final` extends `dst` by bytes that `read` turns into one node, counting no further item.
abbrev pub ReadsAs : List ℕ → List ℕ → (Text → Node) → Type 0
ReadsAs dst final n =
    (out : List ℕ) × (final ≡ dst ++ out)
    × (1 ≤ length out)
    × ((rec : Reader) (key : Text) (rest : List ℕ) (i : ℕ)
        → read_body rec key (record { rest = out ++ rest; items = i })
          ≡ ok (n key, record { rest = rest; items = i }))

-- The bytes of an initial byte with its argument and what follows them.
abbrev head_bytes : ℕ → ℕ → List ℕ → List ℕ
head_bytes m v payload = (m * 32 + info_of v) ∷ (argument_of v ++ payload)

simple-ReadsAs :
    (dst : List ℕ) (info : ℕ) (n : Text → Node)
    → info < 24
    → ((rec : Reader) (key : Text) (p : Parser) → read_major rec 7 info info key p ≡ ok (n key, p))
    → ReadsAs dst (dst ++ ((224 + info) ∷ [])) n
simple-ReadsAs dst info n h k = (
  (224 + info) ∷ [],
  refl,
  omega arith,
  λ rec key rest i. read_body-simple rec key info rest i h ∙ k rec key _,
)

pub null-ReadsAs :
    (dst : List ℕ) → ReadsAs dst (dst ++ (0xf6 ∷ [])) (λ key. new_node UirType.null key Any.nil)
unfolding read_major read_simple
null-ReadsAs dst =
    simple-ReadsAs dst 22 (λ key. new_node UirType.null key Any.nil) (omega arith)
      (λ rec key p. refl)

true-ReadsAs :
    (dst : List ℕ)
    → ReadsAs dst (dst ++ (0xf5 ∷ [])) (λ key. new_node UirType.boolean key (Any.bool true))
unfolding read_major read_simple
true-ReadsAs dst = simple-ReadsAs dst 21 _ (omega arith) (λ rec key p. refl)

false-ReadsAs :
    (dst : List ℕ)
    → ReadsAs dst (dst ++ (0xf4 ∷ [])) (λ key. new_node UirType.boolean key (Any.bool false))
unfolding read_major read_simple
false-ReadsAs dst = simple-ReadsAs dst 20 _ (omega arith) (λ rec key p. refl)

-- An argument with no payload behind it.
argument-ReadsAs :
    (dst : List ℕ) (m v : ℕ) (n : Text → Node)
    → m < 8
    → v < 2 ^ 64
    → ((rec : Reader) (key : Text) (p : Parser)
        → read_major rec m (info_of v) v key p ≡ ok (n key, p))
    → ReadsAs dst (cbor_head dst m v) n
argument-ReadsAs dst m v n hm hv k = (
  (m * 32 + info_of v) ∷ argument_of v,
  cbor_head-append dst m v hm,
  omega arith,
  λ rec key rest i. read_body-cbor_head rec key m v rest i hm hv ∙ k rec key _,
)

unsigned-ReadsAs :
    (dst : List ℕ) (v : ℕ)
    → v < 2 ^ 63
    → ReadsAs dst (cbor_head dst 0 v) (λ key. new_node UirType.int64 key (Any.int64 (pos v)))
unfolding read_major
unsigned-ReadsAs dst v h =
    argument-ReadsAs dst 0 v _ (omega arith) (omega arith) (λ rec key p. rw (lt→ltb v (2 ^ 63) h))

large-ReadsAs :
    (dst : List ℕ) (v : ℕ)
    → 2 ^ 63 ≤ v
    → v < 2 ^ 64
    → ReadsAs dst (cbor_head dst 0 v) (λ key. new_node UirType.uint64 key (Any.uint64 v))
unfolding read_major
large-ReadsAs dst v h k =
    argument-ReadsAs dst 0 v _ (omega arith) k (λ rec key p. rw (le→ltb_false v (2 ^ 63) h))

negative-ReadsAs :
    (dst : List ℕ) (v : ℕ)
    → v < 2 ^ 63
    → ReadsAs dst (cbor_head dst 1 v) (λ key. new_node UirType.int64 key (Any.int64 (negsuc v)))
unfolding read_major
negative-ReadsAs dst v h =
    argument-ReadsAs dst 1 v _ (omega arith) (omega arith) (λ rec key p. rw (lt→ltb v (2 ^ 63) h))

signed-ReadsAs :
    (dst : List ℕ) (v : ℤ)
    → IsInt64 v
    → ReadsAs dst (cbor_signed dst v) (λ key. new_node UirType.int64 key (Any.int64 v))
unfolding cbor_signed
signed-ReadsAs dst (pos n) h = unsigned-ReadsAs dst n h
signed-ReadsAs dst (negsuc n) h = negative-ReadsAs dst n h

IsInt32→IsInt64 : (v : ℤ) → IsInt32 v → IsInt64 v
IsInt32→IsInt64 (pos n) h = omega arith
IsInt32→IsInt64 (negsuc n) h = omega arith

-- A payload of bytes behind its length.
payload-ReadsAs :
    (dst : List ℕ) (m : ℕ) (s : List ℕ) (n : Text → Node)
    → m < 8
    → length s < 2 ^ 63
    → ((rec : Reader) (key : Text) (rest : List ℕ) (i : ℕ)
        → read_major rec m
            (info_of (length s))
            (length s)
            key
            (record { rest = s ++ rest; items = i })
          ≡ ok (n key, record { rest = rest; items = i }))
    → ReadsAs dst (cbor_head dst m (length s) ++ s) n
payload-ReadsAs dst m s n hm hs k =
    let v = length s in
    (
      head_bytes m v s,
      ap (λ t. t ++ s) (cbor_head-append dst m v hm) ∙ append_assoc dst _ s,
      omega arith,
      λ rec key rest i.
          rw (append_assoc (argument_of v) s rest)
            (read_body-cbor_head rec key m v (s ++ rest) i hm (omega arith))
          ∙ k rec key rest i,
    )

pub text-ReadsAs :
    (dst : List ℕ) (s : Text)
    → valid_utf8 s ≡ true
    → length s < 2 ^ 63
    → ReadsAs dst
        (cbor_head dst 3 (length s) ++ s)
        (λ key. new_node UirType.string key (Any.text s))
unfolding read_major read_text
text-ReadsAs dst s u h =
    payload-ReadsAs dst 3 s _ (omega arith) h
      λ rec key rest i. bind-ok (take_bytes (length s)) _ _ (take_bytes-append s rest i) ∙ rw u

bytes-ReadsAs :
    (dst s : List ℕ)
    → length s < 2 ^ 63
    → ReadsAs dst
        (cbor_head dst 2 (length s) ++ s)
        (λ key. new_node UirType.bytes key (Any.bytes s))
unfolding read_major
bytes-ReadsAs dst s h =
    payload-ReadsAs dst 2 s _ (omega arith) h
      λ rec key rest i. bind-ok (take_bytes (length s)) _ _ (take_bytes-append s rest i)

float32-ReadsAs :
    (dst : List ℕ) (bits : ℕ)
    → bits < 2 ^ 32
    → ReadsAs dst
        (dst ++ (0xfa ∷ big_endian 4 bits))
        (λ key. new_node UirType.float32 key (Any.float32 bits))
unfolding read_major read_simple
float32-ReadsAs dst bits h = (
  0xfa ∷ big_endian 4 bits,
  refl,
  omega arith,
  λ rec key rest i. read_body-float32 rec key bits rest i h ∙ rw (low),
)
  where
    low : bits % 2 ^ 32 ≡ bits
    low = omega arith

float64-ReadsAs :
    (dst : List ℕ) (bits : ℕ)
    → bits < 2 ^ 64
    → ReadsAs dst
        (dst ++ (0xfb ∷ big_endian 8 bits))
        (λ key. new_node UirType.float64 key (Any.float64 bits))
unfolding read_major read_simple
float64-ReadsAs dst bits h = (
  0xfb ∷ big_endian 8 bits,
  refl,
  omega arith,
  λ rec key rest i. read_body-float64 rec key bits rest i h,
)

-- The output of a successful call, in place of what the call writes.
at_output :
    (dst out final : List ℕ) (n : Text → Node)
    → ◌≡◌ {A = Result CborError (List ℕ)} (ok out) (ok final)
    → ReadsAs dst out n
    → ReadsAs dst final n
at_output dst out final n e r = subst (λ f. ReadsAs dst f n) (ok-injective e) r

large_or_small :
    (dst : List ℕ) (u : ℕ)
    → u < 2 ^ 64
    → ReadsAs dst (cbor_head dst 0 u) (λ key. decoded_scalar key (Any.uint64 u))
unfolding decoded_scalar
large_or_small dst u h = elim (dec_lt u (2 ^ 63)) [
  | yes p ↦ rw (lt→ltb u (2 ^ 63) p) (unsigned-ReadsAs dst u p)
  | no p ↦ rw (le→ltb_false u (2 ^ 63) (omega arith)) (large-ReadsAs dst u (omega arith) h)
]

-- Whatever scalar the encoder accepts, the decoder reads it back.
pub encode_scalar-ReadsAs :
    (dst : List ℕ) (v : Any) (final : List ℕ)
    → IsGoAny v
    → encode_scalar dst v ≡ ok final
    → ReadsAs dst final (λ key. decoded_scalar key v)
unfolding encode_scalar decoded_scalar
encode_scalar-ReadsAs dst Any.nil final g e = at_output dst _ final _ e (null-ReadsAs dst)
encode_scalar-ReadsAs dst (Any.bool true) final g e = at_output dst _ final _ e (true-ReadsAs dst)
encode_scalar-ReadsAs dst (Any.bool false) final g e = at_output dst _ final _ e (false-ReadsAs dst)
encode_scalar-ReadsAs dst (Any.int v) final g e = at_output dst _ final _ e (signed-ReadsAs dst v g)
encode_scalar-ReadsAs dst (Any.int32 v) final g e =
    at_output dst _ final _ e (signed-ReadsAs dst v (IsInt32→IsInt64 v g))
encode_scalar-ReadsAs dst (Any.int64 v) final g e =
    at_output dst _ final _ e (signed-ReadsAs dst v g)
encode_scalar-ReadsAs dst (Any.uint32 u) final g e =
    at_output dst _ final _ e (unsigned-ReadsAs dst u (omega arith))
encode_scalar-ReadsAs dst (Any.uint64 u) final g e =
    at_output dst _ final _ e (large_or_small dst u g)
encode_scalar-ReadsAs dst (Any.float32 bits) final g e =
    at_output dst _ final _ e (float32-ReadsAs dst bits g)
encode_scalar-ReadsAs dst (Any.float64 bits) final g e =
    at_output dst _ final _ e (float64-ReadsAs dst bits g)
encode_scalar-ReadsAs dst (Any.text s) final g e =
    let (_, valid, rest) = >>=-ok (guard (valid_utf8 s) CborError.invalid_text) _ e in
    at_output dst _ final _ rest (text-ReadsAs dst s (guard-ok _ _ valid) g)
encode_scalar-ReadsAs dst (Any.bytes b) final g e =
    at_output dst _ final _ e (bytes-ReadsAs dst b g)
encode_scalar-ReadsAs dst Any.other final g e = cc
