-- ===== src/Codec/Cbor/Bodies.antt =====
-- internal/codec/cbor.go: a node of CBOR without its head item, and the checks of a container.
use omni_schema.Prelude.{ℕ, ◌+◌, ◌*◌, ◌-◌, ◌/◌, ◌≤◌, ◌<◌, ◌≡◌, ap, ◌∙◌, arith}
use omni_schema.Prelude.{true, false, le→ltb_false}
use omni_schema.Prelude.{List, ◌∷◌, ◌++◌, length, append_assoc}
use omni_schema.Prelude.Bytes.{Text}
use omni_schema.Prelude.Result.{ok}
use omni_schema.Uir.Node.{Node}
use omni_schema.Codec.Cbor.{cbor_max_items}
use omni_schema.Codec.Cbor.Encode.{cbor_head}
use omni_schema.Codec.Cbor.Decode.{Parser, Reader, check_container}
use omni_schema.Codec.Cbor.Decode.{read_body}
use omni_schema.Codec.Cbor.Head.{info_of, argument_of, cbor_head-append}
use omni_schema.Codec.Cbor.Scalars.{ReadsAs}
use omni_schema.Codec.Cbor.Containers.{Reads}
use omni_schema.Codec.Cbor.Containers.{same_state}

-- What the body of appendCBOR writes of one node, the body of read takes back.
abbrev pub BodyReads : Reader → List ℕ → List ℕ → (Text → Node) → ℕ → ℕ → Type 0
BodyReads rd dst final n b b' =
    (out : List ℕ) × (final ≡ dst ++ out)
    × (1 ≤ length out)
    × (b' ≤ b)
    × ((key : Text) → Reads (read_body rd key) out (n key) b b')

-- A scalar spends nothing behind its own item.
pub scalar-BodyReads :
    (rd : Reader) (dst final : List ℕ) (n : Text → Node) (b b' : ℕ)
    → b ≡ b'
    → ReadsAs dst final n
    → BodyReads rd dst final n b b'
scalar-BodyReads rd dst final n b b' e (out, end, long, reads) = (
  out,
  end,
  long,
  omega arith,
  λ key rest i i' h k.
      reads rd key rest i
      ∙ ap (λ (t : ℕ). ok (n key, record { rest = rest; items = t })) (same_state b b' i i' e h k),
)

pub container-end :
    (dst out final : List ℕ) (m v : ℕ)
    → m < 8
    → final ≡ cbor_head dst m v ++ out
    → final ≡ dst ++ ((m * 32 + info_of v) ∷ (argument_of v ++ out))
container-end dst out final m v hm e = e ∙ rw (cbor_head-append dst m v hm) (append_assoc dst _ out)

pub check_container-array :
    (v : ℕ) (p : Parser)
    → v ≤ cbor_max_items - p.items
    → v ≤ length p.rest
    → check_container false v p ≡ ok (tt, p)
unfolding check_container
check_container-array v p h k = rw (le→ltb_false _ v h, le→ltb_false _ v k)

pub check_container-map :
    (v : ℕ) (p : Parser)
    → 2 * v ≤ cbor_max_items - p.items
    → 2 * v ≤ length p.rest
    → check_container true v p ≡ ok (tt, p)
unfolding check_container
check_container-map v p h k =
    let a : v ≤ (cbor_max_items - p.items) / 2 = omega arith in
    let b : v ≤ length p.rest = omega arith in
    let c : v ≤ length p.rest / 2 = omega arith in
    rw (le→ltb_false _ v a, le→ltb_false _ v b, le→ltb_false _ v c)
