-- ===== src/Uir/Coerce/Bytes.antt =====
-- internal/uir/project.go: bytesToText and coerceBytes are inverse on the text of bytes.
use omni_schema.Prelude.{ℕ, ◌+◌, ◌*◌, ◌/◌, ◌%◌, ◌<◌, ◌≡◌, refl, ap, false, arith}
use omni_schema.Prelude.{some, List, [], ◌∷◌, All, ◌==◌, ◌||◌}
use omni_schema.Prelude.Bytes.{Text, IsByte}
use omni_schema.Prelude.Result.{ok}
use omni_schema.Uir.Types.{UirType}
use omni_schema.Uir.Presence.{ConversionKind, ConversionReport, BytesPolicy}
use omni_schema.Uir.Node.{Any, new_node}
use omni_schema.Uir.Coerce.{Host, ProjectOptions}
use omni_schema.Uir.Coerce.Encoding.{
  hex_digit, hex_encode, hex_value, hex_pair, hex_decode, base64_digit, base64_encode, base64_value,
  base64_one, base64_two, base64_three, base64_padded, base64_quanta, without_newlines,
  base64_decode,
}
use omni_schema.Uir.Coerce.Value.{coerce_value, coerce_bytes, bytes_to_text}

hex_value-hex_digit : (n : ℕ) → n < 16 → hex_value (hex_digit n) ≡ some n
unfolding hex_value hex_digit
hex_value-hex_digit n h = ground arith

hex_decode-hex_encode : (bs : List ℕ) → All IsByte bs → hex_decode (hex_encode bs) ≡ some bs
unfolding hex_decode hex_encode hex_pair
hex_decode-hex_encode [] h = refl
hex_decode-hex_encode (b ∷ bs) (hb, hbs) =
    rw
      (
        hex_value-hex_digit (b / 16) (omega arith),
        hex_value-hex_digit (b % 16) (omega arith),
        hex_decode-hex_encode bs hbs,
      )
      (ap (λ (t : ℕ). some (t ∷ bs)) (omega arith))

base64_value-base64_digit : (n : ℕ) → n < 64 → base64_value (base64_digit n) ≡ some n
unfolding base64_value base64_digit
base64_value-base64_digit n h = ground arith

-- A digit is neither the padding nor the end of a line.
base64_digit_plain :
    (n : ℕ)
    → (base64_digit n == b'=' ≡ false)
      × (base64_digit n == b'\n' || base64_digit n == b'\r' ≡ false)
unfolding base64_digit
base64_digit_plain n = ground arith

without_newlines-base64_encode :
    (bs : List ℕ) → without_newlines (base64_encode bs) ≡ base64_encode bs
unfolding without_newlines base64_encode
without_newlines-base64_encode [] = refl
without_newlines-base64_encode (a ∷ []) =
    rw ((base64_digit_plain (a / 4)).1, (base64_digit_plain (a % 4 * 16)).1) refl
without_newlines-base64_encode (a ∷ b ∷ []) =
    rw
      (
        (base64_digit_plain (a / 4)).1,
        (base64_digit_plain (a % 4 * 16 + b / 16)).1,
        (base64_digit_plain (b % 16 * 4)).1,
      )
      refl
without_newlines-base64_encode (a ∷ b ∷ c ∷ bs) =
    rw
      (
        (base64_digit_plain (a / 4)).1,
        (base64_digit_plain (a % 4 * 16 + b / 16)).1,
        (base64_digit_plain (b % 16 * 4 + c / 64)).1,
        (base64_digit_plain (c % 64)).1,
        without_newlines-base64_encode bs,
      )
      refl

base64_quanta-base64_encode :
    (bs : List ℕ) → All IsByte bs → base64_quanta (base64_encode bs) ≡ some bs
unfolding base64_quanta base64_encode base64_three base64_two base64_one base64_padded
base64_quanta-base64_encode [] h = refl
base64_quanta-base64_encode (a ∷ []) (ha, _) =
    rw
      (
        base64_value-base64_digit (a / 4) (omega arith),
        base64_value-base64_digit (a % 4 * 16) (omega arith),
      )
      (ap (λ (t : ℕ). some (t ∷ [])) (omega arith))
base64_quanta-base64_encode (a ∷ b ∷ []) (ha, (hb, _)) =
    rw
      (
        (base64_digit_plain (b % 16 * 4)).0,
        base64_value-base64_digit (a / 4) (omega arith),
        base64_value-base64_digit (a % 4 * 16 + b / 16) (omega arith),
        base64_value-base64_digit (b % 16 * 4) (omega arith),
      )
      (ground arith)
base64_quanta-base64_encode (a ∷ b ∷ c ∷ bs) (ha, (hb, (hc, hbs))) =
    rw
      (
        (base64_digit_plain (c % 64)).0,
        base64_value-base64_digit (a / 4) (omega arith),
        base64_value-base64_digit (a % 4 * 16 + b / 16) (omega arith),
        base64_value-base64_digit (b % 16 * 4 + c / 64) (omega arith),
        base64_value-base64_digit (c % 64) (omega arith),
        base64_quanta-base64_encode bs hbs,
      )
      (ground arith)

base64_decode-base64_encode :
    (bs : List ℕ) → All IsByte bs → base64_decode (base64_encode bs) ≡ some bs
unfolding base64_decode
base64_decode-base64_encode bs h =
    rw (without_newlines-base64_encode bs) (base64_quanta-base64_encode bs h)

-- The text that a policy writes bytes as.
unfoldable pub text_of : BytesPolicy → List ℕ → Text
text_of BytesPolicy.hex b = hex_encode b
text_of _ b = base64_encode b

abbrev pub IsReject : BytesPolicy → Type 0
IsReject BytesPolicy.reject = Unit {0}
IsReject _ = ⊥

bytes_to_text-text_of :
    (host : Host) (policy : BytesPolicy) (b : List ℕ)
    → ¬ (IsReject policy)
    → bytes_to_text host (Any.bytes b) policy
      ≡ ok (Any.text (text_of policy b), ConversionKind.safe_coerce)
unfolding bytes_to_text text_of
bytes_to_text-text_of host BytesPolicy.reject b h = absurd (h tt)
bytes_to_text-text_of host _ b h = refl

coerce_bytes-text_of :
    (policy : BytesPolicy) (b : List ℕ)
    → ¬ (IsReject policy)
    → All IsByte b
    → coerce_bytes (Any.text (text_of policy b)) policy
      ≡ ok (Any.bytes b, ConversionKind.safe_coerce)
unfolding coerce_bytes text_of
coerce_bytes-text_of BytesPolicy.reject b h hb = absurd (h tt)
coerce_bytes-text_of BytesPolicy.hex b h hb = rw (coerce_bytes, hex_decode-hex_encode b hb) refl
coerce_bytes-text_of BytesPolicy.base64 b h hb =
    rw (coerce_bytes, base64_decode-base64_encode b hb) refl
coerce_bytes-text_of BytesPolicy.scalar b h hb =
    rw (coerce_bytes, base64_decode-base64_encode b hb) refl

-- Bytes that coerceValue turns into a string become the same bytes again when it turns the string
-- back, under every byte policy but reject; the report is left as it was both times.
pub coerce_value-bytes :
    (host : Host) (opt : ProjectOptions) (report : ConversionReport) (key : Text) (b : List ℕ)
    → ¬ (IsReject opt.bytes)
    → All IsByte b
    → (coerce_value host opt report (new_node UirType.bytes key (Any.bytes b)) UirType.string
        ≡ (report, ok (Any.text (text_of opt.bytes b), ConversionKind.safe_coerce)))
      × (coerce_value host opt report
            (new_node UirType.string key (Any.text (text_of opt.bytes b)))
            UirType.bytes
          ≡ (report, ok (Any.bytes b, ConversionKind.safe_coerce)))
unfolding coerce_value new_node
coerce_value-bytes host opt report key b h hb = (
  rw (bytes_to_text-text_of host opt.bytes b h) refl,
  rw (coerce_bytes-text_of opt.bytes b h hb) refl,
)
