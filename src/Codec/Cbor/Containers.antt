-- ===== src/Codec/Cbor/Containers.antt =====
-- internal/codec/cbor.go: the loops over the items of an array and the fields of a map, read back
-- with the budget of the encoder and the item count of the parser in step.
use omni_schema.Prelude.{ℕ, zero, suc, ◌+◌, ◌*◌, ◌-◌, ◌^◌, ◌≤◌, ◌<◌, ◌≡◌, refl, sym, ap, ◌∙◌, arith}
use omni_schema.Prelude.{true, false, not, List, [], ◌∷◌, ◌++◌, length, length-append, append-nil}
use omni_schema.Prelude.{append_assoc, All}
use omni_schema.Prelude.Bytes.{Text, valid_utf8, mem_text, decimal}
use omni_schema.Prelude.Result.{ok, >>=-ok, ok-injective, guard, guard-ok}
use omni_schema.Uir.Types.{UirType}
use omni_schema.Uir.Node.{Any, Node, Nodes, new_node}
use omni_schema.Codec.Cbor.{CborError, cbor_max_items}
use omni_schema.Codec.Cbor.Encode.{
  Encoder, Field, cbor_head, spend, encode_fields, encode_items, count,
}
use omni_schema.Codec.Cbor.Decode.{Parser, P, Reader, bind-ok, check, read_items, read_pairs}
use omni_schema.Codec.Cbor.Decode.{key_text, text_of}
use omni_schema.Codec.Cbor.Decoded.{IsGoNode, IsGoNodes, decoded_items, decoded_fields}
use omni_schema.Codec.Cbor.Fields.{GoField, DistinctFields, Unseen, Unseen-cons}

-- `rd` takes the bytes `out` for `a`, and uses as much of the item count as the budget that the
-- encoder spent, from `b` down to `b'`.
abbrev pub Reads : {A : Type 0} → P A → List ℕ → A → ℕ → ℕ → Type 0
Reads rd out a b b' =
    (rest : List ℕ) (i i' : ℕ)
    → i + b ≡ cbor_max_items
    → i' + b' ≡ cbor_max_items
    → rd (record { rest = out ++ rest; items = i }) ≡ ok (a, record { rest = rest; items = i' })

-- A text key in front of a value is read as such, for one item.
abbrev pub ReadsKeys : Reader → Type 0
ReadsKeys rd =
    (dst : List ℕ) (k : Text)
    → valid_utf8 k ≡ true
    → length k < 2 ^ 63
    → (out : List ℕ) × (cbor_head dst 3 (length k) ++ k ≡ dst ++ out)
      × (1 ≤ length out)
      × ((b : ℕ) → Reads (rd []) out (new_node UirType.string [] (Any.text k)) (suc b) b)

-- What `rec` writes of one node, `rd` reads back as `dec` says.
abbrev pub RoundTrips : Encoder → Reader → (Text → Node → Node) → Type 0
RoundTrips rec rd dec =
    (dst : List ℕ) (n : Node) (b : ℕ) (final : List ℕ) (b' : ℕ)
    → IsGoNode n
    → rec dst n b ≡ ok (final, b')
    → (out : List ℕ) × (final ≡ dst ++ out)
      × (1 ≤ length out)
      × (suc b' ≤ b)
      × ((key : Text) → Reads (rd key) out (dec key n) b b')
      × ReadsKeys rd

-- A loop that writes nothing.
pub same_state :
    (b b' : ℕ) (i i' : ℕ) → b ≡ b' → i + b ≡ cbor_max_items → i' + b' ≡ cbor_max_items → i ≡ i'
same_state b b' i i' e h k = omega arith

pub pair-eq :
    {a a' : List ℕ} {b b' : ℕ} → ◌≡◌ {A = List ℕ × ℕ} (a, b) (a', b') → (a ≡ a') × (b ≡ b')
pair-eq e = (ap (λ (p : List ℕ × ℕ). p.0) e, ap (λ (p : List ℕ × ℕ). p.1) e)

fields_end :
    (dst a b c keyed d final : List ℕ)
    → keyed ≡ dst ++ a
    → d ≡ keyed ++ b
    → final ≡ d ++ c
    → final ≡ dst ++ (a ++ (b ++ c))
fields_end dst a b c keyed d final p q r =
    r ∙ rw (q, p) (append_assoc (dst ++ a) b c ∙ append_assoc dst a (b ++ c))

module _ (rec : Encoder) (rd : Reader) (dec : Text → Node → Node)
    (trip : RoundTrips rec rd dec) where
  pub encode_items-Reads :
      (dst : List ℕ) (ns : Nodes) (b : ℕ) (final : List ℕ) (b' : ℕ)
      → IsGoNodes ns
      → encode_items rec dst ns b ≡ ok (final, b')
      → (out : List ℕ) × (final ≡ dst ++ out)
        × (count ns ≤ length out)
        × (b' + count ns ≤ b)
        × ((j : ℕ) → Reads (read_items rd (count ns) j) out (decoded_items dec ns j) b b')
  unfolding encode_items IsGoNodes read_items decoded_items
  encode_items-Reads dst Nodes.none b final b' g e =
      let same = pair-eq (ok-injective e) in
      (
        [],
        sym same.0 ∙ sym (append-nil dst),
        omega arith,
        omega (arith, same.1),
        λ j rest i i' h k.
            ap (λ (t : ℕ). ok (Nodes.none, record { rest = rest; items = t }))
              (same_state b b' i i' same.1 h k),
      )
  encode_items-Reads dst (Nodes.more n ns) b final b' g e =
      let ((d, b₁), first, later) = >>=-ok (rec dst n b) _ e in
      let (out₁, end₁, long₁, less₁, reads₁, _) = trip dst n b d b₁ g.0 first in
      let (out₂, end₂, long₂, less₂, reads₂) = encode_items-Reads d ns b₁ final b' g.1 later in
      (
        out₁ ++ out₂,
        end₂ ∙ ap (λ (t : List ℕ). t ++ out₂) end₁ ∙ append_assoc dst out₁ out₂,
        omega (arith, length-append out₁ out₂),
        omega arith,
        λ j rest i i' h k.
            let mid : cbor_max_items - b₁ + b₁ ≡ cbor_max_items = omega arith in
            rw (append_assoc out₁ out₂ rest) (
              bind-ok (rd (decimal j)) _ _
                (reads₁ (decimal j) (out₂ ++ rest) i (cbor_max_items - b₁) h mid)
              ∙ bind-ok (read_items rd (count ns) (j + 1)) _ _
                  (reads₂ (j + 1) rest (cbor_max_items - b₁) i' mid k)),
      )

key_text-string :
    (k : Text) (p : Parser) → key_text (new_node UirType.string [] (Any.text k)) p ≡ ok (k, p)
unfolding key_text text_of new_node
key_text-string k p = refl

check-fresh :
    (k : Text) (seen : List Text) (p : Parser)
    → mem_text k seen ≡ false
    → check (not (mem_text k seen)) CborError.duplicate_key p ≡ ok (tt, p)
check-fresh k seen p h = rw h

module _ (rec : Encoder) (rd : Reader) (dec : Text → Node → Node)
    (trip : RoundTrips rec rd dec) where
  pub encode_fields-Reads :
      (dst : List ℕ) (fs : List Field) (b : ℕ) (final : List ℕ) (b' : ℕ)
      → All GoField fs
      → encode_fields rec dst fs b ≡ ok (final, b')
      → (out : List ℕ) × (final ≡ dst ++ out)
        × (2 * length fs ≤ length out)
        × (b' + 2 * length fs ≤ b)
        × ((seen : List Text)
            → DistinctFields fs
            → Unseen seen fs
            → Reads (read_pairs rd (length fs) seen) out (decoded_fields dec fs) b b')
  unfolding encode_fields read_pairs decoded_fields spend
  encode_fields-Reads dst [] b final b' g e =
      let same = pair-eq (ok-injective e) in
      (
        [],
        sym same.0 ∙ sym (append-nil dst),
        omega arith,
        omega (arith, same.1),
        λ seen d u rest i i' h k.
            ap (λ (t : ℕ). ok (Nodes.none, record { rest = rest; items = t }))
              (same_state b b' i i' same.1 h k),
      )
  encode_fields-Reads dst ((key, n) ∷ fs) zero final b' g e = cc
  encode_fields-Reads dst ((key, n) ∷ fs) (suc b) final b' g e =
      let (_, valid, run) = >>=-ok (guard (valid_utf8 key) CborError.invalid_key) _ e in
      let keyed = cbor_head dst 3 (length key) ++ key in
      let ((d, b₁), first, later) = >>=-ok (rec keyed n b) _ run in
      let (out₁, end₁, long₁, less₁, reads₁, keys) = trip keyed n b d b₁ g.0.1 first in
      let (out₀, end₀, long₀, reads₀) = keys dst key (guard-ok _ _ valid) g.0.0 in
      let (out₂, end₂, long₂, less₂, reads₂) = encode_fields-Reads d fs b₁ final b' g.1 later in
      (
        out₀ ++ (out₁ ++ out₂),
        fields_end dst out₀ out₁ out₂ keyed d final end₀ end₁ end₂,
        omega (arith, length-append out₀ (out₁ ++ out₂), length-append out₁ out₂),
        omega arith,
        λ seen u v rest i i' h k.
            let i₀ : suc i + b ≡ cbor_max_items = omega arith in
            let i₁ : cbor_max_items - b₁ + b₁ ≡ cbor_max_items = omega arith in
            rw (append_assoc out₀ (out₁ ++ out₂) rest, append_assoc out₁ out₂ rest)
              (bind-ok (rd []) _ _ (reads₀ b (out₁ ++ (out₂ ++ rest)) i (suc i) h i₀)
                ∙ bind-ok (key_text _) _ _ (key_text-string key _)
                ∙ bind-ok (check _ _) _ _ (check-fresh key seen _ v.0)
                ∙ bind-ok (rd key) _ _
                    (reads₁ key (out₂ ++ rest) (suc i) (cbor_max_items - b₁) i₀ i₁)
                ∙ bind-ok (read_pairs rd (length fs) (key ∷ seen)) _ _ (
                    reads₂ (key ∷ seen) u.1 (Unseen-cons key seen fs u.0 v.1) rest
                      (cbor_max_items - b₁) i' i₁ k)),
      )
