-- ===== src/Codec/Cbor/RoundTrip.antt =====
-- internal/codec/cbor.go: ParseCBOR reads back what GenerateCBOR wrote.
use mathlib.Core.Path.{subst}
use omni_schema.Prelude.{ℕ, zero, suc, ◌+◌, ◌*◌, ◌-◌, ◌≤◌, ◌≡◌, refl, sym, ap, ◌∙◌, arith}
use omni_schema.Prelude.{true, false, ◌||◌, le→ltb_false, Bool-cases, inl, inr}
use omni_schema.Prelude.{List, [], ◌∷◌, ◌++◌, length, length-append, append-nil, append_assoc, All}
use omni_schema.Prelude.Bytes.{Text, codes}
use omni_schema.Prelude.Result.{Result, ok, ◌>>=◌, >>=-ok, ok-injective}
use omni_schema.Uir.Types.{UirType, type_eq}
use omni_schema.Uir.Node.{Any, Node, Nodes, new_node, set_annotation}
use omni_schema.Codec.Cbor.{CborError, cbor_max_items, cbor_max_depth}
use omni_schema.Codec.Cbor.Encode.{
  Encoder, Field, cbor_head, spend, collect, encode_fields, encode_items,
}
use omni_schema.Codec.Cbor.Encode.{
  encode_scalar, encode_node, append_cbor, generate_cbor, count, is_null,
}
use omni_schema.Codec.Cbor.Encode.{sort_fields}
use omni_schema.Codec.Cbor.Decode.{Reader, bind-ok, tick, check_container, read_items}
use omni_schema.Codec.Cbor.Decode.{
  read_pairs, read_major, read_body, read_cbor, parse_cbor, array_node,
}
use omni_schema.Codec.Cbor.Decode.{map_node}
use omni_schema.Codec.Cbor.Head.{info_of, argument_of, read_body-cbor_head}
use omni_schema.Codec.Cbor.Decoded.{IsGoNode, IsGoNodes, decoded_node, decoded, decoded_items}
use omni_schema.Codec.Cbor.Decoded.{decoded_fields, decoded_scalar, kept}
use omni_schema.Codec.Cbor.Scalars.{ReadsAs, null-ReadsAs, text-ReadsAs, encode_scalar-ReadsAs}
use omni_schema.Codec.Cbor.Fields.{GoField, DistinctFields, All-sort_fields, length-sort_fields}
use omni_schema.Codec.Cbor.Fields.{
  DistinctFields-sort_fields, Unseen-nil, collect-kept, kept-GoField,
}
use omni_schema.Codec.Cbor.Containers.{Reads, ReadsKeys, RoundTrips, encode_items-Reads}
use omni_schema.Codec.Cbor.Containers.{encode_fields-Reads, pair-eq, same_state}
use omni_schema.Codec.Cbor.Bodies.{
  BodyReads, scalar-BodyReads, container-end, check_container-array, check_container-map,
}

module _ (rec : Encoder) (rd : Reader) (dec : Text → Node → Node)
    (trip : RoundTrips rec rd dec) where
  array-BodyReads :
      (dst : List ℕ) (ns : Nodes) (b : ℕ) (final : List ℕ) (b' : ℕ)
      → IsGoNodes ns
      → encode_items rec (cbor_head dst 4 (count ns)) ns b ≡ ok (final, b')
      → BodyReads rd dst final (λ key. array_node key (decoded_items dec ns 0)) b b'
  unfolding read_major
  array-BodyReads dst ns b final b' g e =
      let (out, end, long, less, reads) =
        encode_items-Reads rec rd dec trip (cbor_head dst 4 (count ns)) ns b final b' g e in
      (
        (4 * 32 + info_of (count ns)) ∷ (argument_of (count ns) ++ out),
        container-end dst out final 4 (count ns) (omega arith) end,
        omega arith,
        omega arith,
        λ key rest i i' h k.
            let room : count ns ≤ length (out ++ rest) = omega (arith, length-append out rest) in
            rw (append_assoc (argument_of (count ns)) out rest) (
              read_body-cbor_head rd key 4 (count ns) (out ++ rest) i (omega arith) (omega arith)
              ∙ bind-ok (check_container false (count ns)) _ _
                  (check_container-array (count ns) _ (omega arith) room)
              ∙ bind-ok (read_items rd (count ns) 0) _ _ (reads 0 rest i i' h k)),
      )

  map-BodyReads :
      (dst : List ℕ) (fs : List Field) (b : ℕ) (final : List ℕ) (b' : ℕ)
      → All GoField fs
      → DistinctFields fs
      → encode_fields rec (cbor_head dst 5 (length fs)) fs b ≡ ok (final, b')
      → BodyReads rd dst final (λ key. map_node key (decoded_fields dec fs)) b b'
  unfolding read_major
  map-BodyReads dst fs b final b' g d e =
      let (out, end, long, less, reads) =
        encode_fields-Reads rec rd dec trip (cbor_head dst 5 (length fs)) fs b final b' g e in
      (
        (5 * 32 + info_of (length fs)) ∷ (argument_of (length fs) ++ out),
        container-end dst out final 5 (length fs) (omega arith) end,
        omega arith,
        omega arith,
        λ key rest i i' h k.
            let room : 2 * length fs ≤ length (out ++ rest) =
              omega (arith, length-append out rest) in
            rw (append_assoc (argument_of (length fs)) out rest) (
              read_body-cbor_head rd key 5 (length fs) (out ++ rest) i (omega arith) (omega arith)
              ∙ bind-ok (check_container true (length fs)) _ _
                  (check_container-map (length fs) _ (omega arith) room)
              ∙ bind-ok (read_pairs rd (length fs) []) _ _
                  (reads [] d (Unseen-nil fs) rest i i' h k)),
      )

abbrev null_node : Text → Node
null_node key = new_node UirType.null key Any.nil

-- A call that writes `out` and spends nothing, in place of the output and budget that it returned.
written-BodyReads :
    (rd : Reader) (dst out final : List ℕ) (n : Text → Node) (b b' : ℕ)
    → ◌≡◌ {A = Result CborError (List ℕ × ℕ)} (ok (out, b)) (ok (final, b'))
    → ReadsAs dst out n
    → BodyReads rd dst final n b b'
written-BodyReads rd dst out final n b b' e r =
    let (same, spent) = pair-eq (ok-injective e) in
    scalar-BodyReads rd dst final n b b' spent (subst (λ f. ReadsAs dst f n) same r)

-- The body's case of a map or a definition.
map-node-BodyReads :
    (rec : Encoder) (rd : Reader) (dec : Text → Node → Node) (trip : RoundTrips rec rd dec)
    (dst : List ℕ) (ns : Nodes) (b : ℕ) (final : List ℕ) (b' : ℕ)
    → IsGoNodes ns
    → ((collect ns []) >>= λ (fs : List Field).
        encode_fields rec (cbor_head dst 5 (length fs)) (sort_fields fs) b)
      ≡ ok (final, b')
    → BodyReads rd dst final (λ key. map_node key (decoded_fields dec (sort_fields (kept ns)))) b b'
map-node-BodyReads rec rd dec trip dst ns b final b' g e =
    let (fs, gathered, run) = >>=-ok (collect ns []) _ e in
    let (same, distinct, _) = collect-kept ns [] fs gathered in
    let go : All GoField (kept ns) = kept-GoField ns g in
    let distinct' : DistinctFields (kept ns) = subst DistinctFields same distinct in
    let run' : encode_fields rec (cbor_head dst 5 (length (kept ns))) (sort_fields (kept ns)) b
        ≡ ok (final, b') =
      rw same at run in
    map-BodyReads rec rd dec trip dst (sort_fields (kept ns)) b final b'
      (All-sort_fields GoField (kept ns) go) (DistinctFields-sort_fields (kept ns) distinct')
      (rw (length-sort_fields (kept ns)) run')

node-BodyReads :
    (rec : Encoder) (rd : Reader) (dec : Text → Node → Node) (trip : RoundTrips rec rd dec)
    (dst : List ℕ) (n : Node) (b : ℕ) (final : List ℕ) (b' : ℕ)
    → IsGoNode n
    → encode_node rec dst n b ≡ ok (final, b')
    → BodyReads rd dst final (λ key. decoded_node dec key n) b b'
unfolding encode_node decoded_node IsGoNode
node-BodyReads rec rd dec trip dst Node.nil b final b' g e =
    written-BodyReads rd dst _ final null_node b b' e (null-ReadsAs dst)
node-BodyReads rec rd dec trip dst (Node.node h ns) b final b' g e = elim (Bool-cases (is_null h)) [
  | inl null ↦
      rw null (written-BodyReads rd dst _ final null_node b b' (rw null at e) (null-ReadsAs dst))
  | inr full ↦
      rw full (elim (Bool-cases (type_eq h.type UirType.map || type_eq h.type UirType.definition)) [
        | inl map ↦
            rw map (map-node-BodyReads rec rd dec trip dst ns b final b' g.2 (rw (full, map) at e))
        | inr other ↦ rw other (elim (Bool-cases (type_eq h.type UirType.array)) [
          | inl array ↦
              rw array (
                array-BodyReads rec rd dec trip dst ns b final b' g.2
                  (rw (full, other, array) at e))
          | inr scalar ↦
              let (d, run, end) =
                >>=-ok (encode_scalar dst h.value) _ (rw (full, other, scalar) at e) in
              rw scalar (
                written-BodyReads rd dst d final (λ key. decoded_scalar key h.value) b b' end
                  (encode_scalar-ReadsAs dst h.value d g.0 run))
        ])
      ])
]

tick-ok :
    (rest : List ℕ) (i b : ℕ)
    → i + suc b ≡ cbor_max_items
    → tick (record { rest = rest; items = i }) ≡ ok (tt, record { rest = rest; items = i + 1 })
unfolding tick
tick-ok rest i b h =
    let fits : i + 1 ≤ cbor_max_items = omega arith in rw (le→ltb_false cbor_max_items (i + 1) fits)

-- An item that the body reads, with the count of the item itself.
body-Reads :
    (levels : ℕ) (key : Text) (out : List ℕ) (n : Node) (b b' : ℕ)
    → Reads (read_body (read_cbor levels) key) out n b b'
    → Reads (read_cbor (suc levels) key) out n (suc b) b'
unfolding read_cbor
body-Reads levels key out n b b' r rest i i' h k =
    bind-ok tick _ _ (tick-ok (out ++ rest) i b h) ∙ r rest (i + 1) i' (omega arith) k

keys-Reads : (levels : ℕ) → ReadsKeys (read_cbor (suc levels))
keys-Reads levels dst k valid short =
    let (out, end, long, reads) = text-ReadsAs dst k valid short in
    (
      out,
      end,
      long,
      λ b. body-Reads levels [] out (new_node UirType.string [] (Any.text k)) b b (λ rest i i' h q.
          reads (read_cbor levels) [] rest i
          ∙ ap
              (λ (t : ℕ).
                ok (new_node UirType.string [] (Any.text k), record { rest = rest; items = t }))
              (same_state b b i i' refl h q)),
    )

-- At every depth, what the encoder writes is read back, by induction on the levels left.
append_cbor-RoundTrips :
    (levels : ℕ) → RoundTrips (append_cbor levels) (read_cbor levels) (decoded levels)
unfolding append_cbor spend decoded
append_cbor-RoundTrips zero dst n zero final b' g e = cc
append_cbor-RoundTrips zero dst n (suc b) final b' g e = cc
append_cbor-RoundTrips (suc levels) dst n zero final b' g e = cc
append_cbor-RoundTrips (suc levels) dst n (suc b) final b' g e =
    let (out, end, long, less, reads) =
      node-BodyReads (append_cbor levels) (read_cbor levels) (decoded levels)
        (append_cbor-RoundTrips levels) dst n b final b' g e in
    (
      out,
      end,
      long,
      omega arith,
      λ key. body-Reads levels key out (decoded_node (decoded levels) key n) b b' (reads key),
      keys-Reads levels,
    )

-- The graph that a round trip leaves, marked with its source.
unfoldable pub cbor_view : Node → Node
cbor_view n =
    set_annotation (decoded (suc cbor_max_depth) (codes "Root") n) (codes "source_format")
      (codes "cbor")

parse_cbor-at :
    (bytes : List ℕ) (n : Node) (i : ℕ)
    → read_cbor (suc cbor_max_depth) (codes "Root") (record { rest = bytes; items = 0 })
      ≡ ok (n, record { rest = []; items = i })
    → parse_cbor bytes ≡ ok (set_annotation n (codes "source_format") (codes "cbor"))
unfolding parse_cbor
parse_cbor-at bytes n i h = rw (h, parse_cbor)

-- Whatever graph of Go values GenerateCBOR accepts, ParseCBOR accepts the bytes and returns the view
-- of that graph: the types of the wire, maps sorted by key, missing fields gone, absent values null.
pub parse_cbor-generate_cbor :
    (n : Node) (bytes : List ℕ)
    → IsGoNode n
    → generate_cbor n ≡ ok bytes
    → parse_cbor bytes ≡ ok (cbor_view n)
unfolding generate_cbor cbor_view
parse_cbor-generate_cbor n bytes g e =
    let ((final, b'), run, same) =
      >>=-ok (append_cbor (suc cbor_max_depth) [] n cbor_max_items) _ e in
    let (out, end, long, less, reads, _) =
      append_cbor-RoundTrips (suc cbor_max_depth) [] n cbor_max_items final b' g run in
    let spent : cbor_max_items - b' + b' ≡ cbor_max_items = omega arith in
    let whole = reads (codes "Root") [] 0 (cbor_max_items - b') (omega arith) spent in
    parse_cbor-at bytes _ (cbor_max_items - b')
      (rw (sym end ∙ ok-injective same, append-nil) at whole)
