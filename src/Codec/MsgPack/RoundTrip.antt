-- ===== src/Codec/MsgPack/RoundTrip.antt =====
-- A graph that MessagePack encodes is parsed back, with the types that the wire tells.
use omni_schema.Prelude.{ℕ, zero, suc, ◌^◌, ◌<◌, ◌≡◌, refl, sym, ap, ◌∙◌, arith}
use omni_schema.Prelude.{List, [], ◌++◌, length}
use omni_schema.Prelude.{length-append, append_assoc, append-nil}
use omni_schema.Prelude.Bytes.{Text}
use omni_schema.Prelude.Result.{ok, ok-injective, >>=-ok}
use omni_schema.Uir.Types.{UirType}
use omni_schema.Uir.Node.{Any, Node, Nodes, new_head, new_node}
use omni_schema.Codec.MsgPack.Encode.{
  child_count, encode_string, join, generate_message_pack, encode_items, encode_fields,
}
use omni_schema.Codec.MsgPack.Decode.{
  P, ◌>>=◌, bind-ok, return, Builtins, read_items, read_fields, key_text, parse_byte, parse_first,
  parse_value, only_value, parse_message_pack,
}
use omni_schema.Codec.MsgPack.Decoded.{Fits, FitsAll, decoded, decoded_items, decoded_fields}
use omni_schema.Codec.MsgPack.Payloads.{encode_string-Reads}
use omni_schema.Codec.MsgPack.Typed.{join-ok, typed-Reads}

module _ (go : Builtins) where
  key_text-string : (s : Text) → key_text go (new_node UirType.string [] (Any.text s)) ≡ s
  unfolding new_node new_head
  key_text-string s = refl

  -- The key of a field.
  key-read :
      (fuel : ℕ) (s d : List ℕ)
      → length s < 2 ^ 32
      → length (encode_string s) < fuel
      → parse_value go fuel [] (encode_string s ++ d)
        ≡ ok (new_node UirType.string [] (Any.text s), d)
  unfolding parse_value
  key-read zero s d small enough = absurd (omega arith)
  key-read (suc fuel) s d small enough = encode_string-Reads go (parse_value go fuel) [] s small d

  mutual
    unfolding parse_value generate_message_pack encode_items encode_fields decoded decoded_items
        decoded_fields Fits FitsAll parse_byte child_count read_items read_fields

    node-read :
        (fuel : ℕ) (n : Node) (key : Text) (bs rest : List ℕ)
        → Fits n
        → generate_message_pack n ≡ ok bs
        → length bs < fuel
        → parse_value go fuel key (bs ++ rest) ≡ ok (decoded go key n, rest)
    node-read zero n key bs rest fits made enough = absurd (omega arith)
    node-read (suc fuel) Node.nil key bs rest fits made enough =
        ap (λ b. parse_first go (parse_value go fuel) key (b ++ rest)) (sym (ok-injective made))
    node-read (suc fuel) (Node.node h ns) key bs rest (fits, small, all) made enough =
        typed-Reads go fuel (child_count ns) h.type h.value (encode_items ns) (encode_fields ns)
          (decoded_items go ns) (decoded_fields go ns) key bs rest fits small
          (λ b r e less. items-read fuel ns b r all e less)
          (λ b r e less. fields-read fuel ns b r all e less) made enough

    items-read :
        (fuel : ℕ) (ns : Nodes) (bs rest : List ℕ)
        → FitsAll ns
        → encode_items ns ≡ ok bs
        → length bs < fuel
        → read_items (parse_value go fuel) (child_count ns) (bs ++ rest)
          ≡ ok (decoded_items go ns, rest)
    items-read fuel Nodes.none bs rest all made enough =
        ap (λ b. ok (Nodes.none, b ++ rest)) (sym (ok-injective made))
    items-read fuel (Nodes.more n ns) bs rest (fits, keyed, all) made enough =
        let rec = parse_value go fuel in
        let (xs, ys, first, others, glued) =
          join-ok (generate_message_pack n) (encode_items ns) bs made in
        let size = length-append xs ys in
        let total = ap length glued in
        ap (λ b. read_items rec (suc (child_count ns)) (b ++ rest)) (sym glued)
        ∙ ap (λ d. read_items rec (suc (child_count ns)) d) (append_assoc xs ys rest)
        ∙ bind-ok (rec []) (λ c. read_items rec (child_count ns) >>= λ cs. return (Nodes.more c cs))
            (xs ++ (ys ++ rest))
            (node-read fuel n [] xs (ys ++ rest) fits first (omega (arith, size, total, enough)))
        ∙ bind-ok (read_items rec (child_count ns)) (λ cs. return (Nodes.more (decoded go [] n) cs))
            (ys ++ rest)
            (items-read fuel ns ys rest all others (omega (arith, size, total, enough)))

    fields-read :
        (fuel : ℕ) (ns : Nodes) (bs rest : List ℕ)
        → FitsAll ns
        → encode_fields ns ≡ ok bs
        → length bs < fuel
        → read_fields go (parse_value go fuel) (child_count ns) (bs ++ rest)
          ≡ ok (decoded_fields go ns, rest)
    fields-read fuel Nodes.none bs rest all made enough =
        ap (λ b. ok (Nodes.none, b ++ rest)) (sym (ok-injective made))
    fields-read fuel (Nodes.more Node.nil ns) bs rest all made enough = cc
    fields-read fuel (Nodes.more (Node.node h kids) ns) bs rest (fits, keyed, all) made enough =
        let rec = parse_value go fuel in
        let k = encode_string h.key in
        let (xs, zs, first, others, glued) =
          join-ok (join (ok k) (generate_message_pack (Node.node h kids))) (encode_fields ns) bs
            made in
        let (ys, value, paired) =
          >>=-ok (generate_message_pack (Node.node h kids)) (λ b. ok (k ++ b)) first in
        let pair : k ++ ys ≡ xs = ok-injective paired in
        let size = length-append xs zs in
        let pair_size = length-append k ys in
        let total = ap length glued in
        let xs_size = ap length pair in
        let step : Node → P Nodes =
          λ c. read_fields go rec (child_count ns) >>= λ cs. return (Nodes.more c cs) in
        ap (λ b. read_fields go rec (suc (child_count ns)) (b ++ rest)) (sym glued)
        ∙ ap (λ b. read_fields go rec (suc (child_count ns)) ((b ++ zs) ++ rest)) (sym pair)
        ∙ ap (λ d. read_fields go rec (suc (child_count ns)) d)
            (append_assoc (k ++ ys) zs rest ∙ append_assoc k ys (zs ++ rest))
        ∙ bind-ok (rec []) (λ c. rec (key_text go c) >>= step) (k ++ (ys ++ (zs ++ rest)))
            (key-read fuel h.key (ys ++ (zs ++ rest)) keyed
              (omega (arith, size, pair_size, total, xs_size, enough)))
        ∙ ap (λ t. (rec t >>= step) (ys ++ (zs ++ rest))) (key_text-string h.key)
        ∙ bind-ok (rec h.key) step (ys ++ (zs ++ rest)) (
            node-read fuel (Node.node h kids) h.key ys (zs ++ rest) fits value
              (omega (arith, size, pair_size, total, xs_size, enough)))
        ∙ bind-ok (read_fields go rec (child_count ns))
            (λ cs. return (Nodes.more (decoded go h.key (Node.node h kids)) cs)) (zs ++ rest)
            (fields-read fuel ns zs rest all others (omega (arith, size, total, enough)))

-- A graph whose values fit the format, with at most 2^32 - 1 children to a node and bytes to a text: if
-- GenerateMessagePack returns bytes for it, then ParseMessagePack of these bytes returns the graph with
-- the types that the wire tells, whatever the two functions of the language do.
pub parse_message_pack-generate_message_pack :
    (go : Builtins) (n : Node) (bs : List ℕ)
    → Fits n
    → generate_message_pack n ≡ ok bs
    → parse_message_pack go bs ≡ ok (decoded go [] n)
unfolding parse_message_pack
parse_message_pack-generate_message_pack go n bs fits made = ap (only_value go) (
    ap (λ d. parse_value go (suc (length bs)) [] d) (sym (append-nil bs))
    ∙ node-read go (suc (length bs)) n [] bs [] fits made (omega arith))
