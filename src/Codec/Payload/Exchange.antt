-- ===== src/Codec/Payload/Exchange.antt =====
-- internal/codec/options.go: EncodePayload and DecodePayload one after the other.
use omni_schema.Prelude.{
  ℕ, ◌≤◌, ◌≡◌, refl, sym, ap, ◌∙◌, ◌⊎◌, inl, inr, arith, Bool, true, List, [],
}
use omni_schema.Prelude.{if◌then◌else◌, length, ◌==◌, Bool-cases}
use omni_schema.Prelude.Bytes.{Text, codes, text_eq, mem_text}
use omni_schema.Prelude.Result.{>>-both, Result, ok, err, ◌>>=◌, ◌>>◌, ok-injective}
use omni_schema.Prelude.Maps.{find}
use omni_schema.Uir.Node.{Node, Head, annotation, set_annotation}
use omni_schema.Uir.Node.Find.{lookup-insert}
use omni_schema.Codec.Cbor.{CborError}
use omni_schema.Codec.Cbor.Encode.{generate_cbor}
use omni_schema.Codec.Cbor.Decode.{Parser, read_cbor, parse_cbor}
use omni_schema.Codec.Cbor.Decoded.{IsGoNode}
use omni_schema.Codec.Cbor.RoundTrip.{cbor_view, parse_cbor-generate_cbor}
use omni_schema.Codec.MsgPack.Encode.{generate_message_pack}
use omni_schema.Codec.MsgPack.Decoded.{Fits, decoded}
use omni_schema.Codec.MsgPack.RoundTrip.{parse_message_pack-generate_message_pack}
use omni_schema.Codec.Options.{Options}
use omni_schema.Codec.Formats.{
  Unicode, is_ascii, to_lower, trim_left, trim_right, trim_space, trim_dot, alias_of,
  normalize_format,
}
use omni_schema.Codec.Target.Kept.{Refuses, nowhere, validate_cbor_target-nowhere}
use omni_schema.Uir.Project.Walk.{depth}
use omni_schema.Codec.Target.{validate_cbor_target}
use omni_schema.Codec.Payload.{
  CodecError, Others, failed_as, decoders, encoders, get_decoder, get_encoder, check_schema,
  run_decoder, run_encoder, is_from_cbor, encode_payload, decode_payload,
}

failed_as-ok :
    {E A : Type 0} {a : A} (wrap : E → CodecError) (r : Result E A)
    → failed_as wrap r ≡ ok a
    → r ≡ ok a
failed_as-ok wrap (ok b) h = cc
failed_as-ok wrap (err e) h = cc

abbrev target_checked : Others → Node → Text → Result CodecError (Unit {0})
target_checked others n name =
    if is_from_cbor n
    then failed_as CodecError.target (validate_cbor_target others.unicode n name)
    else ok tt

-- What a call that returns bytes has passed.
encode_payload-passed :
    (others : Others) (format name : Text) (n : Node) (opts : Options) (bytes : List ℕ)
    → normalize_format others.unicode format ≡ name
    → encode_payload others format n opts ≡ ok bytes
    → (target_checked others n name ≡ ok tt)
      × (check_schema others name opts ≡ ok tt)
      × ((get_encoder others name >>= run_encoder n opts) ≡ ok bytes)
unfolding encode_payload
encode_payload-passed others format name n opts bytes named made = rw (← named) (
    let same = normalize_format others.unicode format in
    let (front, run) =
      >>-both (target_checked others n same >> check_schema others same opts) _ made in
    let (target, schema) = >>-both (target_checked others n same) _ front in (target, schema, run))

decode_payload-runs :
    (others : Others) (format name : Text) (opts : Options) (bytes : List ℕ)
    → normalize_format others.unicode format ≡ name
    → check_schema others name opts ≡ ok tt
    → decode_payload others format bytes opts ≡ (get_decoder others name >>= run_decoder bytes opts)
unfolding decode_payload
decode_payload-runs others format name opts bytes named schema = rw (named, schema) refl

decode_payload-reads :
    (others : Others) (format name : Text) (opts : Options) (bytes : List ℕ) (n : Node)
    → normalize_format others.unicode format ≡ name
    → decode_payload others format bytes opts ≡ ok n
    → (get_decoder others name >>= run_decoder bytes opts) ≡ ok n
unfolding decode_payload
decode_payload-reads others format name opts bytes n named read =
    rw (← named)
      ((>>-both (check_schema others (normalize_format others.unicode format) opts) _ read).1)

-- Where the name comes to cbor: if EncodePayload returns bytes for a graph of Go values, whatever the
-- options, then DecodePayload of these bytes with the same name and options returns the view of the
-- graph that CBOR keeps.
pub decode_payload-encode_payload_cbor :
    (others : Others) (format : Text) (n : Node) (opts : Options) (bytes : List ℕ)
    → normalize_format others.unicode format ≡ codes "cbor"
    → IsGoNode n
    → encode_payload others format n opts ≡ ok bytes
    → decode_payload others format bytes opts ≡ ok (cbor_view n)
unfolding get_encoder get_decoder encoders decoders find text_eq
decode_payload-encode_payload_cbor others format n opts bytes named go made =
    let (target, schema, run) =
      encode_payload-passed others format (codes "cbor") n opts bytes named made in
    let read =
      parse_cbor-generate_cbor n bytes go (failed_as-ok CodecError.cbor (generate_cbor n) run) in
    decode_payload-runs others format (codes "cbor") opts bytes named schema
    ∙ ap (failed_as CodecError.cbor) read

-- Where the name comes to msgpack: if EncodePayload returns bytes for a graph whose values fit the
-- format, whatever the options, then DecodePayload of these bytes with the same name and options
-- returns the graph with the types that the wire tells.
pub decode_payload-encode_payload_msgpack :
    (others : Others) (format : Text) (n : Node) (opts : Options) (bytes : List ℕ)
    → normalize_format others.unicode format ≡ codes "msgpack"
    → Fits n
    → encode_payload others format n opts ≡ ok bytes
    → decode_payload others format bytes opts ≡ ok (decoded others.builtins [] n)
unfolding get_encoder get_decoder encoders decoders find text_eq
decode_payload-encode_payload_msgpack others format n opts bytes named fits made =
    let (target, schema, run) =
      encode_payload-passed others format (codes "msgpack") n opts bytes named made in
    let read =
      parse_message_pack-generate_message_pack others.builtins n bytes fits
        (failed_as-ok CodecError.msgpack (generate_message_pack n) run) in
    decode_payload-runs others format (codes "msgpack") opts bytes named schema
    ∙ ap (failed_as CodecError.msgpack) read

-- The names that the switch gives are names of themselves.
normalize_format-Refuses :
    (unicode : Unicode) {name : Text} {bad : Head → Bool}
    → Refuses name bad
    → normalize_format unicode name ≡ name
unfolding normalize_format to_lower trim_space trim_left trim_right trim_dot is_ascii alias_of
    mem_text text_eq
normalize_format-Refuses unicode Refuses.json = refl
normalize_format-Refuses unicode Refuses.odata = refl
normalize_format-Refuses unicode Refuses.protobuf = refl
normalize_format-Refuses unicode Refuses.msgpack = refl
normalize_format-Refuses unicode Refuses.cbor = refl

from_cbor-kept :
    (others : Others) (n : Node) (name : Text) (bad : Head → Bool)
    → Refuses name bad
    → is_from_cbor n ≡ true
    → target_checked others n name ≡ ok tt
    → (nowhere bad n ≡ true) × (depth n ≤ 65)
from_cbor-kept others n name bad refuses from checked =
    let same = normalize_format-Refuses others.unicode refuses in
    let again : Refuses (normalize_format others.unicode name) bad = rw (same) refuses in
    let passed : failed_as CodecError.target (validate_cbor_target others.unicode n name) ≡ ok tt =
      rw (from) at checked in
    (validate_cbor_target-nowhere others.unicode name bad n again).0
      (failed_as-ok CodecError.target _ passed)

abbrev marked : Node → Node
marked m = set_annotation m (codes "source_format") (codes "cbor")

marked-is_from_cbor : (m : Node) → (marked m ≡ Node.nil) ⊎ (is_from_cbor (marked m) ≡ true)
unfolding set_annotation annotation text_eq
marked-is_from_cbor Node.nil = inl refl
marked-is_from_cbor (Node.node h ns) = inr (
    ap (λ v. text_eq v (codes "cbor"))
      (lookup-insert (codes "source_format") (codes "source_format") (codes "cbor") h.annotations))

abbrev CborTrailing : Node → Type 0
CborTrailing n = ◌≡◌ {A = Result CborError Node} (err CborError.trailing) (ok n)

parsed-is_from_cbor :
    (r : Result CborError (Node × Parser)) (n : Node)
    → elim r [
      | ok (m, p) ↦ if length p.rest == 0 then ok (marked m) else err CborError.trailing
      | err e ↦ err e
    ]
      ≡ ok n
    → (n ≡ Node.nil) ⊎ (is_from_cbor n ≡ true)
parsed-is_from_cbor (err e) n h = cc
parsed-is_from_cbor (ok (m, p)) n h = elim (Bool-cases (length p.rest == 0)) [
  | inl done ↦
      let same : marked m ≡ n = ok-injective (sym (rw (done) refl) ∙ h) in
      rw (← same) (marked-is_from_cbor m)
  | inr more ↦ let no : CborTrailing n = sym (rw (more) refl) ∙ h in cc
]

-- What ParseCBOR returns is nil or marked.
parse_cbor-is_from_cbor :
    (bytes : List ℕ) (n : Node) → parse_cbor bytes ≡ ok n → (n ≡ Node.nil) ⊎ (is_from_cbor n ≡ true)
unfolding parse_cbor
parse_cbor-is_from_cbor bytes n read =
    parsed-is_from_cbor (read_cbor 65 (codes "Root") (record { rest = bytes; items = 0 })) n read

-- A graph that DecodePayload read from CBOR and that EncodePayload then writes as json, odata,
-- protobuf, msgpack or cbor, under any names that come to these and any options, has at most 65 levels
-- and no node that the target refuses: a float that is not finite for json and odata, a null for
-- protobuf.
pub encode_payload-decode_payload_nowhere :
    (others : Others) (source target : Text) (bytes out : List ℕ) (n : Node) (opts opts' : Options)
    (bad : Head → Bool)
    → normalize_format others.unicode source ≡ codes "cbor"
    → Refuses (normalize_format others.unicode target) bad
    → decode_payload others source bytes opts ≡ ok n
    → encode_payload others target n opts' ≡ ok out
    → (nowhere bad n ≡ true) × (depth n ≤ 65)
unfolding get_decoder decoders find text_eq nowhere depth
encode_payload-decode_payload_nowhere others source target bytes out n opts opts' bad from to read
      made =
    let (checked, schema, run) = encode_payload-passed others target _ n opts' out refl made in
    let parsed : parse_cbor bytes ≡ ok n =
      failed_as-ok CodecError.cbor (parse_cbor bytes)
        (decode_payload-reads others source (codes "cbor") opts bytes n from read) in
    elim (parse_cbor-is_from_cbor bytes n parsed) [
      | inl empty ↦ rw (empty) (refl, omega arith)
      | inr marked ↦ from_cbor-kept others n _ bad to marked checked
    ]
