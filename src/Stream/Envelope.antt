-- ===== src/Stream/Envelope.antt =====
-- The binary envelope of internal/stream/broker.go around a JSON header. What json.Marshal and
-- json.Unmarshal do on a map of strings is a record of two functions.
use omni_schema.Prelude.{ℕ, ◌+◌, ◌/◌, ◌%◌, ◌^◌, ◌<◌, ◌≡◌, refl, ◌∙◌, arith}
use omni_schema.Prelude.{false, not, ◌||◌, if◌then◌else◌, ltb}
use omni_schema.Prelude.{List, [], ◌∷◌, ◌++◌, length, take, drop, Option, none, some, length-append}
use omni_schema.Prelude.{take-append_length, drop-append_length}
use omni_schema.Prelude.Bytes.{Text, codes, text_eq, big_endian, from_big_endian}
use omni_schema.Prelude.Bytes.{from-big_endian_2}
use omni_schema.Prelude.Maps.{find}
use omni_schema.Prelude.Result.{Result, ok, err}
use omni_schema.Stream.Subscription.{Subscription}

pub record Event : Type 0 where
  pub id : Text
  pub type : Text
  pub source_format : Text
  pub payload : List ℕ
  pub cursor : Text

-- map[string]string
abbrev pub Header : Type 0
Header = List (Text × Text)

-- An error of json.Unmarshal is none. json.Marshal has none on a map of strings.
pub record HeaderJson : Type 0 where
  pub marshal : Header → List ℕ
  pub unmarshal : List ℕ → Option Header

unfoldable pub envelope_header : Subscription → Event → Header
envelope_header s evt =
    (codes "eventId", evt.id)
    ∷ (codes "cursor", evt.cursor)
    ∷ (codes "eventType", evt.type)
    ∷ (codes "format", s.target_format)
    ∷ (codes "schema", s.schema_name)
    ∷ (codes "schemaVersion", s.schema_version)
    ∷ []

abbrev pub framed : List ℕ → List ℕ → List ℕ
framed hdr body = codes "OMNI" ++ (1 ∷ (big_endian 2 (length hdr) ++ (hdr ++ body)))

unfoldable pub encode_binary_envelope : HeaderJson → Subscription → Event → List ℕ → List ℕ
unfolding envelope_header
encode_binary_envelope json s evt body = framed (json.marshal (envelope_header s evt)) body

pub data EnvelopeError : Type 0 where
  no_envelope truncated_header invalid_header : EnvelopeError

abbrev pub with_body : List ℕ → Option Header → Result EnvelopeError (Header × List ℕ)
with_body body none = err EnvelopeError.invalid_header
with_body body (some m) = ok (m, body)

-- The header and the body.
unfoldable pub decode_binary_envelope : HeaderJson → List ℕ → Result EnvelopeError (Header × List ℕ)
decode_binary_envelope json frame =
    let n = from_big_endian 0 (take 2 (drop 5 frame)) in
    if ltb (length frame) 7 || not (text_eq (take 4 frame) (codes "OMNI"))
    then err EnvelopeError.no_envelope
    else if ltb (length frame) (7 + n)
    then err EnvelopeError.truncated_header
    else with_body (drop n (drop 7 frame)) (json.unmarshal (take n (drop 7 frame)))

decode-parts :
    (json : HeaderJson) (x y : ℕ) (hdr body : List ℕ)
    → from_big_endian 0 (x ∷ y ∷ []) ≡ length hdr
    → decode_binary_envelope json (79 ∷ 77 ∷ 78 ∷ 73 ∷ 1 ∷ x ∷ y ∷ (hdr ++ body))
      ≡ with_body body (json.unmarshal hdr)
unfolding decode_binary_envelope text_eq
decode-parts json x y hdr body size =
    let frame = 79 ∷ 77 ∷ 78 ∷ 73 ∷ 1 ∷ x ∷ y ∷ (hdr ++ body) in
    let whole = length-append hdr body in
    let long : ltb (length frame) 7 ≡ false = ground arith in
    let enough : ltb (length frame) (7 + length hdr) ≡ false = ground (arith, whole) in
    rw
      (
        decode_binary_envelope,
        long,
        size,
        enough,
        take-append_length hdr body,
        drop-append_length hdr body,
      )
      refl

-- What encoding/json says of a map of texts: its JSON is read as a map with the same entries.
abbrev pub ReadsBack : HeaderJson → Header → Type 0
ReadsBack json hdr =
    (m : Header) × (json.unmarshal (json.marshal hdr) ≡ some m)
    × ((k : Text) → find k m ≡ find k hdr)

-- The six entries of the header.
abbrev pub Describes : Subscription → Event → Header → Type 0
Describes s evt m =
    (find (codes "eventId") m ≡ some evt.id)
    × (find (codes "cursor") m ≡ some evt.cursor)
    × (find (codes "eventType") m ≡ some evt.type)
    × (find (codes "format") m ≡ some s.target_format)
    × (find (codes "schema") m ≡ some s.schema_name)
    × (find (codes "schemaVersion") m ≡ some s.schema_version)

-- Where encoding/json reads the header back and its JSON has fewer than 65536 bytes:
-- DecodeBinaryEnvelope of what encodeBinaryEnvelope makes of an event for a subscription returns the
-- body and a header with the event's id, cursor and type and the subscription's format, schema and
-- version of it.
pub decode_binary_envelope-encode_binary_envelope :
    (json : HeaderJson) (s : Subscription) (evt : Event) (body : List ℕ)
    → ReadsBack json (envelope_header s evt)
    → length (json.marshal (envelope_header s evt)) < 2 ^ 16
    → (m : Header) × (decode_binary_envelope json (encode_binary_envelope json s evt body)
        ≡ ok (m, body))
      × Describes s evt m
unfolding encode_binary_envelope envelope_header big_endian find text_eq
decode_binary_envelope-encode_binary_envelope json s evt body (m, read, same) small =
    let hdr = json.marshal (envelope_header s evt) in
    (
      m,
      decode-parts json (length hdr / 256 % 256) (length hdr / 1 % 256) hdr body
            (from-big_endian_2 (length hdr) small)
          ∙ rw read refl,
      (
        same (codes "eventId"),
        same (codes "cursor"),
        same (codes "eventType"),
        same (codes "format"),
        same (codes "schema"),
        same (codes "schemaVersion"),
      ),
    )
