-- ===== src/Codec/Payload.antt =====
-- internal/codec/registry.go and options.go: the table of codecs, DecodePayload and EncodePayload. The
-- codecs that have no module here are the record Others.
pub mod Exchange
use omni_schema.Prelude.{ℕ, Bool, true, false, not, ◌&&◌, if◌then◌else◌, Option, none, some}
use omni_schema.Prelude.{List, [], ◌∷◌}
use omni_schema.Prelude.Bytes.{Text, codes, text_eq, is_empty}
use omni_schema.Prelude.Maps.{find}
use omni_schema.Prelude.Result.{Result, ok, err, guard, ◌>>=◌, ◌>>◌}
use omni_schema.Uir.Presence.{BytesPolicy}
use omni_schema.Uir.Node.{is_nil_node, Node, annotation, find_named_type}
use omni_schema.Uir.Coerce.{Host, LossinessPolicy}
use omni_schema.Uir.Schema.{SchemaError, resolve_payload_type}
use omni_schema.Codec.Cbor.{CborError}
use omni_schema.Codec.Cbor.Encode.{generate_cbor}
use omni_schema.Codec.Cbor.Decode.{parse_cbor}
use omni_schema.Codec.MsgPack.{MsgPackError}
use omni_schema.Codec.MsgPack.Encode.{generate_message_pack}
use omni_schema.Codec.MsgPack.Decode.{Builtins, parse_message_pack}
use omni_schema.Codec.Options.{Options}
use omni_schema.Codec.Protobuf.{ProtoError}
use omni_schema.Codec.Protobuf.Encode.{generate_protobuf_with_options}
use omni_schema.Codec.Protobuf.Decode.{parse_protobuf_with_options}
use omni_schema.Codec.Formats.{Unicode, normalize_format, requires_external_schema}
use omni_schema.Codec.Target.{TargetError, validate_cbor_target}

pub data CodecError : Type 0 where
  unsupported_format schema_needed type_not_found : Text → CodecError
  schema : SchemaError → CodecError
  target : TargetError → CodecError
  cbor : CborError → CodecError
  msgpack : MsgPackError → CodecError
  protobuf : ProtoError → CodecError
  other : CodecError

abbrev pub failed_as : {E A : Type 0} → (E → CodecError) → Result E A → Result CodecError A
failed_as wrap (ok a) = ok a
failed_as wrap (err e) = err (wrap e)

abbrev Parse : Type 0
Parse = List ℕ → Result CodecError Node

abbrev Print : Type 0
Print = Node → Result CodecError (List ℕ)

-- A plain function, or one that is aware of the schema.
pub data Decoder : Type 0 where
  plain : Parse → Decoder
  schema_aware : (List ℕ → Options → Result CodecError Node) → Decoder

pub data Encoder : Type 0 where
  plain : Print → Encoder
  schema_aware : (Node → Options → Result CodecError (List ℕ)) → Encoder

-- The functions of the codecs that are not modelled, what the language leaves open, and the fuel of
-- the protobuf encoder.
pub record Others : Type 0 where
  pub unicode : Unicode
  pub builtins : Builtins
  pub host : Host
  pub fuel : ℕ
  pub parse_json : Parse
  pub parse_graphql : Parse
  pub parse_with : Text → List ℕ → Options → Result CodecError Node
  pub generate : Text → Print
  pub generate_with : Text → Node → Options → Result CodecError (List ℕ)

-- The table of decoders that init fills.
unfoldable pub decoders : Others → List (Text × Decoder)
decoders others =
    (codes "cbor", Decoder.plain (λ bytes. failed_as CodecError.cbor (parse_cbor bytes)))
    ∷ (codes "json", Decoder.plain others.parse_json)
    ∷ (
      codes "protobuf",
      Decoder.schema_aware (λ bytes opts.
          failed_as CodecError.protobuf (parse_protobuf_with_options others.host bytes opts)),
    )
    ∷ (
      codes "msgpack",
      Decoder.plain
          (λ bytes. failed_as CodecError.msgpack (parse_message_pack others.builtins bytes)),
    )
    ∷ (codes "capnproto", Decoder.schema_aware (others.parse_with (codes "capnproto")))
    ∷ (codes "parquet", Decoder.schema_aware (others.parse_with (codes "parquet")))
    ∷ (codes "hdf5", Decoder.schema_aware (others.parse_with (codes "hdf5")))
    ∷ (codes "graphql", Decoder.plain others.parse_graphql)
    ∷ (codes "avro", Decoder.schema_aware (others.parse_with (codes "avro")))
    ∷ (codes "odata", Decoder.schema_aware (others.parse_with (codes "odata")))
    ∷ []

-- The table of encoders that init fills.
unfoldable pub encoders : Others → List (Text × Encoder)
encoders others =
    (codes "cbor", Encoder.plain (λ n. failed_as CodecError.cbor (generate_cbor n)))
    ∷ (codes "graphql", Encoder.plain (others.generate (codes "graphql")))
    ∷ (codes "graphql_sdl", Encoder.plain (others.generate (codes "graphql_sdl")))
    ∷ (
      codes "protobuf",
      Encoder.schema_aware (λ n opts.
          failed_as CodecError.protobuf
            (generate_protobuf_with_options others.fuel others.host n opts)),
    )
    ∷ (codes "msgpack", Encoder.plain (λ n. failed_as CodecError.msgpack (generate_message_pack n)))
    ∷ (codes "parquet", Encoder.schema_aware (others.generate_with (codes "parquet")))
    ∷ (codes "capnproto", Encoder.schema_aware (others.generate_with (codes "capnproto")))
    ∷ (codes "hdf5", Encoder.schema_aware (others.generate_with (codes "hdf5")))
    ∷ (codes "json", Encoder.plain (others.generate (codes "json")))
    ∷ (codes "avro", Encoder.schema_aware (others.generate_with (codes "avro")))
    ∷ (codes "odata", Encoder.schema_aware (others.generate_with (codes "odata")))
    ∷ []

abbrev pub found_as : {V : Type 0} → Text → Option V → Result CodecError V
found_as name none = err (CodecError.unsupported_format name)
found_as name (some v) = ok v

unfoldable pub get_decoder : Others → Text → Result CodecError Decoder
unfolding decoders
get_decoder others name = found_as name (find name (decoders others))

unfoldable pub get_encoder : Others → Text → Result CodecError Encoder
unfolding encoders
get_encoder others name = found_as name (find name (encoders others))

-- The schema that a format needs: there must be one, and a payload type of it.
unfoldable pub need_schema : Text → Options → Result CodecError (Unit {0})
need_schema format opts =
    guard (not (is_nil_node opts.schema)) (CodecError.schema_needed format)
    >> failed_as CodecError.schema
        (resolve_payload_type opts.schema opts.type_name >>= λ found. ok tt)

-- What both directions ask of the options.
unfoldable pub check_schema : Others → Text → Options → Result CodecError (Unit {0})
unfolding requires_external_schema need_schema
check_schema others format opts =
    (if requires_external_schema others.unicode format && opts.require_type
      then need_schema format opts
      else ok tt)
    >> guard
        (not (
          not (is_empty opts.type_name)
          && not (is_nil_node opts.schema)
          && is_nil_node (find_named_type opts.schema opts.type_name)))
        (CodecError.type_not_found opts.type_name)

abbrev pub run_decoder : List ℕ → Options → Decoder → Result CodecError Node
run_decoder bytes opts (Decoder.plain f) = f bytes
run_decoder bytes opts (Decoder.schema_aware f) = f bytes opts

abbrev pub run_encoder : Node → Options → Encoder → Result CodecError (List ℕ)
run_encoder n opts (Encoder.plain f) = f n
run_encoder n opts (Encoder.schema_aware f) = f n opts

unfoldable pub decode_payload : Others → Text → List ℕ → Options → Result CodecError Node
unfolding check_schema get_decoder normalize_format
decode_payload others format bytes opts =
    let name = normalize_format others.unicode format in
    check_schema others name opts >> (get_decoder others name >>= run_decoder bytes opts)

-- node != nil && node.Annotation("source_format") == "cbor"
abbrev pub is_from_cbor : Node → Bool
is_from_cbor n = text_eq (annotation n (codes "source_format")) (codes "cbor")

unfoldable pub encode_payload : Others → Text → Node → Options → Result CodecError (List ℕ)
unfolding check_schema get_encoder normalize_format
encode_payload others format n opts =
    let name = normalize_format others.unicode format in
    (if is_from_cbor n
      then failed_as CodecError.target (validate_cbor_target others.unicode n name)
      else ok tt)
    >> check_schema others name opts
    >> (get_encoder others name >>= run_encoder n opts)
