-- ===== src/Lib.antt =====
-- Omni-Schema: a server that holds schemas, converts messages between formats through one tree of
-- typed nodes (the UIR), and streams events to WebSocket subscribers.
--
-- The parts and how they interact. A codec (internal/codec) reads bytes into a tree of nodes
-- (internal/uir) and writes a tree as bytes. The registry (internal/registry) keeps the versions of
-- each named schema, of which one is active. A subscription (internal/stream) names a version; the
-- broker decodes each event, projects it, batches and encodes it, and puts a frame on the queue of
-- the subscription, which the connection (internal/network) sends.
--
-- Which file models what:
--   Prelude          tests on numbers, lists, strings as bytes, results, maps as association lists, and
--                    in Float the bit patterns of float64 and float32
--   Uir/Types        internal/uir/types.go and compat.go: UIRType, its predicates, LookupCompat
--   Uir/Presence     internal/uir/presence.go: the enumerations and ConversionReport.Add
--   Uir/TypeExpr     internal/uir/typeexpr.go: TypeExpr.String and ParseGraphQLTypeExpr
--   Uir/Node         internal/uir/node.go: Node, AddChild, annotations, CloneShallow, FindNamedType
--   Uir/Coerce       internal/uir/project.go: the policies, toInt64, toUint64, toFloat64, and in Value
--                    coerceValue, in Encoding the hex and base64 that it calls
--   Uir/Project      internal/uir/project.go: copyMeta, lookupDataField, applyMissing, and in Parts and
--                    Walk projectNode, projectArray and Project
--   Uir/Plan         internal/uir/plan.go: CompilePlan, GetOrCompilePlan and ApplyPlan
--   Uir/Schema       internal/uir/schema.go: ResolvePayloadType, and in Diff DiffRecursive and
--                    CompatibilityClass
--   Codec/Cbor       internal/codec/cbor.go: GenerateCBOR (Encode) and ParseCBOR (Decode)
--   Codec/MsgPack    internal/codec/msgpack.go: GenerateMessagePack (Encode) and ParseMessagePack (Decode)
--   Codec/Options    internal/codec/options.go: TypeSchema and requireType
--   Codec/Formats    internal/codec/formats.go: NormalizeFormat and the kinds of formats
--   Codec/Target     internal/codec/cbor_target.go: ValidateCBORTarget
--   Codec/Payload    internal/codec/registry.go and options.go: the table of codecs, DecodePayload and
--                    EncodePayload
--   Codec/Protobuf   internal/codec/protobuf.go: varints and tags, and in Encode and Decode
--                    GenerateProtobufWithOptions and ParseProtobufWithOptions
--   Registry         internal/registry/registry.go: Register, GetActive, GetVersion, Activate,
--                    Deprecate, DeleteVersion, List, and in Compare Diff and Compatibility; Shelf
--                    says what these calls promise for one name
--   Network/WebSocket  internal/network/websocket.go: WriteMessage, CloseWithCode, HandleCloseFrame
--                    and, in Read, ReadMessage
--   Stream           internal/stream: Subscription, frame.go and broker.go (Envelope, Publish)
--   Stream/Selection  internal/stream/broker_filter.go: expandSelections and filterBySelection, over the
--                    selections of internal/ast/graphql.go
--   Stream/Operation  internal/stream/graphql.go and broker.go: SelectOperation, SelectSubscription,
--                    RootFieldsFromOp, ReturnTypeForEvent, ValidateSelections
--   Stream/Projection  internal/stream/broker.go: projectEventToNode
--   Examples         tests, and each theorem at a concrete input
-- The modules below a component hold its proofs and are named for what they prove.
--
-- State is a record that an operation takes and returns. The Registry is its two maps; a pointer to an
-- entry is its place in the list of its name. A connection is the bytes to come, the bytes sent and
-- its flags; the network's failures and the random source are fields of it. The broker is its
-- subscriptions, and PublishEvent treats each of them alone, so the order of Go's map does not show.
-- A lock makes one call one step, and Registry.Lifecycle runs the calls in any order.
--
-- Numbers and fuel. Words keep their wrap-around; a float is its bit pattern. CBOR nests by levels
-- counted down from the depth limit of 64, which the source counts up. The parser of type expressions
-- and ParseMessagePack have one more round of fuel than there are bytes, a decimal one more than the
-- number, and ReadMessage one more than the bytes to come: every round takes at least one byte, and
-- the theorems of these parsers hold with that fuel. ParseProtobuf has as much fuel as there are bytes,
-- projection one round more than the data has levels, since each call goes to a child of the data, and
-- the comparison of schemas one more than the new schema has. The protobuf encoder takes its fuel as an
-- argument, since the source does not end on every node (a union calls itself), and so does the
-- expansion of selections, which is endless for a fragment that spreads itself.
--
-- A panic of the source is an error of its own (nil_pointer, slice_panic), so that a theorem says
-- whether it can happen. What the Go language or its library leaves open in a coercion (the text that
-- fmt prints, the number a float out of range becomes, the folding of letters, the text of a float, the
-- order of a map) is the record Host, over which the theorems are stated; what encoding/json does on the
-- header of the binary envelope is the record HeaderJson; the case and the blanks of a
-- format's name beyond ASCII are the record Unicode.
--
-- What is not modelled: the lexers and the lowering of schema languages, the codecs other than CBOR,
-- MessagePack and protobuf, the pool of nodes in internal/uir, the JSON file of the registry, telemetry,
-- the HTTP server and the upgrade of a connection. The broker takes what it calls of other parts as a
-- record of functions, and the table of codecs those that have no module; the theorems hold for all of
-- them. Deadlines appear as the end of the bytes to come. The arguments of a GraphQL selection and
-- the time of an event, which the modelled code does not read, are left out.
pub mod Prelude
pub mod Uir
pub mod Codec
pub mod Registry
pub mod Network
pub mod Stream
mod Examples
