-- ===== src/Stream/Publish.antt =====
-- internal/stream/broker.go: how an event reaches the subscriptions. What the broker calls in other
-- packages (decoding, projection, encoding, the text of JSON messages) is a record of functions.
use omni_schema.Prelude.Bytes.{is_empty}
use omni_schema.Prelude.{ℕ, ◌+◌}
use omni_schema.Prelude.{Bool, true, false, not, ◌&&◌, ◌||◌, if◌then◌else◌, ltb, ◌==◌}
use omni_schema.Prelude.{List, [], ◌∷◌, ◌++◌, Option, none, some}
use omni_schema.Prelude.Bytes.{Text, codes, text_eq, decimal}
use omni_schema.Prelude.Result.{Result, ok, err}
use omni_schema.Uir.Types.{UirType}
use omni_schema.Uir.Node.{Any, Node, new_node, add_child}
use omni_schema.Registry.{Registry, SchemaMetadata, get_version}
use omni_schema.Stream.Subscription.{
  Subscription, SchemaLifecycle, RootField, Frame, close, remember, matches_event, append_batch,
  enqueue, is_text_format,
}
use omni_schema.Stream.Envelope.{Event, HeaderJson, encode_binary_envelope}

pub record Services : Type 0 where
  pub decode_payload : Text → List ℕ → Subscription → Option Node
  pub project_event : Registry → Subscription → RootField → Node → Option Node
  pub is_container_format : Text → Bool
  pub encode_payload : Registry → Subscription → Node → Option (List ℕ)
  pub wrap_graphql : Subscription → Event → List ℕ → RootField → Option (List ℕ)
  pub wrap_json : Subscription → Event → List ℕ → Option (List ℕ)
  pub json : HeaderJson
  pub error_json : Text → Text → List ℕ

pub data BuildError : Type 0 where
  buffering failed : BuildError

-- The map of subscriptions, each with the address that it is a key by.
pub record Broker : Type 0 where
  pub subscriptions : List (ℕ × Subscription)
  pub event_seq : ℕ

abbrev pub is_pinned : Subscription → Bool
is_pinned s = not (is_empty s.schema_version || text_eq s.schema_version (codes "unknown"))

abbrev pub found_lifecycle : Option SchemaMetadata → Subscription → Bool × Subscription
found_lifecycle none s = (false, record s { lifecycle = SchemaLifecycle.missing })
found_lifecycle (some m) s =
    (true, if m.deprecated then record s { lifecycle = SchemaLifecycle.deprecated } else s)

-- schemaStillValid, with the lifecycle that it sets.
unfoldable pub schema_still_valid : Registry → Subscription → Bool × Subscription
schema_still_valid r s =
    if is_pinned s
    then found_lifecycle (get_version s.schema_name s.schema_version r) s
    else (true, s)

unfoldable pub array_of : List Node → Node → Node
array_of [] root = root
array_of (n ∷ ns) root = array_of ns (add_child root n)

abbrev pub frame_or_failed : ℕ → Option (List ℕ) → Result BuildError Frame
frame_or_failed op none = err BuildError.failed
frame_or_failed op (some p) = ok (record { opcode = op; payload = p })

module _ (svc : Services) (r : Registry) where
  -- The part of buildFrame after the node is final.
  unfoldable pub wrap_frame : Subscription → Event → RootField → Node → Result BuildError Frame
  wrap_frame s evt rf n = elim (svc.encode_payload r s n) [
    | none ↦ err BuildError.failed
    | some encoded ↦
        if is_text_format s.target_format
        then frame_or_failed 1 (
            if text_eq s.target_format (codes "graphql")
            then svc.wrap_graphql s evt encoded rf
            else svc.wrap_json s evt encoded)
        else ok (record { opcode = 2; payload = encode_binary_envelope svc.json s evt encoded })
  ]

  abbrev pub flush_batch :
      Event → RootField → Option (List Node) × Subscription → Result BuildError Frame × Subscription
  flush_batch evt rf (none, s) = (err BuildError.buffering, s)
  flush_batch evt rf (some nodes, s) =
      (wrap_frame s evt rf (array_of nodes (new_node UirType.array (codes "Root") Any.nil)), s)

  unfoldable pub batch_frame :
      Subscription → Event → RootField → Node → Result BuildError Frame × Subscription
  batch_frame s evt rf n =
      if svc.is_container_format s.target_format && ltb 1 s.batch_size
      then flush_batch evt rf (append_batch n s)
      else (wrap_frame s evt rf n, s)

  unfoldable pub build_frame :
      Subscription → Event → Node → RootField → Result BuildError Frame × Subscription
  build_frame s evt root rf =
      if is_pinned s
      then (elim (svc.project_event r s rf root) [
        | none ↦ (err BuildError.failed, s)
        | some n ↦ batch_frame s evt rf n
      ])
      else batch_frame s evt rf root

  abbrev pub enqueue_built : Result BuildError Frame × Subscription → Subscription
  enqueue_built (ok f, s) = enqueue f s
  enqueue_built (err e, s) = s

  -- The frame of an event that decodes and matches.
  abbrev pub route : Event → Subscription → Option Node → Option RootField → Subscription
  route evt s none m = s
  route evt s (some n) none = s
  route evt s (some n) (some rf) = enqueue_built (build_frame s evt n rf)

  -- The loop's body once the event is new and the schema valid.
  unfoldable pub forward : Event → Subscription → Subscription
  forward evt s =
      let source = if is_empty s.source_format then evt.source_format else s.source_format in
      route evt s (svc.decode_payload source evt.payload s) (matches_event evt.type s)

  abbrev pub checked : Event → Bool × Subscription → Subscription
  checked evt (true, s) = forward evt s
  checked evt (false, s) = close (
      enqueue
        (record {
          opcode = 1;
          payload = svc.error_json s.id (codes "schema version missing or deleted");
        })
        s)

  abbrev pub remembered : Event → Bool × Subscription → Subscription
  remembered evt (true, s) = checked evt (schema_still_valid r s)
  remembered evt (false, s) = s

  -- The body of PublishEvent's loop.
  unfoldable pub deliver : Event → Subscription → Subscription
  deliver evt s = if s.closed then s else remembered evt (remember evt.id s)

  -- The loop, in the order in which the map is walked.
  abbrev pub deliver_all : Event → List (ℕ × Subscription) → List (ℕ × Subscription)
  deliver_all evt [] = []
  deliver_all evt ((k, s) ∷ m) = (k, deliver evt s) ∷ deliver_all evt m

  -- PublishEvent on an event that has an id and a cursor.
  unfoldable pub publish : Event → Broker → Broker
  publish evt b = record b { subscriptions = deliver_all evt b.subscriptions }

  -- PublishEvent: an event without an id is given the next one.
  unfoldable pub publish_event : Event → Broker → Broker
  publish_event evt b =
      let next = b.event_seq + 1 in
      let fresh = codes "evt-" ++ decimal next in
      let numbered = record evt { id = if is_empty evt.id then fresh else evt.id } in
      let cursor = if is_empty evt.cursor then numbered.id else evt.cursor in
      publish (record numbered { cursor = cursor })
        (record b { event_seq = if is_empty evt.id then next else b.event_seq })

unfoldable pub subscribed : ℕ → List (ℕ × Subscription) → Bool
subscribed k [] = false
subscribed k ((j, s) ∷ m) = if j == k then true else subscribed k m

unfoldable pub unsubscribe : ℕ → List (ℕ × Subscription) → List (ℕ × Subscription)
unsubscribe k [] = []
unsubscribe k ((j, s) ∷ m) = let rest = unsubscribe k m in if j == k then rest else (j, s) ∷ rest

-- AddSubscription, for a subscription that has its channels.
unfoldable pub add_subscription : ℕ → Subscription → Broker → Broker
add_subscription k s b = record b {
  subscriptions =
      if subscribed k b.subscriptions then b.subscriptions else (k, s) ∷ b.subscriptions;
}

-- RemoveSubscription, and the subscription after it.
unfoldable pub remove_subscription : ℕ → Subscription → Broker → Broker × Subscription
remove_subscription k s b = (record b { subscriptions = unsubscribe k b.subscriptions }, close s)
