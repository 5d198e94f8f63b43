-- ===== src/Examples/StreamRuns.antt =====
-- Runs of internal/stream.
use omni_schema.Prelude.{
  ℕ, ◌+◌, ◌-◌, ◌≡◌, refl, arith, false, List, [], ◌∷◌, ◌==◌, if◌then◌else◌, none, ◌++◌, length,
  drop,
}
use omni_schema.Prelude.{some}
use omni_schema.Prelude.Bytes.{Text, codes, is_empty}
use omni_schema.Prelude.Result.{ok}
use omni_schema.Uir.Types.{UirType}
use omni_schema.Uir.Node.{Node, Any, new_node}
use omni_schema.Registry.{new_registry}
use omni_schema.Stream.Subscription.{Subscription, Frame, new_subscription, queue_capacity}
use omni_schema.Stream.Queue.{enqueue_all, enqueue_all-drop}
use omni_schema.Stream.Batch.{feed, Batched, feed-Batched}
use omni_schema.Stream.Envelope.{
  Event, Header, HeaderJson, ReadsBack, Describes, envelope_header, encode_binary_envelope,
  decode_binary_envelope, decode_binary_envelope-encode_binary_envelope,
}
use omni_schema.Stream.Publish.{Services, Broker, publish}
use omni_schema.Stream.Once.{publish-publish}

abbrev numbered : ℕ → Frame
numbered n = record { opcode = 1; payload = n ∷ [] }

abbrev pair_batches : Subscription
pair_batches = record new_subscription { batch_size = 2; target_format = codes "avro" }

enqueue_all-drop_example :
    (enqueue_all (numbered 1 ∷ numbered 2 ∷ []) new_subscription).queue
    ≡ drop
        (length (new_subscription.queue) + length (numbered 1 ∷ numbered 2 ∷ []) - queue_capacity)
        (new_subscription.queue ++ (numbered 1 ∷ numbered 2 ∷ []))
unfolding new_subscription
enqueue_all-drop_example =
    enqueue_all-drop (numbered 1 ∷ numbered 2 ∷ []) new_subscription (omega arith)

abbrev leaf : Node
leaf = new_node UirType.string (codes "a") Any.nil

feed-Batched_example :
    Batched (leaf ∷ leaf ∷ leaf ∷ []) pair_batches (feed (leaf ∷ leaf ∷ leaf ∷ []) pair_batches)
unfolding new_subscription
feed-Batched_example = feed-Batched (leaf ∷ leaf ∷ leaf ∷ []) pair_batches (omega arith)

-- JSON of a map of texts that need no escapes: printed with quotes, and read by the quotes.
print_fields : Text → Header → Text
print_fields separator [] = codes "}"
print_fields separator ((k, v) ∷ m) =
    separator ++ (34 ∷ k) ++ (34 ∷ 58 ∷ 34 ∷ v) ++ (34 ∷ print_fields (codes ",") m)

abbrev put_byte : ℕ → List Text → List Text
put_byte b [] = (b ∷ []) ∷ []
put_byte b (word ∷ words) = (b ∷ word) ∷ words

-- What stands between the quotes.
quoted : Text → List Text
quoted [] = [] ∷ []
quoted (b ∷ bs) = let rest = quoted bs in if b == 34 then [] ∷ rest else put_byte b rest

abbrev entries : List Text → Header
entries (before ∷ k ∷ colon ∷ v ∷ more) = (k, v) ∷ entries more
entries _ = []

abbrev json : HeaderJson
json = record {
  marshal = print_fields (codes "{");
  unmarshal = λ bytes. if is_empty bytes then none else some (entries (quoted bytes));
}

abbrev first_event : Event
first_event = record {
  id = codes "evt-1";
  type = codes "created";
  source_format = codes "json";
  payload = codes "1";
  cursor = codes "evt-1";
}

json-ReadsBack : ReadsBack json (envelope_header pair_batches first_event)
unfolding new_subscription envelope_header print_fields quoted
json-ReadsBack = (envelope_header pair_batches first_event, refl, λ k. refl)

decode_binary_envelope-encode_binary_envelope_example :
    (m : Header) × (decode_binary_envelope json
        (encode_binary_envelope json pair_batches first_event (1 ∷ 2 ∷ []))
      ≡ ok (m, 1 ∷ 2 ∷ []))
    × Describes pair_batches first_event m
unfolding new_subscription envelope_header print_fields
decode_binary_envelope-encode_binary_envelope_example =
    decode_binary_envelope-encode_binary_envelope json pair_batches first_event (1 ∷ 2 ∷ [])
      json-ReadsBack (omega arith)

-- Services of one text format.
abbrev services : Services
services = record {
  decode_payload = λ format bytes s. some leaf;
  project_event = λ r s rf n. some n;
  is_container_format = λ format. false;
  encode_payload = λ r s n. some (codes "1");
  wrap_graphql = λ s evt bytes rf. some bytes;
  wrap_json = λ s evt bytes. some bytes;
  json = json;
  error_json = λ id message. message;
}

abbrev one_subscriber : Broker
one_subscriber = record {
  subscriptions = (1, record new_subscription { target_format = codes "json" }) ∷ [];
  event_seq = 1;
}

publish-publish_example :
    publish services new_registry first_event
      (publish services new_registry first_event one_subscriber)
    ≡ publish services new_registry first_event one_subscriber
publish-publish_example = publish-publish services new_registry first_event one_subscriber refl
