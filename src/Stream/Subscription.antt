-- ===== src/Stream/Subscription.antt =====
-- internal/stream/subscription.go and frame.go: what the broker keeps of a subscriber. The channel is
-- the list of frames in it; a slot that the sender of frames empties is not part of the broker.
use omni_schema.Prelude.Bytes.{is_empty}
use omni_schema.Prelude.{ℕ, Bool, true, false, ◌||◌, if◌then◌else◌, ltb, leb}
use omni_schema.Prelude.{List, [], ◌∷◌, ◌++◌, length, Option, none, some}
use omni_schema.Prelude.Bytes.{Text, codes, text_eq, mem_text}
use omni_schema.Uir.Node.{Node}

pub record Frame : Type 0 where
  pub opcode : ℕ
  pub payload : List ℕ

unfoldable pub is_text_format : Text → Bool
is_text_format f =
    text_eq f (codes "graphql")
    || (text_eq f (codes "json") || (text_eq f (codes "odata") || text_eq f (codes "graphql_sdl")))

pub data SchemaLifecycle : Type 0 where
  bound missing deprecated incompatible : SchemaLifecycle

-- A RootField, but for the selections, which the projection reads.
pub record RootField : Type 0 where
  pub name : Text
  pub alias : Text
  pub return_type : Text

pub record Subscription : Type 0 where
  pub id : Text
  pub schema_name : Text
  pub schema_version : Text
  pub root_fields : List RootField
  pub response_key : Text
  pub event_type : Text
  pub queue : List Frame
  pub closed : Bool
  pub target_format : Text
  pub source_format : Text
  pub source_type : Text
  pub target_type : Text
  pub batch_size : ℕ
  pub batch_nodes : List Node
  pub lifecycle : SchemaLifecycle
  pub seen : List Text

-- make(chan Frame, 100)
abbrev pub queue_capacity : ℕ
queue_capacity = 100

unfoldable pub new_subscription : Subscription
new_subscription = record {
  id = [];
  schema_name = [];
  schema_version = [];
  root_fields = [];
  response_key = [];
  event_type = [];
  queue = [];
  closed = false;
  target_format = [];
  source_format = [];
  source_type = [];
  target_type = [];
  batch_size = 1;
  batch_nodes = [];
  lifecycle = SchemaLifecycle.bound;
  seen = [];
}

-- Close: closeOnce makes a second call do nothing.
unfoldable pub close : Subscription → Subscription
close s = record s { closed = true }

-- Remember: whether the event is new, and the set with it. A full set starts over.
unfoldable pub remember : Text → Subscription → Bool × Subscription
remember [] s = (true, s)
remember (b ∷ bs) s =
    if mem_text (b ∷ bs) s.seen
    then (false, s)
    else (true, record s { seen = (b ∷ bs) ∷ (if ltb 4096 (length s.seen) then [] else s.seen) })

unfoldable pub find_root : Text → List RootField → Option RootField
find_root t [] = none
find_root t (f ∷ fs) = if text_eq f.name t then some f else find_root t fs

unfoldable pub matches_event : Text → Subscription → Option RootField
matches_event t s = elim s.root_fields [
  | [] ↦
      if is_empty s.event_type || text_eq s.event_type t
      then some (record { name = t; alias = s.response_key; return_type = [] })
      else none
  | f ∷ fs ↦ find_root t (f ∷ fs)
]

-- appendBatch: the batch that is full with the node, or the nodes kept.
unfoldable pub append_batch : Node → Subscription → Option (List Node) × Subscription
append_batch n s =
    let nodes = s.batch_nodes ++ (n ∷ []) in
    if leb s.batch_size (length nodes)
    then (some nodes, record s { batch_nodes = [] })
    else (none, record s { batch_nodes = nodes })

-- The three attempts of enqueue on a channel of a capacity: a full one loses its oldest frame.
unfoldable pub push : ℕ → Frame → List Frame → List Frame
push capacity f q = if ltb (length q) capacity then q ++ (f ∷ []) else q

unfoldable pub make_room : ℕ → List Frame → List Frame
make_room capacity [] = []
make_room capacity (g ∷ gs) = if ltb (length (g ∷ gs)) capacity then g ∷ gs else gs

unfoldable pub enqueue : Frame → Subscription → Subscription
enqueue f s = record s { queue = push queue_capacity f (make_room queue_capacity s.queue) }
