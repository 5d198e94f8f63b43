-- ===== src/Uir/Node.antt =====
-- internal/uir/node.go: the nodes of the graph. Children are owned, and the back link Parent, which
-- AddChild sets, is the position in the tree. Floats are held by their bit patterns.
pub mod Find
use omni_schema.Prelude.{ℕ, Bool, true, false, ◌&&◌, ◌||◌, not, if◌then◌else◌}
use omni_schema.Prelude.{List, [], ◌∷◌}
use omni_schema.Prelude.Int.{ℤ}
use omni_schema.Prelude.Bytes.{Text, text_eq}
use omni_schema.Prelude.Result.{Result, ok, err}
use omni_schema.Uir.Types.{UirType, type_eq}
use omni_schema.Uir.Presence.{Presence, FieldCardinality}
use omni_schema.Uir.TypeExpr.{TypeExpr}

-- The dynamic values that a field of type `any` holds in this program.
pub data Any : Type 0 where
  nil : Any
  bool : Bool → Any
  int int32 int64 : ℤ → Any
  uint32 uint64 : ℕ → Any
  float32 float64 : ℕ → Any
  text : Text → Any
  bytes : List ℕ → Any
  other : Any

-- A map[string]string as an association list.
abbrev pub Annotations : Type 0
Annotations = List (Text × Text)

unfoldable pub lookup : Text → Annotations → Text
lookup k [] = []
lookup k ((j, v) ∷ m) = if text_eq j k then v else lookup k m

unfoldable pub insert : Text → Text → Annotations → Annotations
insert k v [] = (k, v) ∷ []
insert k v ((j, w) ∷ m) = if text_eq j k then (k, v) ∷ m else (j, w) ∷ insert k v m

-- The fields of a Node that hold no node.
pub record Head : Type 0 where
  pub type : UirType
  pub key : Text
  pub value : Any
  pub element_type : UirType
  pub type_expr : TypeExpr
  pub presence : Presence
  pub cardinality : FieldCardinality
  pub default_value : Any
  pub annotations : Annotations

-- `*Node`, with the nil pointer, and `[]*Node`.
mutual
  pub data Node : Type 0 where
    nil : Node
    node : Head → Nodes → Node

  pub data Nodes : Type 0 where
    none : Nodes
    more : Node → Nodes → Nodes

-- `n == nil`, n.Key and n.Children, the latter two on a node that is not nil.
abbrev pub is_nil_node : Node → Bool
is_nil_node Node.nil = true
is_nil_node (Node.node h ns) = false

abbrev pub key_of : Node → Text
key_of Node.nil = []
key_of (Node.node h ns) = h.key

abbrev pub children_of : Node → Nodes
children_of Node.nil = Nodes.none
children_of (Node.node h ns) = ns

abbrev pub of_list : List Node → Nodes
of_list [] = Nodes.none
of_list (n ∷ ns) = Nodes.more n (of_list ns)

-- NewNode: only a null node has another presence than present.
unfoldable pub new_head : UirType → Text → Any → Head
new_head t key val = record {
  type = t;
  key = key;
  value = val;
  element_type = UirType.unknown;
  type_expr = TypeExpr.nil;
  presence = if type_eq t UirType.null then Presence.null else Presence.present;
  cardinality = FieldCardinality.optional;
  default_value = Any.nil;
  annotations = [];
}

unfoldable pub new_node : UirType → Text → Any → Node
unfolding new_head
new_node t key val = Node.node (new_head t key val) Nodes.none

unfoldable pub append_node : Nodes → Node → Nodes
append_node Nodes.none c = Nodes.more c Nodes.none
append_node (Nodes.more n ns) c = Nodes.more n (append_node ns c)

-- AddChild on a node that is not nil.
unfoldable pub add_child : Node → Node → Node
unfolding append_node
add_child Node.nil c = Node.nil
add_child (Node.node h ns) c = Node.node h (append_node ns c)

unfoldable pub set_annotation : Node → Text → Text → Node
unfolding insert
set_annotation Node.nil k v = Node.nil
set_annotation (Node.node h ns) k v =
    Node.node (record h { annotations = insert k v h.annotations }) ns

unfoldable pub annotation : Node → Text → Text
unfolding lookup
annotation Node.nil k = []
annotation (Node.node h ns) k = lookup k h.annotations

copy_annotations : Annotations → Annotations → Annotations
unfolding insert
copy_annotations [] out = out
copy_annotations ((k, v) ∷ m) out = copy_annotations m (insert k v out)

unfoldable pub clone_shallow : Node → Node
unfolding new_head copy_annotations
clone_shallow Node.nil = Node.nil
clone_shallow (Node.node h ns) =
    Node.node
      (record (new_head h.type h.key h.value) {
        element_type = h.element_type;
        type_expr = h.type_expr;
        presence = h.presence;
        cardinality = h.cardinality;
        default_value = h.default_value;
        annotations = copy_annotations h.annotations [];
      })
      Nodes.none

abbrev pub is_named_kind : UirType → Bool
is_named_kind t =
    type_eq t UirType.map
    || type_eq t UirType.enum
    || type_eq t UirType.union
    || type_eq t UirType.interface
    || type_eq t UirType.definition

abbrev pub declares : Text → Head → Bool
declares name h = text_eq h.key name && is_named_kind h.type

-- `if found != nil` on the result of one child, else what the later ones give.
or_else : Node → Node → Node
or_else Node.nil rest = rest
or_else (Node.node h ns) rest = Node.node h ns

unfoldable mutual
  unfolding or_else

  pub find_named_type : Node → Text → Node
  find_named_type Node.nil name = Node.nil
  find_named_type (Node.node h ns) name =
      let deeper = find_in_children ns name in if declares name h then Node.node h ns else deeper

  pub find_in_children : Nodes → Text → Node
  find_in_children Nodes.none name = Node.nil
  find_in_children (Nodes.more n ns) name =
      or_else (find_named_type n name) (find_in_children ns name)

-- ChildByKey on a node that is not nil: it reads through a nil child, which is the caller's error e.
unfoldable pub child_by_key : {E : Type 0} → E → Text → Nodes → Result E Node
child_by_key e key Nodes.none = ok Node.nil
child_by_key e key (Nodes.more Node.nil ns) = err e
child_by_key e key (Nodes.more (Node.node h cs) ns) =
    if text_eq h.key key then ok (Node.node h cs) else child_by_key e key ns
