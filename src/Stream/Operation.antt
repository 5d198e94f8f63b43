-- ===== src/Stream/Operation.antt =====
-- internal/stream/graphql.go and SelectOperation of internal/stream/broker.go: the operation that a
-- client subscribes to, its root fields and the check of its selections against a schema.
use omni_schema.Prelude.{ℕ, zero, suc, not, ◌&&◌, if◌then◌else◌}
use omni_schema.Prelude.{Option, none, some, List, [], ◌∷◌}
use omni_schema.Prelude.Bytes.{Text, codes, text_eq, is_empty}
use omni_schema.Prelude.Maps.{find}
use omni_schema.Prelude.Result.{Result, ok, err, guard, ◌>>=◌, ◌>>◌}
use omni_schema.Uir.TypeExpr.{named_leaf, parse_graphql_type_expr}
use omni_schema.Uir.Node.{Node, Nodes, Head, lookup, is_nil_node, find_named_type, child_by_key}
use omni_schema.Uir.Project.{index_data_children}
use omni_schema.Stream.Subscription.{RootField}
use omni_schema.Stream.Selection.{
  Selection, Selections, Field, SelectionError, no_selections, expanded_or_fuel,
}

pub record Operation : Type 0 where
  pub operation_type : Text
  pub name : Text
  pub selections : Selections

-- GraphQLDefinition, of which only the operations are read here.
pub data Definition : Type 0 where
  operation : Operation → Definition
  other : Definition

abbrev pub operations_of : List Definition → List Operation
operations_of [] = []
operations_of (Definition.operation op ∷ ds) = op ∷ operations_of ds
operations_of (Definition.other ∷ ds) = operations_of ds

unfoldable pub named_operation : Text → List Operation → Result SelectionError Operation
named_operation name [] = err (SelectionError.operation_not_found name)
named_operation name (op ∷ ops) = if text_eq op.name name then ok op else named_operation name ops

unfoldable pub choose_operation : Text → List Operation → Result SelectionError Operation
unfolding named_operation
choose_operation name [] = err SelectionError.no_operation
choose_operation name (op ∷ []) = if is_empty name then ok op else named_operation name (op ∷ [])
choose_operation name (op ∷ next ∷ ops) =
    if is_empty name
    then err SelectionError.multiple_operations
    else named_operation name (op ∷ next ∷ ops)

unfoldable pub select_operation : List Definition → Text → Result SelectionError Operation
unfolding choose_operation
select_operation doc name = choose_operation name (operations_of doc)

unfoldable pub select_subscription : List Definition → Text → Result SelectionError Operation
unfolding select_operation
select_subscription doc name = do
  op ← select_operation doc name
  guard (text_eq op.operation_type (codes "subscription"))
      (SelectionError.not_a_subscription op.operation_type)
  ok op

-- The return type of a field of the type Subscription, from its annotations.
abbrev pub annotated_type : Head → Text
annotated_type h =
    let named = lookup (codes "gql_type") h.annotations in
    let expr = lookup (codes "gql_type_expr") h.annotations in
    if not (is_empty expr) && is_empty named
    then named_leaf (parse_graphql_type_expr expr)
    else named

abbrev pub type_of_field : Text → Node → Result SelectionError Text
type_of_field name Node.nil = err (SelectionError.not_in_subscription name)
type_of_field name (Node.node h ns) = ok (annotated_type h)

-- For a schema, which may be nil, and its type Subscription.
unfoldable pub root_return_type : Node → Node → Text → Result SelectionError Text
root_return_type schema Node.nil name =
    if is_nil_node schema then ok [] else err SelectionError.no_subscription_type
root_return_type schema (Node.node h ns) name =
    child_by_key SelectionError.nil_pointer name ns >>= type_of_field name

unfoldable pub root_fields :
    Node → Node → Selections → Result SelectionError (List (RootField × Selections))
unfolding root_return_type
root_fields schema sub Selections.nil = ok []
root_fields schema sub (Selections.cons (Selection.field alias name s) rest) = do
  type ← root_return_type schema sub name
  fields ← root_fields schema sub rest
  let root : RootField = record {
    name = name;
    alias = if is_empty alias then name else alias;
    return_type = type;
  }
  ok ((root, s) ∷ fields)
root_fields schema sub (Selections.cons (Selection.fragment_spread name) rest) =
    err SelectionError.root_not_field
root_fields schema sub (Selections.cons (Selection.inline_fragment s) rest) =
    err SelectionError.root_not_field

-- RootFieldsFromOp, for an operation that is not nil.
unfoldable pub root_fields_from_op :
    Operation → Node → Result SelectionError (List (RootField × Selections))
unfolding root_fields
root_fields_from_op op schema =
    guard (not (no_selections op.selections)) SelectionError.no_root_fields
    >> root_fields schema (find_named_type schema (codes "Subscription")) op.selections

abbrev pub found_type : Text → Node → Result SelectionError Node
found_type named Node.nil = err (SelectionError.return_type_not_found named)
found_type named (Node.node h ns) = ok (Node.node h ns)

abbrev pub return_type_of : Node → Text → Node → Result SelectionError Node
return_type_of schema name Node.nil = err (SelectionError.not_in_subscription name)
return_type_of schema name (Node.node h ns) =
    let annotated = lookup (codes "gql_type") h.annotations in
    let named = if is_empty annotated then named_leaf h.type_expr else annotated in
    if is_empty named then ok (Node.node h ns) else found_type named (find_named_type schema named)

abbrev pub field_of_type : Text → Node → Result SelectionError Node
field_of_type name Node.nil = err SelectionError.no_subscription_type
field_of_type name (Node.node h ns) = child_by_key SelectionError.nil_pointer name ns

unfoldable pub return_type_for_event : Node → Text → Result SelectionError Node
return_type_for_event schema name = do
  guard (not (is_nil_node schema)) SelectionError.no_schema
  field ← field_of_type name (find_named_type schema (codes "Subscription"))
  return_type_of schema name field

abbrev indexed : Nodes → Result SelectionError (List (Text × Node))
indexed ns = elim (index_data_children ns) [
  | err e ↦ err SelectionError.nil_pointer
  | ok idx ↦ ok idx
]

abbrev type_or_child : Node → Node → Node
type_or_child child Node.nil = child
type_or_child child (Node.node h ns) = Node.node h ns

-- The node that the selections of a field are checked against; root is the topmost parent of child.
abbrev pub target_of : Node → Node → Node
target_of root Node.nil = Node.nil
target_of root (Node.node h ns) =
    let named = lookup (codes "gql_type") h.annotations in
    if is_empty named
    then Node.node h ns
    else type_or_child (Node.node h ns) (find_named_type root named)

abbrev pub Validate : Type 0
Validate = Node → Selections → Result SelectionError (Unit {0})

abbrev pub check_found : Validate → Node → Field → Option Node → Result SelectionError (Unit {0})
check_found rec root f none = err (SelectionError.unknown_field f.name)
check_found rec root f (some child) =
    if no_selections f.selections then ok tt else rec (target_of root child) f.selections

unfoldable pub check_fields :
    Validate → Node → List (Text × Node) → List Field → Result SelectionError (Unit {0})
check_fields rec root idx [] = ok tt
check_fields rec root idx (f ∷ fs) =
    check_found rec root f (find f.name idx) >> check_fields rec root idx fs

abbrev pub validate_in :
    Validate
    → (Selections → Option (List Field))
    → Node
    → Node
    → Selections
    → Result SelectionError (Unit {0})
validate_in rec expand root Node.nil s = ok tt
validate_in rec expand root (Node.node h ns) s =
    if no_selections s
    then ok tt
    else do fields ← expanded_or_fuel (expand s); idx ← indexed ns; check_fields rec root idx fields

-- ValidateSelections, with fuel for the fields inside others.
unfoldable pub validate_selections : ℕ → (Selections → Option (List Field)) → Node → Validate
unfolding check_fields index_data_children
validate_selections zero expand root n s = err SelectionError.out_of_fuel
validate_selections (suc fuel) expand root n s =
    validate_in (validate_selections fuel expand root) expand root n s
