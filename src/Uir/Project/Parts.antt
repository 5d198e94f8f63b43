-- ===== src/Uir/Project/Parts.antt =====
-- internal/uir/project.go: the steps of projectNode and projectArray that do not recur.
use omni_schema.Prelude.{Bool, true, false, not, ◌&&◌, ◌||◌, if◌then◌else◌}
use omni_schema.Prelude.{Option, none, some, List, ◌∷◌}
use omni_schema.Prelude.Bytes.{Text, codes, is_empty, mem_text}
use omni_schema.Prelude.Result.{Result, ok, err}
use omni_schema.Uir.Types.{UirType, type_eq}
use omni_schema.Uir.Presence.{ConversionReport, ConversionKind}
use omni_schema.Uir.Node.{
  key_of, Any, Node, Nodes, Head, new_head, lookup, append_node, clone_shallow,
}
use omni_schema.Uir.Coerce.{CoerceError, UnknownFieldPolicy}
use omni_schema.Uir.Coerce.Value.{Reported}
use omni_schema.Uir.Project.{ProjectError, copy_into, resolve_named, resolve_ref}

-- The schema that a field stands for: a named type that it refers to, under the key, the cardinality
-- and the annotations of the field.
unfoldable pub is_reference : Head → Nodes → Bool
is_reference h Nodes.none =
    type_eq h.type UirType.ref
    || type_eq h.type UirType.map && not (is_empty (lookup (codes "gql_type") h.annotations))
is_reference h (Nodes.more n ns) = type_eq h.type UirType.ref

-- The changes that a field makes to the copy of the type that it refers to.
unfoldable pub renamed : Head → UirType → Nodes → Node → Node
unfolding copy_into
renamed h type ns Node.nil = Node.nil
renamed h type ns (Node.node c _) =
    Node.node
      (record c {
        key = h.key;
        cardinality = h.cardinality;
        annotations = copy_into h.annotations c.annotations;
        type = type;
      })
      ns

abbrev pub referred : Head → Nodes → Node → Node
referred h ns Node.nil = Node.node h ns
referred h ns (Node.node t ts) = renamed h t.type ts (clone_shallow (Node.node t ts))

unfoldable pub target_schema : Head → Nodes → Node → Node
unfolding is_reference renamed resolve_named
target_schema h ns root =
    if is_reference h ns
    then referred h ns (resolve_named (lookup (codes "gql_type") h.annotations) root)
    else Node.node h ns

-- AddChild for a field, which is left out where it is nil.
abbrev pub add_field : Nodes → Text → Node → Nodes
add_field out key Node.nil = out
add_field out key (Node.node h ns) = append_node out (Node.node (record h { key = key }) ns)

abbrev pub matched_with : Option Node → List Text → List Text
matched_with none seen = seen
matched_with (some child) seen = key_of child ∷ seen

abbrev pub is_strict_unknown : UnknownFieldPolicy → Bool
is_strict_unknown UnknownFieldPolicy.strict = true
is_strict_unknown _ = false

abbrev pub is_ignore : UnknownFieldPolicy → Bool
is_ignore UnknownFieldPolicy.ignore = true
is_ignore _ = false

-- The loop over the data that no field matched, under a policy other than ignore.
unfoldable pub add_unknown :
    UnknownFieldPolicy → Nodes → List Text → Nodes → Result ProjectError Nodes
add_unknown policy Nodes.none seen out = ok out
add_unknown policy (Nodes.more Node.nil ns) seen out = err ProjectError.nil_pointer
add_unknown policy (Nodes.more (Node.node h cs) ns) seen out =
    let kept = add_unknown policy ns seen out in
    let added = add_unknown policy ns seen (append_node out (Node.node h cs)) in
    if mem_text h.key seen
    then kept
    else if is_strict_unknown policy
    then err (ProjectError.unknown_field h.key)
    else added

unfoldable pub unknown_fields_of :
    UnknownFieldPolicy → Nodes → List Text → Nodes → Result ProjectError Nodes
unfolding add_unknown
unknown_fields_of policy ns seen out =
    if is_ignore policy then ok out else add_unknown policy ns seen out

-- The schema of the elements: the first child, the array's own where it has none.
abbrev pub element_schema : Head → Nodes → Node
element_schema h Nodes.none = Node.node h Nodes.none
element_schema h (Nodes.more n ns) = n

abbrev pub is_composite : Head → Node → Result ProjectError Bool
is_composite h Node.nil =
    if type_eq h.element_type UirType.map then ok true else err ProjectError.nil_pointer
is_composite h (Node.node e es) =
    ok (
      type_eq h.element_type UirType.map
      || type_eq e.type UirType.map
      || type_eq e.type UirType.ref)

-- AddChild sets the parent of the child, which it reads through.
abbrev pub not_nil : Node → Result ProjectError Node
not_nil Node.nil = err ProjectError.nil_pointer
not_nil (Node.node h ns) = ok (Node.node h ns)

abbrev pub with_context :
    (CoerceError → ProjectError)
    → Reported
    → ConversionReport × Result ProjectError (Any × ConversionKind)
with_context context (r, ok v) = (r, ok v)
with_context context (r, err e) = (r, err (context e))

-- NewNode under the key of the element.
abbrev pub element_node : UirType → Any → Node → Result ProjectError Node
element_node type value Node.nil = err ProjectError.nil_pointer
element_node type value (Node.node e es) = ok (Node.node (new_head type e.key value) Nodes.none)

abbrev pub is_container : UirType → Bool
is_container t =
    type_eq t UirType.map
    || type_eq t UirType.union
    || type_eq t UirType.interface
    || type_eq t UirType.definition

abbrev pub resolved_or : Node → Node → Node
resolved_or schema Node.nil = schema
resolved_or schema (Node.node t ts) = Node.node t ts

abbrev pub resolved : Head → Nodes → Node → Node
resolved h ns root =
    if type_eq h.type UirType.ref
    then resolved_or (Node.node h ns) (resolve_ref h root)
    else Node.node h ns
