-- ===== src/Uir/Schema.antt =====
-- internal/uir/schema.go: the payload type of a schema. A nil pointer that the code would read
-- through is the error `nil_pointer`.
pub mod Diff
pub mod Same
pub mod Class
use omni_schema.Prelude.{Bool, true, false, ◌&&◌, ◌||◌, if◌then◌else◌, List, [], ◌∷◌, ◌++◌}
use omni_schema.Prelude.Bytes.{Text, codes, text_eq, is_empty, mem_text}
use omni_schema.Prelude.Result.{Result, ok, err}
use omni_schema.Uir.Types.{UirType, type_eq}
use omni_schema.Uir.Node.{key_of, Node, Nodes, Head, lookup, find_named_type}

pub data SchemaError : Type 0 where
  not_found ambiguous : Text → SchemaError
  nil_pointer : SchemaError

unfoldable pub skip_schema_wrapper : Node → Bool
skip_schema_wrapper Node.nil = true
skip_schema_wrapper (Node.node h ns) =
    mem_text h.key
      (codes "proto_root" ∷ codes "graphql_root" ∷ codes "capnp_root" ∷ codes "schema" ∷ [])
    || mem_text (lookup (codes "kind") h.annotations)
        (codes "schema" ∷ codes "service" ∷ codes "fragment" ∷ codes "scalar" ∷ codes "rpc" ∷ [])

unfoldable pub is_root_op_type : Head → Bool
is_root_op_type h = mem_text h.key (codes "Query" ∷ codes "Mutation" ∷ codes "Subscription" ∷ [])

unfoldable pub payload_candidates : Nodes → List Node
unfolding skip_schema_wrapper is_root_op_type
payload_candidates Nodes.none = []
payload_candidates (Nodes.more Node.nil ns) = payload_candidates ns
payload_candidates (Nodes.more (Node.node h cs) ns) =
    let rest = payload_candidates ns in
    if skip_schema_wrapper (Node.node h cs) || is_root_op_type h
    then rest
    else Node.node h cs ∷ rest

unfoldable pub candidate_names : List Node → Text
candidate_names [] = []
candidate_names (n ∷ []) = key_of n
candidate_names (n ∷ m ∷ ns) = key_of n ++ (codes ", " ++ candidate_names (m ∷ ns))

-- The one candidate; the schema itself where there is none.
unfoldable pub only_candidate : Node → List Node → Result SchemaError Node
only_candidate schema [] = ok schema
only_candidate schema (n ∷ []) = ok n
only_candidate schema (n ∷ m ∷ ns) = err (SchemaError.ambiguous (candidate_names (n ∷ m ∷ ns)))

-- schema.Key == "Root" && len(schema.Children) > 0 && schema.Children[0].Type == TypeMap
unfoldable pub is_root_of_map : Head → Nodes → Result SchemaError Bool
is_root_of_map h Nodes.none = ok false
is_root_of_map h (Nodes.more Node.nil ns) =
    if text_eq h.key (codes "Root") then err SchemaError.nil_pointer else ok false
is_root_of_map h (Nodes.more (Node.node c cs) ns) =
    ok (text_eq h.key (codes "Root") && type_eq c.type UirType.map)

-- The payload of a schema without a type name. The second search for candidates is the first.
unfoldable pub default_payload : Head → Nodes → Result SchemaError Node
unfolding skip_schema_wrapper payload_candidates only_candidate is_root_of_map
default_payload h ns =
    let chosen = only_candidate (Node.node h ns) (payload_candidates ns) in
    if skip_schema_wrapper (Node.node h ns) then chosen else elim (is_root_of_map h ns) [
      | err e ↦ err e
      | ok b ↦ if b then chosen else ok (Node.node h ns)
    ]

unfoldable pub found_or_error : Text → Node → Result SchemaError Node
found_or_error type_name Node.nil = err (SchemaError.not_found type_name)
found_or_error type_name (Node.node h ns) = ok (Node.node h ns)

unfoldable pub resolve_payload_type : Node → Text → Result SchemaError Node
unfolding default_payload found_or_error
resolve_payload_type Node.nil type_name = ok Node.nil
resolve_payload_type (Node.node h ns) type_name =
    if is_empty type_name
    then default_payload h ns
    else found_or_error type_name (find_named_type (Node.node h ns) type_name)
