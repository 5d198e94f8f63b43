-- ===== src/Examples/SchemaRuns.antt =====
-- Runs of internal/uir/schema.go.
use omni_schema.Prelude.{◌≡◌, refl, ap, [], ◌∷◌, some}
use omni_schema.Prelude.Bytes.{codes, text_eq}
use omni_schema.Prelude.Maps.{find, put}
use omni_schema.Uir.Types.{UirType, type_name}
use omni_schema.Uir.Node.{Any, Node, Nodes, Head, new_node, new_head, lookup}
use omni_schema.Uir.Project.{index_data_children}
use omni_schema.Uir.Project.Walk.{depth}
use omni_schema.Uir.Schema.Diff.{
  ChangeKind, FieldChange, Class, diff_recursive, compatibility_class, diff_walk, diff_body,
  join_path, class_of, class_of_changes,
}
use omni_schema.Uir.Schema.Same.{diff_recursive-same, IsWhole}
use omni_schema.Uir.Schema.Class.{compatibility_class-Says, Says}
use omni_schema.Examples.ProjectRuns.{host, host-RangesOverEntries}

abbrev root : Head
root = new_head UirType.map (codes "User") Any.nil

abbrev old_schema : Node
old_schema = Node.node root (Nodes.more (new_node UirType.string (codes "name") Any.nil) Nodes.none)

abbrev new_schema : Node
new_schema = Node.node root (
    Nodes.more (new_node UirType.string (codes "name") Any.nil)
      (Nodes.more (new_node UirType.int32 (codes "age") Any.nil) Nodes.none))

abbrev addition : FieldChange
addition = record {
  path = codes "age";
  kind = ChangeKind.added;
  old_type = [];
  new_type = codes "UIR_Int32";
}

-- An added field is reported twice.
diff_run : diff_recursive host old_schema new_schema ≡ some (addition ∷ addition ∷ [])
unfolding diff_recursive diff_walk diff_body depth new_node new_head find put text_eq
    index_data_children join_path type_name lookup
diff_run = refl

class_run : compatibility_class host old_schema new_schema ≡ some Class.backward
unfolding compatibility_class class_of
class_run = ap class_of_changes diff_run

compatibility_class-Says_example : Says Class.backward (addition ∷ addition ∷ [])
compatibility_class-Says_example =
    compatibility_class-Says host old_schema new_schema (addition ∷ addition ∷ []) Class.backward
      diff_run class_run

old_schema-IsWhole : IsWhole old_schema
unfolding IsWhole new_node
old_schema-IsWhole = (tt, tt)

diff_recursive-same_example :
    (diff_recursive host old_schema old_schema ≡ some [])
    × (compatibility_class host old_schema old_schema ≡ some Class.full)
diff_recursive-same_example =
    diff_recursive-same host old_schema host-RangesOverEntries old_schema-IsWhole
