-- ===== src/Uir/Project/Walk.antt =====
-- internal/uir/project.go: projectNode, projectArray and Project. The recursion is on fuel, one unit
-- for each level of the data, and the loops take the projection of the level below as `rec`.
use Prim.Native.Nat.{max}
use omni_schema.Prelude.{ℕ, zero, suc, Bool, true, false, not, if◌then◌else◌}
use omni_schema.Prelude.{Option, none, some, List, [], ◌++◌}
use omni_schema.Prelude.Bytes.{Text, codes}
use omni_schema.Prelude.Result.{Result, ok, err}
use omni_schema.Uir.Types.{UirType, type_eq}
use omni_schema.Uir.Presence.{Presence, ConversionReport, add_to}
use omni_schema.Uir.Node.{Any, Node, Nodes, Head, new_head, append_node}
use omni_schema.Uir.Coerce.{Host, ProjectOptions}
use omni_schema.Uir.Coerce.Value.{coerce_value}
use omni_schema.Uir.Project.{
  ProjectError, Projected, ◌▷◌, is_required, copy_meta, index_data_children, lookup_data_field,
  apply_missing, is_absent, is_null,
}
use omni_schema.Uir.Project.Parts.{
  target_schema, add_field, matched_with, unknown_fields_of, element_schema, is_composite, not_nil,
  with_context, element_node, is_container, resolved,
}

abbrev pub Level : Type 0
Level = ConversionReport → Node → Node → Text → Projected

-- The children so far and the keys of matched data.
abbrev pub Matched : Type 0
Matched = ConversionReport × Result ProjectError (Nodes × List Text)

module _ (rec : Level) (host : Host) (opt : ProjectOptions) (root : Node) where
  -- One field of the schema against the data of it, if there is any.
  unfoldable pub project_field : ConversionReport → Head → Nodes → Option Node → Projected
  unfolding target_schema
  project_field report h ns none = apply_missing host opt report h h.key
  project_field report h ns (some child) = rec report child (target_schema h ns root) h.key

  -- The loop over the fields of the schema.
  unfoldable pub project_fields :
      List (Text × Node) → Nodes → ConversionReport → Nodes → List Text → Matched
  unfolding project_field
  project_fields idx Nodes.none report out seen = (report, ok (out, seen))
  project_fields idx (Nodes.more Node.nil fields) report out seen =
      (report, err ProjectError.nil_pointer)
  project_fields idx (Nodes.more (Node.node h ns) fields) report out seen =
      let found = lookup_data_field host idx h opt.name_match in
      project_field report h ns found ▷ λ report' child.
      project_fields idx fields report' (add_field out h.key child) (matched_with found seen)

  -- A map, an interface, a union or a definition.
  unfoldable pub project_map : ConversionReport → Node → Head → Nodes → Text → Projected
  unfolding project_fields unknown_fields_of index_data_children
  project_map report Node.nil h fields type_name = apply_missing host opt report h type_name
  project_map report (Node.node d ds) h fields type_name =
      let projected = copy_meta (new_head UirType.map type_name Any.nil) h in
      if is_absent (Node.node d ds)
      then apply_missing host opt report h type_name
      else (report, index_data_children ds) ▷ λ report idx.
          project_fields idx fields report Nodes.none [] ▷ λ report done.
          (report, unknown_fields_of opt.unknown_fields ds done.1 done.0) ▷ λ report out.
          (report, ok (Node.node projected out))

  unfoldable pub project_element : ConversionReport → Node → Head → Node → Bool → Projected
  project_element report elem h schema true =
      rec report elem schema (h.key ++ codes "_item") ▷ λ report child. (report, not_nil child)
  project_element report elem h schema false =
      with_context (ProjectError.element_error h.key)
        (coerce_value host opt report elem h.element_type)
      ▷ λ report done.
          let report' = add_to report done.1 h.key [] in
          (report', element_node h.element_type done.0 elem)

  -- The loop over the elements of the data.
  unfoldable pub project_elements :
      Head → Node → Nodes → ConversionReport → Nodes → ConversionReport × Result ProjectError Nodes
  unfolding project_element
  project_elements h schema Nodes.none report out = (report, ok out)
  project_elements h schema (Nodes.more elem ns) report out =
      (report, is_composite h schema) ▷ λ report composite.
      project_element report elem h schema composite ▷ λ report child.
      project_elements h schema ns report (append_node out child)

  unfoldable pub project_array : ConversionReport → Node → Head → Nodes → Text → Projected
  unfolding project_elements
  project_array report Node.nil h items type_name = apply_missing host opt report h type_name
  project_array report (Node.node d ds) h items type_name =
      let array = copy_meta (new_head UirType.array type_name Any.nil) h in
      if is_absent (Node.node d ds)
      then apply_missing host opt report h type_name
      else if not (type_eq d.type UirType.array)
      then (report, err (ProjectError.expected_array type_name))
      else project_elements h (element_schema h items) ds report Nodes.none ▷ λ report out.
          (report, ok (Node.node array out))

  unfoldable pub project_scalar : ConversionReport → Node → Head → Text → Projected
  unfolding is_required copy_meta
  project_scalar report source h type_name =
      let projected = copy_meta (new_head h.type type_name Any.nil) h in
      let null = record projected { type = UirType.null; presence = Presence.null } in
      let valued =
        with_context (ProjectError.field_error h.key) (coerce_value host opt report source h.type)
        ▷ λ report done. (
          add_to report done.1 h.key [],
          ok (
              Node.node (record projected { value = done.0; presence = Presence.present })
                Nodes.none),
        ) in
      if is_absent source
      then apply_missing host opt report h type_name
      else if is_null source
      then (if is_required h
          then (report, err (ProjectError.null_required h.key))
          else (report, ok (Node.node null Nodes.none)))
      else valued

  unfoldable pub project_at : ConversionReport → Node → Node → Text → Projected
  unfolding project_scalar project_array project_map
  project_at report source Node.nil type_name = (report, ok source)
  project_at report source (Node.node h ns) type_name =
      if is_container h.type
      then project_map report source h ns type_name
      else if type_eq h.type UirType.array
      then project_array report source h ns type_name
      else project_scalar report source h type_name

  -- The body of projectNode.
  unfoldable pub project_body : ConversionReport → Node → Node → Text → Projected
  unfolding project_at
  project_body report source Node.nil type_name = (report, ok source)
  project_body report source (Node.node h ns) type_name =
      project_at report source (resolved h ns root) type_name

unfoldable pub project_node : ℕ → Host → ProjectOptions → Node → Level
project_node zero host opt root report source schema type_name =
    (report, err ProjectError.out_of_fuel)
project_node (suc levels) host opt root report source schema type_name =
    project_body (project_node levels host opt root) host opt root report source schema type_name

-- The levels of a graph.
unfoldable mutual
  pub depth : Node → ℕ
  depth Node.nil = 0
  depth (Node.node h ns) = suc (depths ns)

  pub depths : Nodes → ℕ
  depths Nodes.none = 0
  depths (Nodes.more n ns) = max (depth n) (depths ns)

-- Project, where `root` is SchemaRoot, or the topmost parent of the schema if that is nil. The levels
-- of the data and one more are fuel enough.
unfoldable pub project : Host → ProjectOptions → Node → ConversionReport → Node → Node → Projected
project host opt root report source Node.nil = (report, err ProjectError.nil_pointer)
project host opt root report source (Node.node h ns) =
    project_node (suc (depth source)) host opt root report source (Node.node h ns) h.key
