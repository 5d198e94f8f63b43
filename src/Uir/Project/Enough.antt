-- ===== src/Uir/Project/Enough.antt =====
-- internal/uir/project.go: the levels of the data bound the recursion of projectNode.
use omni_schema.Prelude.{ℕ, zero, suc, ◌≤◌, ◌≢◌, arith, Bool, true, false}
use omni_schema.Prelude.{not, ◌++◌, Option, none, some, List, [], All}
use omni_schema.Prelude.Bytes.{Text, codes}
use omni_schema.Prelude.Result.{err}
use omni_schema.Uir.Types.{UirType, type_eq}
use omni_schema.Uir.Presence.{ConversionReport}
use omni_schema.Uir.Node.{Any, Node, Nodes, Head}
use omni_schema.Uir.Coerce.{Host, ProjectOptions}
use omni_schema.Uir.Coerce.Value.{coerce_value}
use omni_schema.Uir.Project.{
  ProjectError, index_into, index_data_children, lookup_data_field, is_missing, is_absent, is_null,
  is_required, is_required,
}
use omni_schema.Uir.Project.Parts.{
  with_context, unknown_fields_of, not_nil, is_composite, element_node, element_schema,
  is_container, resolved,
}
use omni_schema.Uir.Project.Walk.{
  Level, project_field, project_fields, project_map, project_element, project_elements,
  project_array, project_scalar, project_at, project_body, project_node, project, depth, depths,
}
use omni_schema.Uir.Project.Finishes.{
  Finishes, ok-Finishes, err-Finishes, Finishes-▷, Finishes-if, nil_pointer-fine, null-fine,
  array-fine, field-fine, element-fine, apply_missing-Finishes, with_context-Finishes,
  index_into-Finishes, unknown_fields_of-Finishes, result_if,
}
use omni_schema.Uir.Project.Below.{
  RangesOverEntries, Below, BelowIf, index_into-Below, lookup_data_field-Below,
}

project_scalar-Finishes :
    (rec : Level) (host : Host) (opt : ProjectOptions) (root : Node) (r : ConversionReport)
    (source : Node) (h : Head) (name : Text)
    → Finishes (project_scalar rec host opt root r source h name)
unfolding project_scalar
project_scalar-Finishes rec host opt root r source h name =
    Finishes-if (is_absent source) _ _ (apply_missing-Finishes host opt r h name) (
      Finishes-if (is_null source) _ _
        (Finishes-if (is_required h) _ _ (err-Finishes _ r _ (null-fine h.key)) (ok-Finishes r _))
        (Finishes-▷
          (with_context (ProjectError.field_error h.key) (coerce_value host opt r source h.type)) _
          (with_context-Finishes (ProjectError.field_error h.key)
            (coerce_value host opt r source h.type) (field-fine h.key))
          (λ r done e. ok-Finishes _ _)))

-- A level of the data that finishes on the graphs below it.
module _ (rec : Level) (l : ℕ) (host : Host) (opt : ProjectOptions) (root : Node)
    (over : RangesOverEntries host)
    (runs : (r : ConversionReport) (child schema : Node) (name : Text)
      → depth child ≤ l
      → Finishes (rec r child schema name)) where
  project_field-Finishes :
      (r : ConversionReport) (h : Head) (ns : Nodes) (found : Option Node)
      → BelowIf l found
      → Finishes (project_field rec host opt root r h ns found)
  unfolding project_field BelowIf
  project_field-Finishes r h ns none b = apply_missing-Finishes host opt r h h.key
  project_field-Finishes r h ns (some child) b = runs r child _ h.key b

  project_fields-Finishes :
      (idx : List (Text × Node)) (fields : Nodes) (r : ConversionReport) (out : Nodes)
      (seen : List Text)
      → All (Below l) idx
      → Finishes (project_fields rec host opt root idx fields r out seen)
  unfolding project_fields
  project_fields-Finishes idx Nodes.none r out seen hs = ok-Finishes r _
  project_fields-Finishes idx (Nodes.more Node.nil fields) r out seen hs =
      err-Finishes _ r _ nil_pointer-fine
  project_fields-Finishes idx (Nodes.more (Node.node h ns) fields) r out seen hs =
      let found = lookup_data_field host idx h opt.name_match in
      Finishes-▷ (project_field rec host opt root r h ns found) _
        (project_field-Finishes r h ns found
          (lookup_data_field-Below host l idx h opt.name_match over hs))
        (λ r' child e. project_fields-Finishes idx fields r' _ _ hs)

  project_map-Finishes :
      (r : ConversionReport) (source : Node) (h : Head) (fields : Nodes) (name : Text)
      → depth source ≤ suc l
      → Finishes (project_map rec host opt root r source h fields name)
  unfolding project_map index_data_children depth
  project_map-Finishes r Node.nil h fields name b = apply_missing-Finishes host opt r h name
  project_map-Finishes r (Node.node d ds) h fields name b =
      Finishes-if (is_missing d.presence) _ _ (apply_missing-Finishes host opt r h name) (
        Finishes-▷ (r, index_into ds []) _ (index_into-Finishes r ds [])
          (λ r idx e.
            Finishes-▷ (project_fields rec host opt root idx fields r Nodes.none []) _
              (project_fields-Finishes idx fields r _ _
                (index_into-Below l ds [] idx (omega arith) tt e))
              (λ r done e.
                Finishes-▷ (r, unknown_fields_of opt.unknown_fields ds done.1 done.0) _
                  (unknown_fields_of-Finishes r opt.unknown_fields ds done.1 done.0)
                  (λ r out e. ok-Finishes r _))))

  not_nil-Finishes : (r : ConversionReport) (n : Node) → Finishes (r, not_nil n)
  not_nil-Finishes r Node.nil = err-Finishes _ r _ nil_pointer-fine
  not_nil-Finishes r (Node.node h ns) = ok-Finishes r _

  element_node-Finishes :
      (r : ConversionReport) (t : UirType) (value : Any) (n : Node)
      → Finishes (r, element_node t value n)
  element_node-Finishes r t value Node.nil = err-Finishes _ r _ nil_pointer-fine
  element_node-Finishes r t value (Node.node h ns) = ok-Finishes r _

  project_element-Finishes :
      (r : ConversionReport) (elem : Node) (h : Head) (schema : Node) (composite : Bool)
      → depth elem ≤ l
      → Finishes (project_element rec host opt root r elem h schema composite)
  unfolding project_element
  project_element-Finishes r elem h schema true b =
      Finishes-▷ (rec r elem schema (h.key ++ codes "_item")) _ (runs r elem schema _ b)
        (λ r child e. not_nil-Finishes r child)
  project_element-Finishes r elem h schema false b =
      Finishes-▷
        (with_context (ProjectError.element_error h.key)
          (coerce_value host opt r elem h.element_type))
        _
        (with_context-Finishes (ProjectError.element_error h.key)
          (coerce_value host opt r elem h.element_type) (element-fine h.key))
        (λ r done e. element_node-Finishes _ h.element_type done.0 elem)

  is_composite-Finishes :
      (r : ConversionReport) (h : Head) (schema : Node) → Finishes (r, is_composite h schema)
  is_composite-Finishes r h Node.nil =
      result_if (type_eq h.element_type UirType.map) _ _ r (ok-Finishes r true)
        (err-Finishes _ r _ nil_pointer-fine)
  is_composite-Finishes r h (Node.node e es) = ok-Finishes r _

  project_elements-Finishes :
      (h : Head) (schema : Node) (ns : Nodes) (r : ConversionReport) (out : Nodes)
      → depths ns ≤ l
      → Finishes (project_elements rec host opt root h schema ns r out)
  unfolding project_elements depths
  project_elements-Finishes h schema Nodes.none r out b = ok-Finishes r out
  project_elements-Finishes h schema (Nodes.more elem ns) r out b =
      Finishes-▷ (r, is_composite h schema) _ (is_composite-Finishes r h schema)
        (λ r composite e.
          Finishes-▷ (project_element rec host opt root r elem h schema composite) _
            (project_element-Finishes r elem h schema composite (omega arith))
            (λ r child e. project_elements-Finishes h schema ns r _ (omega arith)))

  project_array-Finishes :
      (r : ConversionReport) (source : Node) (h : Head) (items : Nodes) (name : Text)
      → depth source ≤ suc l
      → Finishes (project_array rec host opt root r source h items name)
  unfolding project_array depth
  project_array-Finishes r Node.nil h items name b = apply_missing-Finishes host opt r h name
  project_array-Finishes r (Node.node d ds) h items name b =
      Finishes-if (is_missing d.presence) _ _ (apply_missing-Finishes host opt r h name) (
        Finishes-if (not (type_eq d.type UirType.array)) _ _ (err-Finishes _ r _ (array-fine name))
          (Finishes-▷
            (project_elements rec host opt root h (element_schema h items) ds r Nodes.none) _
            (project_elements-Finishes h _ ds r _ (omega arith)) (λ r out e. ok-Finishes r _)))

  project_at-Finishes :
      (r : ConversionReport) (source schema : Node) (name : Text)
      → depth source ≤ suc l
      → Finishes (project_at rec host opt root r source schema name)
  unfolding project_at
  project_at-Finishes r source Node.nil name b = ok-Finishes r source
  project_at-Finishes r source (Node.node h ns) name b =
      Finishes-if (is_container h.type) _ _ (project_map-Finishes r source h ns name b) (
        Finishes-if (type_eq h.type UirType.array) _ _ (project_array-Finishes r source h ns name b)
          (project_scalar-Finishes rec host opt root r source h name))

  project_body-Finishes :
      (r : ConversionReport) (source schema : Node) (name : Text)
      → depth source ≤ suc l
      → Finishes (project_body rec host opt root r source schema name)
  unfolding project_body
  project_body-Finishes r source Node.nil name b = ok-Finishes r source
  project_body-Finishes r source (Node.node h ns) name b =
      project_at-Finishes r source (resolved h ns root) name b

-- Where there is no data nothing recurs.
nil-Finishes :
    (rec : Level) (host : Host) (opt : ProjectOptions) (root : Node) (r : ConversionReport)
    (schema : Node) (name : Text)
    → Finishes (project_at rec host opt root r Node.nil schema name)
unfolding project_at project_map project_array
nil-Finishes rec host opt root r Node.nil name = ok-Finishes r Node.nil
nil-Finishes rec host opt root r (Node.node h ns) name =
    Finishes-if (is_container h.type) _ _ (apply_missing-Finishes host opt r h name) (
      Finishes-if (type_eq h.type UirType.array) _ _ (apply_missing-Finishes host opt r h name)
        (project_scalar-Finishes rec host opt root r Node.nil h name))

body_nil-Finishes :
    (rec : Level) (host : Host) (opt : ProjectOptions) (root : Node) (r : ConversionReport)
    (schema : Node) (name : Text)
    → Finishes (project_body rec host opt root r Node.nil schema name)
unfolding project_body
body_nil-Finishes rec host opt root r Node.nil name = ok-Finishes r Node.nil
body_nil-Finishes rec host opt root r (Node.node h ns) name =
    nil-Finishes rec host opt root r (resolved h ns root) name

project_node-Finishes :
    (l : ℕ) (host : Host) (opt : ProjectOptions) (root : Node) (r : ConversionReport)
    (source schema : Node) (name : Text)
    → RangesOverEntries host
    → depth source ≤ l
    → Finishes (project_node (suc l) host opt root r source schema name)
unfolding project_node depth
project_node-Finishes zero host opt root r Node.nil schema name over b =
    body_nil-Finishes (project_node zero host opt root) host opt root r schema name
project_node-Finishes zero host opt root r (Node.node h ns) schema name over b =
    absurd (omega arith)
project_node-Finishes (suc l) host opt root r source schema name over b =
    project_body-Finishes (project_node (suc l) host opt root) l host opt root over
      (λ r child schema name b. project_node-Finishes l host opt root r child schema name over b) r
      source schema name b

-- Project does not run out of fuel, which is one unit for each level of the data and one more: it
-- always comes back with a node or an error of the code. A loop over a map meets its entries only.
pub project-Finishes :
    (host : Host) (opt : ProjectOptions) (root : Node) (report : ConversionReport)
    (source schema : Node)
    → RangesOverEntries host
    → (project host opt root report source schema).1 ≢ err ProjectError.out_of_fuel
unfolding project Finishes
project-Finishes host opt root report source Node.nil over =
    err-Finishes Node report _ nil_pointer-fine
project-Finishes host opt root report source (Node.node h ns) over =
    project_node-Finishes (depth source) host opt root report source (Node.node h ns) h.key over
      (omega arith)
