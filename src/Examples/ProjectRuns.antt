-- ===== src/Examples/ProjectRuns.antt =====
-- Runs of internal/uir/project.go.
use omni_schema.Prelude.{ℕ, ◌^◌, ◌≡◌, ◌≢◌, refl, arith, true, false, List, [], ◌∷◌, none}
use omni_schema.Prelude.{◌||◌, if◌then◌else◌}
use omni_schema.Prelude.Int.{pos, negsuc}
use omni_schema.Prelude.Bytes.{Text, codes, text_eq}
use omni_schema.Prelude.Maps.{find, put}
use omni_schema.Prelude.Float.{whole}
use omni_schema.Prelude.Result.{Result, ok, err}
use omni_schema.Uir.Types.{UirType, type_eq}
use omni_schema.Uir.Presence.{ConversionKind, ConversionReport, empty_report, FieldCardinality}
use omni_schema.Uir.Node.{Any, Node, Nodes, Head, new_node, new_head, lookup, append_node}
use omni_schema.Uir.Coerce.{
  Host, CoerceError, LossinessPolicy, NameMatchPolicy, default_project_options, is_permissive,
  to_int64,
}
use omni_schema.Uir.Coerce.Value.{coerce_value}
use omni_schema.Uir.Coerce.Ranges.{Holds, IsIntegral, fits, wrapped}
use omni_schema.Uir.Coerce.Integers.{coerce_value-integer}
use omni_schema.Uir.Coerce.Converts.{Converts}
use omni_schema.Uir.Coerce.Floats.{coerce_value-float_int64, is_convertible, signed_whole}
use omni_schema.Uir.Coerce.Encoding.{base64_encode}
use omni_schema.Uir.Coerce.Bytes.{coerce_value-bytes, text_of}
use omni_schema.Uir.Project.{ProjectError, index_data_children, lookup_data_field, apply_missing}
use omni_schema.Uir.Project.Walk.{project, project_node, project_body, depth}
use omni_schema.Uir.Project.Below.{RangesOverEntries}
use omni_schema.Uir.Project.Enough.{project-Finishes}
use omni_schema.Uir.Project.Shape.{project-Shape, Subsequence, Supplied, keys}

abbrev pub host : Host
host = record {
  int64_misfit = λ f. 2 ^ 63;
  uint64_misfit = λ f. 2 ^ 63;
  parse_float = λ s. none;
  sprint_float32 = λ f. [];
  sprint_float64 = λ f. [];
  sprint_other = [];
  ranged = λ m. m;
  equal_fold = λ s t. false;
}

pub host-RangesOverEntries : RangesOverEntries host
host-RangesOverEntries P m h = h

abbrev minus_five : Head
minus_five = new_head UirType.int64 (codes "n") (Any.int64 (negsuc 4))

-- -5 is no uint32, and becomes an int32 as it is.
coerce_value-integer_example :
    Converts
      (fits UirType.int32 (negsuc 4) || is_permissive LossinessPolicy.strict)
      (wrapped UirType.int32 (negsuc 4))
      (coerce_value host default_project_options empty_report
        (Node.node minus_five Nodes.none)
        UirType.int32).1
    × (fits UirType.int32 (negsuc 4) ≡ true → Holds (negsuc 4) (wrapped UirType.int32 (negsuc 4)))
unfolding default_project_options new_head
coerce_value-integer_example =
    coerce_value-integer host default_project_options empty_report minus_five Nodes.none
      UirType.int32 (IsIntegral.int64_value (negsuc 4) (omega arith)) refl
      (unfold omni_schema.Uir.Types.is_integer in refl)

abbrev four : ℕ
four = 0x4010_0000_0000_0000

four-whole : whole four ≢ 2 ^ 63
unfolding whole
four-whole e = absurd (omega arith)

coerce_value-float_int64_example :
    (k : ConversionKind) × (e : CoerceError) × (coerce_value host default_project_options
        empty_report
        (new_node UirType.float64 (codes "n") (Any.float64 four))
        UirType.int64
      ≡ (
        empty_report,
        if is_convertible four then ok (Any.int64 (signed_whole four), k) else err e,
      ))
unfolding default_project_options
coerce_value-float_int64_example =
    coerce_value-float_int64 host default_project_options empty_report (codes "n") four refl
      (λ positive. four-whole)

coerce_value-bytes_example :
    (coerce_value host default_project_options empty_report
        (new_node UirType.bytes (codes "b") (Any.bytes (1 ∷ 2 ∷ 255 ∷ [])))
        UirType.string
      ≡ (empty_report, ok (Any.text (codes "AQL/"), ConversionKind.safe_coerce)))
    × (coerce_value host default_project_options empty_report
          (new_node UirType.string (codes "b") (Any.text (codes "AQL/")))
          UirType.bytes
        ≡ (empty_report, ok (Any.bytes (1 ∷ 2 ∷ 255 ∷ []), ConversionKind.safe_coerce)))
unfolding default_project_options text_of base64_encode
coerce_value-bytes_example =
    coerce_value-bytes host default_project_options empty_report (codes "b") (1 ∷ 2 ∷ 255 ∷ [])
      (λ reject. reject) (omega arith, (omega arith, (omega arith, tt)))

-- {"name": "x", "id": 7}
abbrev pub record_head : Head
record_head = new_head UirType.map (codes "Root") Any.nil

abbrev pub record_fields : Nodes
record_fields =
    Nodes.more (new_node UirType.string (codes "name") (Any.text (codes "x")))
      (Nodes.more (new_node UirType.int64 (codes "id") (Any.int64 (pos 7))) Nodes.none)

-- A schema with a required int32 and an optional text.
abbrev pub user_head : Head
user_head = new_head UirType.map (codes "User") Any.nil

abbrev pub user_fields : Nodes
user_fields =
    Nodes.more
      (Node.node
        (record (new_head UirType.int32 (codes "id") Any.nil) {
          cardinality = FieldCardinality.required;
        })
        Nodes.none)
      (Nodes.more (new_node UirType.string (codes "email") Any.nil) Nodes.none)

project-Finishes_example :
    (project host default_project_options Node.nil empty_report
      (Node.node record_head record_fields)
      (Node.node user_head user_fields)).1
    ≢ err ProjectError.out_of_fuel
project-Finishes_example =
    project-Finishes host default_project_options Node.nil empty_report
      (Node.node record_head record_fields) (Node.node user_head user_fields) host-RangesOverEntries

abbrev projected : ConversionReport × Result ProjectError Node
projected =
    project host default_project_options Node.nil empty_report (Node.node record_head record_fields)
      (Node.node user_head user_fields)

abbrev user : Node
user = Node.node user_head (
    Nodes.more
      (Node.node
        (record (new_head UirType.int32 (codes "id") (Any.int32 (pos 7))) {
          cardinality = FieldCardinality.required;
        })
        Nodes.none)
      Nodes.none)

project_run : projected.1 ≡ ok user
unfolding project project_node project_body depth new_node new_head default_project_options
    lookup_data_field find put text_eq coerce_value to_int64 lookup apply_missing append_node
project_run = refl

project-Shape_example :
    (idx : List (Text × Node)) × (p : Head) × (out : Nodes) × (index_data_children record_fields
      ≡ ok idx)
    × (user ≡ Node.node p out)
    × Subsequence (keys out) (keys user_fields)
    × Supplied host NameMatchPolicy.snake_camel idx user_fields
unfolding new_head new_node default_project_options index_data_children put text_eq
project-Shape_example =
    project-Shape host default_project_options Node.nil empty_report projected.0 record_head
      record_fields user_head user_fields user refl refl refl (λ i. (projected.0, project_run i))
