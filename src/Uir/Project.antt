-- ===== src/Uir/Project.antt =====
-- internal/uir/project.go: the projection of a data graph to a schema. A nil pointer that the code
-- would read through is the error `nil_pointer`. SchemaRoot is the argument `root`, and the report
-- that the options point to is passed in and given back.
pub mod Parts
pub mod Walk
pub mod Finishes
pub mod Below
pub mod Enough
pub mod Shape
use omni_schema.Prelude.{ℕ, ◌+◌, Bool, true, false, not, ◌&&◌, ◌||◌, ◌==◌, ltb, leb, if◌then◌else◌}
use omni_schema.Prelude.{Option, none, some, List, [], ◌∷◌}
use omni_schema.Prelude.Bytes.{Text, codes, text_eq, is_empty}
use omni_schema.Prelude.Maps.{find, put}
use omni_schema.Prelude.Result.{Result, ok, err}
use omni_schema.Uir.Types.{UirType, type_eq}
use omni_schema.Uir.Presence.{Presence, FieldCardinality, ConversionReport}
use omni_schema.Uir.Node.{
  Any, Node, Nodes, Head, Annotations, new_head, lookup, insert, find_named_type, annotation,
}
use omni_schema.Uir.Coerce.{Host, CoerceError, ProjectOptions, NameMatchPolicy, LossinessPolicy}
use omni_schema.Uir.Coerce.Value.{Reported, coerce_value, is_nil}

pub data ProjectError : Type 0 where
  missing_required null_required unknown_field expected_array : Text → ProjectError
  field_error element_error : Text → CoerceError → ProjectError
  nil_pointer out_of_fuel : ProjectError

-- A node, nil as well, or an error, beside the report.
abbrev pub Projected : Type 0
Projected = ConversionReport × Result ProjectError Node

-- A computation goes on with the report and the value of the one before.
infixl 5 ◌▷◌
abbrev pub ◌▷◌ :
    {E A B : Type 0}
    → ConversionReport × Result E A
    → (ConversionReport → A → ConversionReport × Result E B)
    → ConversionReport × Result E B
(r, ok a) ▷ k = k r a
(r, err e) ▷ k = (r, err e)

abbrev pub is_missing : Presence → Bool
is_missing Presence.missing = true
is_missing _ = false

abbrev pub is_null_presence : Presence → Bool
is_null_presence Presence.null = true
is_null_presence _ = false

abbrev pub is_required_cardinality : FieldCardinality → Bool
is_required_cardinality FieldCardinality.required = true
is_required_cardinality _ = false

-- schema.Cardinality == CardinalityRequired || schema.Annotation("nonNull") == "true"
unfoldable pub is_required : Head → Bool
is_required h =
    is_required_cardinality h.cardinality
    || text_eq (lookup (codes "nonNull") h.annotations) (codes "true")

unfoldable pub copy_into : Annotations → Annotations → Annotations
copy_into [] dst = dst
copy_into ((k, v) ∷ src) dst = copy_into src (insert k v dst)

-- copyMeta(dst, src)
unfoldable pub copy_meta : Head → Head → Head
unfolding copy_into
copy_meta dst src = record dst {
  annotations = copy_into src.annotations dst.annotations;
  element_type = src.element_type;
  type_expr = src.type_expr;
  cardinality = src.cardinality;
  default_value = src.default_value;
}

unfoldable pub resolve_named : Text → Node → Node
resolve_named name root = if is_empty name then Node.nil else find_named_type root name

unfoldable pub resolve_ref : Head → Node → Node
unfolding resolve_named
resolve_ref h root =
    let name = lookup (codes "gql_type") h.annotations in
    resolve_named (if is_empty name then h.key else name) root

-- The children by their keys, the last of a key. A nil child is read through.
unfoldable pub index_into : Nodes → List (Text × Node) → Result ProjectError (List (Text × Node))
index_into Nodes.none idx = ok idx
index_into (Nodes.more Node.nil ns) idx = err ProjectError.nil_pointer
index_into (Nodes.more (Node.node h cs) ns) idx = index_into ns (put h.key (Node.node h cs) idx)

unfoldable pub index_data_children : Nodes → Result ProjectError (List (Text × Node))
unfolding index_into
index_data_children ns = index_into ns []

-- On the bytes of a name in UTF-8, where every byte of a rune beyond ASCII stays.
unfoldable pub normalize_name : Text → Text
normalize_name [] = []
normalize_name (r ∷ s) =
    let rest = normalize_name s in
    if r == b'_' || r == b'-'
    then rest
    else if leb b'A' r && leb r b'Z'
    then (r + 32) ∷ rest
    else r ∷ rest

abbrev pub is_exact : NameMatchPolicy → Bool
is_exact NameMatchPolicy.exact = true
is_exact _ = false

abbrev pub is_fold : NameMatchPolicy → Bool
is_fold NameMatchPolicy.fold = true
is_fold _ = false

-- The loop over the index for a name that matches but for its spelling.
unfoldable pub find_similar : Host → NameMatchPolicy → Text → List (Text × Node) → Option Node
unfolding normalize_name
find_similar host policy key [] = none
find_similar host policy key ((k, n) ∷ m) =
    let rest = find_similar host policy key m in
    if text_eq (normalize_name k) (normalize_name key)
    then some n
    else if is_fold policy && host.equal_fold k key
    then some n
    else rest

-- The entry of a name that an annotation gives, if it gives one.
unfoldable pub find_annotated : Text → List (Text × Node) → Option Node
find_annotated name idx = if is_empty name then none else find name idx

unfoldable pub or_else_look : Option Node → Option Node → Option Node
or_else_look none later = later
or_else_look (some n) later = some n

unfoldable pub lookup_data_field : Host → List (Text × Node) → Head → NameMatchPolicy → Option Node
unfolding find_similar find_annotated or_else_look
lookup_data_field host idx h policy = or_else_look (find h.key idx) (
    or_else_look (find_annotated (lookup (codes "proto_number") h.annotations) idx) (
      or_else_look (find_annotated (lookup (codes "alias") h.annotations) idx)
        (if is_exact policy then none else find_similar host policy h.key (host.ranged idx))))

-- The options of the coercion of a default that is a text.
abbrev default_options : ProjectOptions → ProjectOptions
default_options opt = record opt { lossiness = LossinessPolicy.safe }

-- A default value, whose annotation is coerced where that works.
unfoldable pub default_of : Host → ProjectOptions → ConversionReport → Head → ConversionReport × Any
default_of host opt report h =
    let written = Any.text (lookup (codes "default") h.annotations) in
    let (report', result) =
      coerce_value host (default_options opt) report
        (Node.node (new_head UirType.string h.key written) Nodes.none) h.type in
    if is_nil h.default_value
    then (report', elim result [ ok (v, k) ↦ v | err e ↦ written ])
    else (report, h.default_value)

abbrev pub has_default : Head → Bool
has_default h =
    not (is_nil h.default_value) || not (is_empty (lookup (codes "default") h.annotations))

-- applyMissing: a nil node stands for a field that is left out.
unfoldable pub apply_missing : Host → ProjectOptions → ConversionReport → Head → Text → Projected
unfolding is_required copy_meta default_of
apply_missing host opt report h type_name =
    let (report', def) = default_of host opt report h in
    let filled = record (copy_meta (new_head h.type type_name def) h) {
      presence = Presence.defaulted;
    } in
    let null = record (copy_meta (new_head UirType.null type_name Any.nil) h) {
      type = UirType.null;
    } in
    if has_default h
    then (report', ok (Node.node filled Nodes.none))
    else if is_required h
    then (report, err (ProjectError.missing_required h.key))
    else if opt.emit_null_for_missing
    then (report, ok (Node.node null Nodes.none))
    else (report, ok Node.nil)

-- data == nil || data.Presence == PresenceMissing
abbrev pub is_absent : Node → Bool
is_absent Node.nil = true
is_absent (Node.node h ns) = is_missing h.presence

-- data.Type == TypeNull || data.Presence == PresenceNull
abbrev pub is_null : Node → Bool
is_null Node.nil = false
is_null (Node.node h ns) = type_eq h.type UirType.null || is_null_presence h.presence
