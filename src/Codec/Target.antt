-- ===== src/Codec/Target.antt =====
-- internal/codec/cbor_target.go: which graphs that came from CBOR a target format takes. The types of
-- the parent and of its parent are handed down, where the source goes up by Parent.
pub mod Kept
use omni_schema.Prelude.{ℕ, zero, suc, ◌^◌, ◌==◌, ltb, leb, Bool, true, false, not, ◌&&◌, ◌||◌}
use omni_schema.Prelude.{if◌then◌else◌, Option, none, some, List, [], ◌∷◌}
use omni_schema.Prelude.Bytes.{Text, codes, text_eq, mem_text}
use omni_schema.Prelude.Float.{is_nan, is_inf, widen}
use omni_schema.Prelude.Result.{Result, ok, err, guard, ◌>>=◌, ◌>>◌}
use omni_schema.Uir.Types.{UirType, type_eq}
use omni_schema.Uir.Node.{child_by_key, Any, Node, Nodes, Head}
use omni_schema.Codec.Cbor.{cbor_max_depth}
use omni_schema.Codec.Formats.{Unicode, normalize_format}

pub data TargetError : Type 0 where
  nesting not_an_object empty_object field_name non_finite not_records mixed_records : TargetError
  field_types byte_string wide_uint64 explicit_null nested_container nil_pointer : TargetError

abbrev pub Verdict : Type 0
Verdict = Result TargetError (Unit {0})

-- Where a node stands.
pub record Place : Type 0 where
  pub depth : ℕ
  pub parent : Option UirType
  pub grandparent : Option UirType

abbrev pub root_place : Place
root_place = record { depth = 0; parent = none; grandparent = none }

abbrev pub below : Place → Head → Place
below at h = record { depth = suc at.depth; parent = some h.type; grandparent = at.parent }

abbrev is_type : UirType → Option UirType → Bool
is_type t none = false
is_type t (some u) = type_eq u t

abbrev is_map : Head → Bool
is_map h = type_eq h.type UirType.map

abbrev is_array : Head → Bool
is_array h = type_eq h.type UirType.array

abbrev pub is_null : Head → Bool
is_null h = type_eq h.type UirType.null

abbrev is_letter : ℕ → Bool
is_letter c = c == b'_' || leb b'A' c && leb c b'Z' || leb b'a' c && leb c b'z'

unfoldable pub name_rest : Text → Bool
name_rest [] = true
name_rest (c ∷ s) = (is_letter c || leb b'0' c && leb c b'9') && name_rest s

abbrev has_dunder : Text → Bool
has_dunder (c ∷ d ∷ s) = c == b'_' && d == b'_'
has_dunder _ = false

-- graphqlFieldName; a byte of a rune beyond ASCII is no letter.
unfoldable pub graphql_field_name : Text → Bool
unfolding name_rest
graphql_field_name [] = false
graphql_field_name (c ∷ s) = not (has_dunder (c ∷ s)) && is_letter c && name_rest s

abbrev no_children : Nodes → Bool
no_children Nodes.none = true
no_children (Nodes.more n ns) = false

unfoldable pub check_graphql : Text → Place → Head → Nodes → Verdict
unfolding graphql_field_name
check_graphql target at h ns =
    if text_eq target (codes "graphql")
    then guard (not (at.depth == 0 && not (is_map h))) TargetError.not_an_object
      >> guard (not (is_map h && no_children ns)) TargetError.empty_object
      >> guard (not (is_type UirType.map at.parent && not (graphql_field_name h.key)))
          TargetError.field_name
    else ok tt

abbrev float_of : Any → ℕ
float_of (Any.float32 bits) = widen bits
float_of (Any.float64 bits) = bits
float_of _ = 0

abbrev pub is_non_finite : Head → Bool
is_non_finite h = is_nan (float_of h.value) || is_inf (float_of h.value)

abbrev pub is_textual : Text → Bool
is_textual target = mem_text target (codes "json" ∷ codes "odata" ∷ [])

abbrev pub is_table : Text → Bool
is_table target = mem_text target (codes "avro" ∷ codes "parquet" ∷ codes "hdf5" ∷ [])

abbrev pub is_message : Text → Bool
is_message target = mem_text target (codes "protobuf" ∷ codes "capnproto" ∷ [])

unfoldable pub check_float : Text → Head → Verdict
unfolding mem_text is_nan is_inf widen
check_float target h =
    if is_textual target then guard (not (is_non_finite h)) TargetError.non_finite else ok tt

-- The loop over the elements of the root.
unfoldable pub all_records : Nodes → Verdict
all_records Nodes.none = ok tt
all_records (Nodes.more Node.nil ns) = err TargetError.nil_pointer
all_records (Nodes.more (Node.node h cs) ns) =
    guard (is_map h) TargetError.not_records >> all_records ns

abbrev is_wide : Any → Bool
is_wide (Any.uint64 v) = leb (2 ^ 63) v
is_wide _ = false

unfoldable pub check_cell : Text → Head → Verdict
check_cell target h =
    guard (not (text_eq target (codes "parquet") && type_eq h.type UirType.bytes))
      TargetError.byte_string
    >> guard (not (is_wide h.value)) TargetError.wide_uint64
    >> guard (text_eq target (codes "avro") || not (is_null h)) TargetError.explicit_null

abbrev field_depth : Place → ℕ
field_depth at =
    if is_type UirType.map at.parent && is_type UirType.array at.grandparent then 2 else 1

-- A record in the array of the root.
abbrev is_row : Place → Head → Bool
is_row at h = at.depth == 1 && is_map h && is_type UirType.array at.parent

unfoldable pub check_table : Text → Place → Head → Nodes → Verdict
unfolding all_records check_cell mem_text
check_table target at h ns =
    if is_table target
    then guard (not (at.depth == 0 && not (is_map h) && not (is_array h))) TargetError.not_records
      >> (if at.depth == 0 && is_array h then all_records ns else ok tt)
      >> (if leb (field_depth at) at.depth && not (is_map h) && not (is_array h)
          then check_cell target h
          else ok tt)
      >> guard (not (ltb 0 at.depth && (is_map h || is_array h) && not (is_row at h)))
          TargetError.nested_container
    else ok tt

unfoldable pub check_message : Text → Place → Head → Verdict
unfolding mem_text
check_message target at h =
    guard (not (is_message target && is_null h)) TargetError.explicit_null
    >> guard (not (text_eq target (codes "capnproto") && at.depth == 0 && not (is_map h)))
        TargetError.not_an_object

-- validateCBORTarget on a node that is not nil, before its children.
unfoldable pub check_node : Text → Place → Head → Nodes → Verdict
unfolding check_graphql check_float check_table check_message
check_node target at h ns =
    guard (leb at.depth cbor_max_depth) TargetError.nesting
    >> check_graphql target at h ns
    >> check_float target h
    >> check_table target at h ns
    >> check_message target at h

unfoldable mutual
  pub validate_node : Text → Place → Node → Verdict
  validate_node target at Node.nil = ok tt
  validate_node target at (Node.node h ns) =
      check_node target at h ns >> validate_nodes target (below at h) ns

  pub validate_nodes : Text → Place → Nodes → Verdict
  validate_nodes target at Nodes.none = ok tt
  validate_nodes target at (Nodes.more n ns) =
      validate_node target at n >> validate_nodes target at ns

abbrev same_type : Head → Node → Verdict
same_type h Node.nil = err TargetError.field_types
same_type h (Node.node other cs) = guard (type_eq other.type h.type) TargetError.field_types

-- The fields of the first record, each looked up in a row.
unfoldable pub same_fields : Nodes → Nodes → Verdict
unfolding child_by_key
same_fields Nodes.none row = ok tt
same_fields (Nodes.more Node.nil fields) row = err TargetError.nil_pointer
same_fields (Nodes.more (Node.node h cs) fields) row =
    child_by_key TargetError.nil_pointer h.key row >>= same_type h >> same_fields fields row

abbrev count : Nodes → ℕ
count Nodes.none = 0
count (Nodes.more n ns) = suc (count ns)

unfoldable pub same_rows : Nodes → Nodes → Verdict
unfolding same_fields
same_rows first Nodes.none = ok tt
same_rows first (Nodes.more Node.nil rows) = err TargetError.mixed_records
same_rows first (Nodes.more (Node.node h cs) rows) =
    guard (is_map h && count cs == count first) TargetError.mixed_records
    >> same_fields first cs
    >> same_rows first rows

unfoldable pub check_rows : Nodes → Verdict
unfolding same_rows
check_rows Nodes.none = ok tt
check_rows (Nodes.more Node.nil rows) = err TargetError.not_records
check_rows (Nodes.more (Node.node h cs) rows) =
    guard (is_map h) TargetError.not_records >> same_rows cs (Nodes.more (Node.node h cs) rows)

-- The rows of a table, before the nodes are looked at.
unfoldable pub check_root : Text → Node → Verdict
unfolding check_rows mem_text
check_root target Node.nil = ok tt
check_root target (Node.node h ns) = if is_table target && is_array h then check_rows ns else ok tt

unfoldable pub validate_cbor_target : Unicode → Node → Text → Verdict
unfolding validate_node check_root normalize_format
validate_cbor_target unicode n target =
    check_root (normalize_format unicode target) n
    >> validate_node (normalize_format unicode target) root_place n
