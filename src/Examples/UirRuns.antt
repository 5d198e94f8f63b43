-- ===== src/Examples/UirRuns.antt =====
-- Runs of internal/uir.
use omni_schema.Prelude.{◌≡◌, refl, List, [], ◌∷◌, arith, some}
use omni_schema.Prelude.Int.{ℤ, negsuc}
use omni_schema.Prelude.Bytes.{codes}
use omni_schema.Uir.Types.{UirType}
use omni_schema.Uir.Types.Compat.{lookup_compat}
use omni_schema.Uir.Types.Compat.Laws.{InRange, lookup_compat-InRange}
use omni_schema.Uir.Types.Compat.Laws.{lookup_compat-not-InRange}
use omni_schema.Uir.Presence.{ConversionKind, ConversionReport, empty_report}
use omni_schema.Uir.Presence.Report.{Entry, add_all, worst, named_fields, Summary, add_all-Summary}
use omni_schema.Uir.TypeExpr.{TypeExpr, to_text, parse_graphql_type_expr}
use omni_schema.Uir.TypeExpr.RoundTrip.{parse_graphql_type_expr-to_text}
use omni_schema.Uir.Node.{Any, Head, Node, Nodes, new_head, new_node}
use omni_schema.Uir.Node.{find_named_type}
use omni_schema.Uir.Node.Find.{preorder, first_named, find_named_type-preorder}

lookup_compat-InRange_example : InRange UirType.sint64 (negsuc 7)
unfolding lookup_compat
lookup_compat-InRange_example =
    lookup_compat-InRange UirType.int32 UirType.sint64 (negsuc 7) refl refl refl (omega arith)

lookup_compat-not-InRange_example : (v : ℤ) × InRange UirType.int64 v × ¬ InRange UirType.int32 v
unfolding lookup_compat
lookup_compat-not-InRange_example =
    lookup_compat-not-InRange UirType.int64 UirType.int32 refl refl refl refl

abbrev two_entries : List Entry
two_entries =
    record { kind = ConversionKind.lossy; field = codes "age"; note = [] }
    ∷ record { kind = ConversionKind.safe_coerce; field = codes "id"; note = codes "ok" }
    ∷ []

add_all-Summary_example :
    (r : ConversionReport) × (add_all (some empty_report) two_entries ≡ some r)
    × Summary r (worst 0 two_entries) (named_fields two_entries)
add_all-Summary_example = add_all-Summary two_entries

worst_of_two : worst 0 two_entries ≡ 2
unfolding worst
worst_of_two = refl

abbrev users : TypeExpr
users =
    TypeExpr.non_null_of (TypeExpr.list_of (TypeExpr.non_null_of (TypeExpr.named (codes "User"))))

parse_graphql_type_expr-to_text_example : parse_graphql_type_expr (to_text users) ≡ users
parse_graphql_type_expr-to_text_example =
    parse_graphql_type_expr-to_text users (refl, (refl, (refl, (refl, tt))))

users_text : to_text users ≡ codes "[User!]!"
unfolding to_text
users_text = refl

abbrev small_schema : Node
small_schema = Node.node root (Nodes.more user Nodes.none)
  where
    user : Node
    user = new_node UirType.map (codes "User") Any.nil

    root : Head
    root = new_head UirType.map (codes "schema") Any.nil

find_named_type-preorder_example :
    find_named_type small_schema (codes "User") ≡ first_named (codes "User") (preorder small_schema)
find_named_type-preorder_example = find_named_type-preorder small_schema (codes "User")
