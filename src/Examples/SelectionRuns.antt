-- ===== src/Examples/SelectionRuns.antt =====
-- Runs of internal/stream/broker_filter.go, graphql.go and SelectOperation.
use omni_schema.Prelude.{◌≡◌, refl, inl, arith, none, List, [], ◌∷◌}
use omni_schema.Prelude.Bytes.{Text, codes, text_eq}
use omni_schema.Prelude.Maps.{find}
use omni_schema.Prelude.Result.{ok, err}
use omni_schema.Uir.Types.{UirType}
use omni_schema.Uir.Node.{Any, Node, Nodes, Head, of_list, new_head, new_node}
use omni_schema.Uir.Schema.Same.{AreWhole}
use omni_schema.Stream.Selection.{
  Selection, Selections, Fragments, SelectionError, requested, filter_node, filter_by_selection,
  expand_all, expand_selections,
}
use omni_schema.Stream.Selection.Expand.{Below, expand_selections-Spreads}
use omni_schema.Stream.Selection.Filter.{Answers, filter_by_selection-Answers}
use omni_schema.Stream.Operation.{
  Definition, select_operation, select_subscription, choose_operation, named_operation,
}

abbrev scalar : Text → Selection
scalar name = Selection.field [] name Selections.nil

-- fragment F on User { home: address { city } }
abbrev fragments : Fragments
fragments =
    (
      codes "F",
      Selections.cons
          (Selection.field (codes "home") (codes "address")
            (Selections.cons (scalar (codes "city")) Selections.nil))
          Selections.nil,
    )
    ∷ []

-- { name ...F }
abbrev asked : Selections
asked =
    Selections.cons (scalar (codes "name"))
      (Selections.cons (Selection.fragment_spread (codes "F")) Selections.nil)

abbrev text_node : Text → Text → Node
text_node key s = new_node UirType.string key (Any.text s)

abbrev user_head : Head
user_head = new_head UirType.map (codes "user") Any.nil

abbrev address : Text → List Node → Node
address key ns = Node.node (new_head UirType.map key Any.nil) (of_list ns)

abbrev city : Node
city = text_node (codes "city") (codes "Oslo")

abbrev user_fields : Nodes
user_fields = of_list (
    text_node (codes "name") (codes "Ada")
    ∷ text_node (codes "password") (codes "x")
    ∷ address (codes "address") (city ∷ text_node (codes "zip") (codes "1") ∷ [])
    ∷ [])

-- What was not asked for is gone, and the address stands under its alias.
filter_run :
    filter_by_selection 2 fragments (Node.node user_head user_fields) asked
    ≡ ok (
        Node.node user_head (
          of_list
            (text_node (codes "name") (codes "Ada") ∷ address (codes "home") (city ∷ []) ∷ [])))
unfolding filter_by_selection filter_node expand_selections expand_all requested find text_eq
    new_node new_head
filter_run = refl

-- { first: name second: name }: a field that is selected twice is answered once.
twice_run :
    filter_by_selection 1 [] (Node.node user_head user_fields) (
      Selections.cons (Selection.field (codes "first") (codes "name") Selections.nil) (
        Selections.cons
          (Selection.field (codes "second") (codes "name") Selections.nil)
          Selections.nil))
    ≡ ok (Node.node user_head (of_list (text_node (codes "second") (codes "Ada") ∷ [])))
unfolding filter_by_selection filter_node expand_selections expand_all requested find text_eq
    new_node new_head
twice_run = refl

filter_by_selection-Answers_example :
    (out : Nodes) × (filter_by_selection 2 fragments (Node.node user_head user_fields) asked
      ≡ ok (Node.node (new_head UirType.map (codes "user") Any.nil) out))
    × Answers fragments asked user_fields out
unfolding Below AreWhole new_node new_head
filter_by_selection-Answers_example =
    filter_by_selection-Answers 1 fragments (λ name. 0) user_head user_fields asked (omega arith)
      (λ name. omega arith) (omega arith) refl

-- fragment A on User { ...A }
abbrev cyclic : Fragments
cyclic = (codes "A", Selections.cons (Selection.fragment_spread (codes "A")) Selections.nil) ∷ []

abbrev spreads_a : Selections
spreads_a = Selections.cons (Selection.fragment_spread (codes "A")) Selections.nil

expand_selections-Spreads_example : expand_selections 1000 cyclic spreads_a ≡ none
unfolding find text_eq
expand_selections-Spreads_example =
    expand_selections-Spreads 1000 cyclic (codes "A") spreads_a spreads_a refl (inl refl) (inl refl)

abbrev op : Text → Text → Definition
op type name =
    Definition.operation (record { operation_type = type; name = name; selections = asked })

select_runs :
    (select_subscription (op (codes "query") (codes "q") ∷ []) []
      ≡ err (SelectionError.not_a_subscription (codes "query")))
    × (select_operation (op (codes "query") (codes "q") ∷ op (codes "query") (codes "r") ∷ []) []
        ≡ err SelectionError.multiple_operations)
unfolding select_subscription select_operation choose_operation named_operation text_eq
select_runs = (refl, refl)
