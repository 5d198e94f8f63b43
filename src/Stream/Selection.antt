-- ===== src/Stream/Selection.antt =====
-- internal/ast/graphql.go, internal/stream/broker_filter.go and the choice of an operation of
-- internal/stream/broker.go: what a client selects. A fragment may name itself, so the expansion is on
-- fuel, one unit for each fragment inside another; it is none where the fuel runs out.
pub mod Expand
pub mod Selects
pub mod Last
pub mod Filter
use omni_schema.Prelude.{ℕ, zero, suc, Bool, true, false, not, ◌&&◌, if◌then◌else◌}
use omni_schema.Prelude.{Option, none, some, List, [], ◌∷◌, ◌++◌}
use omni_schema.Prelude.Bytes.{Text, codes, text_eq, is_empty}
use omni_schema.Prelude.Maps.{find}
use omni_schema.Prelude.Result.{Result, ok, err, ◌>>=◌}
use omni_schema.Uir.Types.{UirType, type_eq}
use omni_schema.Uir.Node.{Any, Node, Nodes, Head, new_head}

-- GraphQLSelection: a field has its alias, its name and its own selections. Arguments and type
-- conditions are not read here.
mutual
  pub data Selection : Type 0 where
    field : Text → Text → Selections → Selection
    fragment_spread : Text → Selection
    inline_fragment : Selections → Selection

  pub data Selections : Type 0 where
    nil : Selections
    cons : Selection → Selections → Selections

pub record Field : Type 0 where
  pub alias : Text
  pub name : Text
  pub selections : Selections

-- map[string]*ast.GraphQLFragmentDefinition
abbrev pub Fragments : Type 0
Fragments = List (Text × Selections)

pub data SelectionError : Type 0 where
  no_operation multiple_operations no_root_fields root_not_field no_subscription_type :
      SelectionError
  no_schema nil_pointer out_of_fuel : SelectionError
  operation_not_found not_a_subscription not_in_subscription : Text → SelectionError
  return_type_not_found unknown_field : Text → SelectionError

abbrev pub appended : {A : Type 0} → Option (List A) → Option (List A) → Option (List A)
appended none ys = none
appended (some xs) none = none
appended (some xs) (some ys) = some (xs ++ ys)

-- The loop over the selections, for what a spread expands to.
unfoldable pub expand_all : (Text → Option (List Field)) → Selections → Option (List Field)
expand_all spread Selections.nil = some []
expand_all spread (Selections.cons (Selection.field alias name s) rest) =
    appended (some (record { alias = alias; name = name; selections = s } ∷ []))
      (expand_all spread rest)
expand_all spread (Selections.cons (Selection.fragment_spread name) rest) =
    appended (spread name) (expand_all spread rest)
expand_all spread (Selections.cons (Selection.inline_fragment s) rest) =
    appended (expand_all spread s) (expand_all spread rest)

abbrev pub spread_of : (Selections → Option (List Field)) → Fragments → Text → Option (List Field)
spread_of rec fragments name = elim (find name fragments) [ none ↦ some [] | some s ↦ rec s ]

-- expandSelections
unfoldable pub expand_selections : ℕ → Fragments → Selections → Option (List Field)
unfolding expand_all
expand_selections zero fragments s = none
expand_selections (suc fuel) fragments s =
    expand_all (spread_of (expand_selections fuel fragments) fragments) s

abbrev pub later_or : Option Field → Option Field → Option Field
later_or none f = f
later_or (some g) f = some g

-- requested[key]: the last field of the name.
unfoldable pub requested : Text → List Field → Option Field
requested key [] = none
requested key (f ∷ fs) = later_or (requested key fs) (if text_eq f.name key then some f else none)

abbrev pub no_selections : Selections → Bool
no_selections Selections.nil = true
no_selections (Selections.cons s rest) = false

abbrev pub aliased : Text → Node → Node
aliased alias Node.nil = Node.nil
aliased alias (Node.node h ns) =
    Node.node (record h { key = if is_empty alias then h.key else alias }) ns

abbrev pub expanded_or_fuel : Option (List Field) → Result SelectionError (List Field)
expanded_or_fuel none = err SelectionError.out_of_fuel
expanded_or_fuel (some fields) = ok fields

-- A child goes before the rest if its key is requested.
abbrev pub keep_requested :
    Option Field
    → (Field → Result SelectionError Node)
    → Result SelectionError Nodes
    → Result SelectionError Nodes
keep_requested none child rest = rest
keep_requested (some f) child rest = do
  c ← child f
  kept ← rest
  ok (Nodes.more (aliased f.alias c) kept)

module _ (expand : Selections → Option (List Field)) where
  -- filterBySelection, and its loop over the children.
  unfoldable mutual
    pub filter_node : Node → Selections → Result SelectionError Node
    filter_node Node.nil s = ok Node.nil
    filter_node (Node.node h ns) s =
        if type_eq h.type UirType.map
        then (do
          fields ← expanded_or_fuel (expand s)
          kept ← filter_children fields ns
          ok (Node.node (new_head UirType.map h.key Any.nil) kept))
        else ok (Node.node h ns)

    pub filter_children : List Field → Nodes → Result SelectionError Nodes
    filter_children fields Nodes.none = ok Nodes.none
    filter_children fields (Nodes.more Node.nil ns) = err SelectionError.nil_pointer
    filter_children fields (Nodes.more (Node.node h cs) ns) =
        keep_requested (requested h.key fields)
          (λ f.
            if type_eq h.type UirType.map && not (no_selections f.selections)
            then filter_node (Node.node h cs) f.selections
            else ok (Node.node h cs))
          (filter_children fields ns)

unfoldable pub filter_by_selection : ℕ → Fragments → Node → Selections → Result SelectionError Node
unfolding filter_node expand_selections
filter_by_selection fuel fragments n s = filter_node (expand_selections fuel fragments) n s
