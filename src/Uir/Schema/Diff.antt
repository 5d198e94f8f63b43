-- ===== src/Uir/Schema/Diff.antt =====
-- internal/uir/schema.go: DiffRecursive and CompatibilityClass, and the calls of them in
-- internal/registry/registry.go. A nil child, which the code would read through, makes the result
-- `none`. The recursion is on fuel, one unit for each level of the new graph and one more.
use omni_schema.Prelude.{ℕ, zero, suc, ◌+◌, Bool, true, false, not, ◌&&◌, ◌||◌, ◌==◌, if◌then◌else◌}
use omni_schema.Prelude.{Option, none, some, List, [], ◌∷◌, ◌++◌}
use omni_schema.Prelude.Bytes.{Text, codes, text_eq, is_empty}
use omni_schema.Prelude.Maps.{find}
use omni_schema.Prelude.Result.{Result, ok}
use omni_schema.Uir.Types.{type_eq, type_name}
use omni_schema.Uir.Node.{Node, Head, lookup}
use omni_schema.Uir.Coerce.{Host}
use omni_schema.Uir.Project.{ProjectError, index_data_children}
use omni_schema.Uir.Project.Walk.{depth}

pub data ChangeKind : Type 0 where
  added removed changed : ChangeKind

pub record FieldChange : Type 0 where
  pub path : Text
  pub kind : ChangeKind
  pub old_type : Text
  pub new_type : Text

unfoldable pub join_path : Text → Text → Text
join_path parent key = if is_empty parent then key else parent ++ (b'.' ∷ key)

-- `seen[k]`, where seen has the keys of the new graph.
unfoldable pub is_seen : Text → List (Text × Node) → Bool
is_seen k m = elim (find k m) [ none ↦ false | some n ↦ true ]

abbrev pub Changes : Type 0
Changes = Option (List FieldChange)

abbrev pub and_then : Changes → Changes → Changes
and_then none ys = none
and_then (some xs) none = none
and_then (some xs) (some ys) = some (xs ++ ys)

abbrev pub type_text : Node → Text
type_text Node.nil = []
type_text (Node.node h ns) = type_name h.type

abbrev pub addition : Text → Node → FieldChange
addition path n = record {
  path = path;
  kind = ChangeKind.added;
  old_type = [];
  new_type = type_text n;
}

abbrev pub removal : Text → Node → FieldChange
removal path n = record {
  path = path;
  kind = ChangeKind.removed;
  old_type = type_text n;
  new_type = [];
}

-- The test of the type and of the two annotations.
unfoldable pub differs : Head → Head → Bool
differs a b =
    not (type_eq a.type b.type)
    || not (
        text_eq (lookup (codes "gql_type") a.annotations) (lookup (codes "gql_type") b.annotations))
    || not (
        text_eq (lookup (codes "proto_type") a.annotations)
          (lookup (codes "proto_type") b.annotations))

unfoldable pub own_change : Text → Head → Head → List FieldChange
unfolding differs
own_change path a b =
    if differs a b && not (is_empty path)
    then record {
      path = path;
      kind = ChangeKind.changed;
      old_type = type_name a.type;
      new_type = type_name b.type;
    }
      ∷ []
    else []

abbrev pub Walk : Type 0
Walk = Text → Node → Node → Changes

module _ (rec : Walk) (path : Text) where
  -- A field of the new graph: an addition is noted here and again by the walk to it.
  unfoldable pub new_field : Text → Option Node → Node → Changes
  new_field p none bv = and_then (some (addition p bv ∷ [])) (rec p Node.nil bv)
  new_field p (some av) bv = rec p av bv

  -- The loop over the fields of the new graph.
  unfoldable pub new_fields : List (Text × Node) → List (Text × Node) → Changes
  unfolding new_field
  new_fields ai [] = some []
  new_fields ai ((k, bv) ∷ m) =
      and_then (new_field (join_path path k) (find k ai) bv) (new_fields ai m)

  -- The loop over the fields of the old graph that the new one lacks.
  unfoldable pub old_fields : List (Text × Node) → List (Text × Node) → Changes
  unfolding is_seen
  old_fields bi [] = some []
  old_fields bi ((k, av) ∷ m) =
      let p = join_path path k in
      let rest = old_fields bi m in
      let gone = and_then (some (removal p av ∷ [])) (rec p av Node.nil) in
      if is_seen k bi then rest else and_then gone rest

abbrev Index : Type 0
Index = Result ProjectError (List (Text × Node))

-- The changes between two nodes whose children are indexed.
unfoldable pub diff_indexed : Walk → Host → Text → Head → Head → Index → Index → Changes
unfolding own_change new_fields old_fields
diff_indexed rec host path a b (ok ai) (ok bi) =
    and_then (some (own_change path a b))
      (and_then (new_fields rec path ai (host.ranged bi)) (old_fields rec path bi (host.ranged ai)))
diff_indexed rec host path a b _ _ = none

unfoldable pub diff_body : Walk → Host → Walk
unfolding diff_indexed index_data_children
diff_body rec host path Node.nil Node.nil = some []
diff_body rec host path Node.nil (Node.node h ns) = some (addition path (Node.node h ns) ∷ [])
diff_body rec host path (Node.node h ns) Node.nil = some (removal path (Node.node h ns) ∷ [])
diff_body rec host path (Node.node a xs) (Node.node b ys) =
    diff_indexed rec host path a b (index_data_children xs) (index_data_children ys)

unfoldable pub diff_walk : ℕ → Host → Walk
unfolding diff_body
diff_walk zero host path a b = none
diff_walk (suc levels) host path a b = diff_body (diff_walk levels host) host path a b

unfoldable pub diff_recursive : Host → Node → Node → Changes
unfolding diff_walk
diff_recursive host a b = diff_walk (suc (depth b)) host [] a b

-- The counters of the switch on the kind.
unfoldable pub tally : ChangeKind → ChangeKind → ℕ
tally ChangeKind.added ChangeKind.added = 1
tally ChangeKind.removed ChangeKind.removed = 1
tally ChangeKind.changed ChangeKind.changed = 1
tally _ _ = 0

unfoldable pub count : ChangeKind → List FieldChange → ℕ
unfolding tally
count kind [] = 0
count kind (c ∷ cs) = tally kind c.kind + count kind cs

pub data Class : Type 0 where
  full backward forward breaking : Class

unfoldable pub class_of : List FieldChange → Class
unfolding count
class_of cs =
    let added = count ChangeKind.added cs in
    let removed = count ChangeKind.removed cs in
    let changed = count ChangeKind.changed cs in
    if removed == 0 && changed == 0
    then (if added == 0 then Class.full else Class.backward)
    else if added == 0 && changed == 0
    then Class.forward
    else Class.breaking

abbrev pub class_of_changes : Changes → Option Class
class_of_changes none = none
class_of_changes (some cs) = some (class_of cs)

unfoldable pub compatibility_class : Host → Node → Node → Option Class
compatibility_class host a b = class_of_changes (diff_recursive host a b)
