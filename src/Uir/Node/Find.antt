-- ===== src/Uir/Node/Find.antt =====
-- internal/uir/node.go: FindNamedType against the walk of the graph, and copies of annotations.
use omni_schema.Prelude.{◌≡◌, refl, sym, ap, ◌∙◌, Bool, false, arith, ◌||◌, if◌then◌else◌}
use omni_schema.Prelude.{List, [], ◌∷◌, ◌++◌, Bool-cases, inl, inr}
use omni_schema.Prelude.Bytes.{Text, text_eq, text_eq_iff}
use omni_schema.Uir.Node.{Node, Nodes, declares, find_named_type, find_in_children, or_else}
use omni_schema.Uir.Node.{Annotations, lookup, insert, annotation, clone_shallow, copy_annotations}

-- The nodes of a graph from the root down, each before its children, and the children in order.
mutual
  pub preorder : Node → List Node
  preorder Node.nil = []
  preorder (Node.node h ns) = Node.node h ns ∷ preorder_children ns

  pub preorder_children : Nodes → List Node
  preorder_children Nodes.none = []
  preorder_children (Nodes.more n ns) = preorder n ++ preorder_children ns

-- The first node of a walk that declares a name, nil if there is none.
unfoldable pub first_named : Text → List Node → Node
first_named name [] = Node.nil
first_named name (Node.nil ∷ ns) = first_named name ns
first_named name (Node.node h cs ∷ ns) =
    if declares name h then Node.node h cs else first_named name ns

first_named-append :
    (name : Text) (xs ys : List Node)
    → first_named name (xs ++ ys) ≡ or_else (first_named name xs) (first_named name ys)
unfolding first_named or_else
first_named-append name [] ys = refl
first_named-append name (Node.nil ∷ xs) ys = first_named-append name xs ys
first_named-append name (Node.node h cs ∷ xs) ys = elim (Bool-cases (declares name h)) [
  | inl e ↦ rw e
  | inr e ↦ rw e (first_named-append name xs ys)
]

mutual
  unfolding find_named_type preorder first_named

  find_walk : (n : Node) (name : Text) → find_named_type n name ≡ first_named name (preorder n)
  find_walk Node.nil name = refl
  find_walk (Node.node h ns) name =
      ap (λ (d : Node). if declares name h then Node.node h ns else d) (find_walk_children ns name)

  find_walk_children :
      (ns : Nodes) (name : Text)
      → find_in_children ns name ≡ first_named name (preorder_children ns)
  find_walk_children Nodes.none name = refl
  find_walk_children (Nodes.more n ns) name =
      (λ i. or_else (find_walk n name i) (find_walk_children ns name i))
      ∙ sym (first_named-append name (preorder n) (preorder_children ns))

-- FindNamedType returns the first node, in the order of a walk from the root, that has the name and
-- is a map, an enum, a union, an interface or a definition, and nil if there is none.
pub find_named_type-preorder :
    (n : Node) (name : Text) → find_named_type n name ≡ first_named name (preorder n)
find_named_type-preorder n name = find_walk n name

pub lookup-insert :
    (k j v : Text) (m : Annotations)
    → lookup j (insert k v m) ≡ (if text_eq k j then v else lookup j m)
unfolding lookup insert
lookup-insert k j v [] = refl
lookup-insert k j v ((i, w) ∷ m) =
    ground (arith, text_eq_iff i k, text_eq_iff i j, text_eq_iff k j, lookup-insert k j v m)

unfoldable pub has : Text → Annotations → Bool
has k [] = false
has k ((j, v) ∷ m) = text_eq j k || has k m

-- A Go map holds each key once.
abbrev pub Distinct : Annotations → Type 0
Distinct [] = Unit {0}
Distinct ((j, v) ∷ m) = (has j m ≡ false) × Distinct m

lookup-copy_annotations :
    (m out : Annotations) (k : Text)
    → Distinct m
    → lookup k (copy_annotations m out) ≡ (if has k m then lookup k m else lookup k out)
unfolding copy_annotations lookup has
lookup-copy_annotations [] out k d = refl
lookup-copy_annotations ((j, v) ∷ m) out k d = ground (
  arith,
  text_eq_iff j k,
  lookup-copy_annotations m (insert j v out) k d.1,
  lookup-insert j k v out,
)

lookup-absent : (m : Annotations) (k : Text) → has k m ≡ false → lookup k m ≡ []
unfolding lookup has
lookup-absent [] k h = refl
lookup-absent ((j, v) ∷ m) k h = ground (arith, lookup-absent m k)

abbrev DistinctKeys : Node → Type 0
DistinctKeys Node.nil = Unit {0}
DistinctKeys (Node.node h ns) = Distinct h.annotations

-- CloneShallow keeps every annotation, if the map of the node holds each key once.
annotation-clone_shallow :
    (n : Node) (k : Text) → DistinctKeys n → annotation (clone_shallow n) k ≡ annotation n k
unfolding annotation clone_shallow
annotation-clone_shallow Node.nil k d = refl
annotation-clone_shallow (Node.node h ns) k d = ground (
  arith,
  lookup-copy_annotations h.annotations [] k d,
  lookup-absent h.annotations k,
  lookup-absent [] k,
)
