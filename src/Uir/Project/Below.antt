-- ===== src/Uir/Project/Below.antt =====
-- internal/uir/project.go: what the loops over the fields find in the index of a graph is one level
-- below it.
use omni_schema.Prelude.{ℕ, ◌≤◌, ◌≡◌, arith, Bool, true, false, Bool-cases}
use omni_schema.Prelude.{◌&&◌, inl, inr, Option, none, some, List, [], ◌∷◌, All, if◌then◌else◌}
use omni_schema.Prelude.Bytes.{Text, codes, text_eq, is_empty}
use omni_schema.Prelude.Maps.{find, put}
use omni_schema.Prelude.Result.{ok, ok-injective}
use omni_schema.Uir.Node.{Node, Nodes, Head, lookup}
use omni_schema.Uir.Coerce.{Host, NameMatchPolicy}
use omni_schema.Uir.Project.{
  index_into, find_similar, find_annotated, or_else_look, lookup_data_field, is_exact,
  normalize_name, is_fold,
}
use omni_schema.Uir.Project.Walk.{depth, depths}

-- A loop over a map meets only entries of the map.
abbrev pub RangesOverEntries : Host → Type 1
RangesOverEntries host =
    (P : Text × Node → Type 0) (m : List (Text × Node)) → All P m → All P (host.ranged m)

-- A graph of at most so many levels, and entries of such graphs.
abbrev pub Below : ℕ → Text × Node → Type 0
Below l (k, n) = depth n ≤ l

unfoldable pub BelowIf : ℕ → Option Node → Type 0
BelowIf l none = Unit {0}
BelowIf l (some n) = depth n ≤ l

put-Below :
    (l : ℕ) (k : Text) (n : Node) (m : List (Text × Node))
    → depth n ≤ l
    → All (Below l) m
    → All (Below l) (put k n m)
unfolding put
put-Below l k n [] h hs = (h, tt)
put-Below l k n ((j, w) ∷ m) h (hw, hs) = elim (Bool-cases (text_eq j k)) [
  | inl e ↦ rw e (h, hs)
  | inr e ↦ rw e (hw, put-Below l k n m h hs)
]

pub index_into-Below :
    (l : ℕ) (ns : Nodes) (idx out : List (Text × Node))
    → depths ns ≤ l
    → All (Below l) idx
    → index_into ns idx ≡ ok out
    → All (Below l) out
unfolding index_into depths depth
index_into-Below l Nodes.none idx out h hs e = rw (← ok-injective e) hs
index_into-Below l (Nodes.more Node.nil ns) idx out h hs e = cc
index_into-Below l (Nodes.more (Node.node c cs) ns) idx out h hs e =
    index_into-Below l ns _ out (omega arith)
      (put-Below l c.key (Node.node c cs) idx (omega arith) hs) e

none-Below : (l : ℕ) → BelowIf l none
unfolding BelowIf
none-Below l = tt

find-Below : (l : ℕ) (k : Text) (m : List (Text × Node)) → All (Below l) m → BelowIf l (find k m)
unfolding find BelowIf
find-Below l k [] hs = tt
find-Below l k ((j, w) ∷ m) (hw, hs) = elim (Bool-cases (text_eq j k)) [
  | inl e ↦ rw e hw
  | inr e ↦ rw e (find-Below l k m hs)
]

BelowIf-if :
    (l : ℕ) (b : Bool) (m n : Option Node)
    → BelowIf l m
    → BelowIf l n
    → BelowIf l (if b then m else n)
unfolding BelowIf
BelowIf-if l true m n h k = h
BelowIf-if l false m n h k = k

similar_branches :
    (l : ℕ) (same fold : Bool) (w : Node) (rest : Option Node)
    → depth w ≤ l
    → BelowIf l rest
    → BelowIf l (if same then some w else if fold then some w else rest)
unfolding BelowIf
similar_branches l true fold w rest h k = h
similar_branches l false true w rest h k = h
similar_branches l false false w rest h k = k

find_similar-Below :
    (host : Host) (policy : NameMatchPolicy) (key : Text) (l : ℕ) (m : List (Text × Node))
    → All (Below l) m
    → BelowIf l (find_similar host policy key m)
unfolding find_similar BelowIf
find_similar-Below host policy key l [] hs = tt
find_similar-Below host policy key l ((j, w) ∷ m) (hw, hs) =
    similar_branches l (text_eq (normalize_name j) (normalize_name key))
      (is_fold policy && host.equal_fold j key) w _ hw (find_similar-Below host policy key l m hs)

or_else_look-Below :
    (l : ℕ) (m n : Option Node) → BelowIf l m → BelowIf l n → BelowIf l (or_else_look m n)
unfolding BelowIf or_else_look
or_else_look-Below l none n h k = k
or_else_look-Below l (some m) n h k = h

find_annotated-Below :
    (l : ℕ) (k : Text) (m : List (Text × Node)) → All (Below l) m → BelowIf l (find_annotated k m)
unfolding find_annotated
find_annotated-Below l k m hs =
    BelowIf-if l (is_empty k) none (find k m) (none-Below l) (find-Below l k m hs)

pub lookup_data_field-Below :
    (host : Host) (l : ℕ) (idx : List (Text × Node)) (h : Head) (policy : NameMatchPolicy)
    → RangesOverEntries host
    → All (Below l) idx
    → BelowIf l (lookup_data_field host idx h policy)
unfolding lookup_data_field
lookup_data_field-Below host l idx h policy over hs =
    let alike = find_similar-Below host policy h.key l (host.ranged idx) (over (Below l) idx hs) in
    or_else_look-Below l _ _ (find-Below l h.key idx hs) (
      or_else_look-Below l _ _
        (find_annotated-Below l (lookup (codes "proto_number") h.annotations) idx hs)
        (or_else_look-Below l _ _
          (find_annotated-Below l (lookup (codes "alias") h.annotations) idx hs)
          (BelowIf-if l (is_exact policy) none _ (none-Below l) alike)))
