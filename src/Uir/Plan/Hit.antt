-- ===== src/Uir/Plan/Hit.antt =====
-- internal/uir/plan.go: a plan that the cache holds, over any calls that come later.
use omni_schema.Prelude.{List, [], ◌∷◌, ◌++◌, ◌≡◌, refl, sym, ap, ◌∙◌, false, All}
use omni_schema.Prelude.{if◌then◌else◌, none, some, Bool-cases, Option-cases, inl, inr}
use omni_schema.Prelude.Bytes.{Text, codes, is_empty, text_eq, text_eq_refl, text_eq_iff}
use omni_schema.Prelude.Maps.{find, put, find-put}
use omni_schema.Uir.Presence.{ConversionReport}
use omni_schema.Uir.Node.{Node, Nodes, Head, key_of}
use omni_schema.Uir.Coerce.{Host, ProjectOptions}
use omni_schema.Uir.Project.Walk.{project}
use omni_schema.Uir.Plan.{
  TransformationPlan, PlanCache, new_plan, compile_plan, compile_for, get_or_compile_plan,
  apply_plan,
}

-- The arguments of a call of GetOrCompilePlan, which is one of CompilePlan where the key is empty.
pub record PlanCall : Type 0 where
  pub key : Text
  pub source : Node
  pub target : Node
  pub options : ProjectOptions
  pub root : Node

abbrev pub get : PlanCache → PlanCall → PlanCache × TransformationPlan
get cache c = get_or_compile_plan cache c.key c.source c.target c.options c.root

-- The cache after some calls.
abbrev pub after : PlanCache → List PlanCall → PlanCache
after cache [] = cache
after cache (c ∷ cs) = after (get cache c).0 cs

-- The name under which CompilePlan stores the plan of a call.
abbrev pub own_name : PlanCall → Text
own_name c = key_of c.source ++ (codes "->" ++ key_of c.target)

find-put_same : {V : Type 0} (k : Text) (v : V) (m : List (Text × V)) → find k (put k v m) ≡ some v
find-put_same k v m = find-put k k v m ∙ ap (λ b. if b then some v else find k m) (text_eq_refl k)

find-put_other :
    {V : Type 0} (j k : Text) (v : V) (m : List (Text × V))
    → text_eq j k ≡ false
    → find k (put j v m) ≡ find k m
find-put_other j k v m e = find-put k j v m ∙ ap (λ b. if b then some v else find k m) e

-- A plan stays under its key in a call that does not store another under that very name.
find-get :
    (cache : PlanCache) (k : Text) (p : TransformationPlan) (c : PlanCall)
    → find k cache ≡ some p
    → text_eq (own_name c) k ≡ false
    → find k (get cache c).0 ≡ some p
unfolding get_or_compile_plan compile_plan compile_for new_plan
find-get cache k p c held other = elim (Bool-cases (is_empty c.key)) [
  | inl unnamed ↦ rw unnamed (find-put_other (own_name c) k _ cache other ∙ held)
  | inr named ↦ elim (Option-cases (find c.key cache)) [
    | inr (q, hit) ↦ rw (named, hit) held
    | inl new ↦ elim (Bool-cases (text_eq c.key k)) [
      | inl same ↦
          let key : c.key ≡ k = (text_eq_iff c.key k).0 same in
          absurd (cc (sym held ∙ ap (λ j. find j cache) (sym key) ∙ new))
      | inr apart ↦
          rw (named, new)
            (find-put_other c.key k _ _ apart ∙ find-put_other (own_name c) k _ cache other ∙ held)
    ]
  ]
]

find-after :
    (cache : PlanCache) (k : Text) (p : TransformationPlan) (cs : List PlanCall)
    → find k cache ≡ some p
    → All (λ c. text_eq (own_name c) k ≡ false) cs
    → find k (after cache cs) ≡ some p
find-after cache k p [] held others = held
find-after cache k p (c ∷ cs) held (other, others) =
    find-after (get cache c).0 k p cs (find-get cache k p c held other) others

-- The plan of a key that is not empty and that the cache does not hold, for a target that is not nil:
-- after any calls of GetOrCompilePlan and CompilePlan, of which none stores its plan under the key as
-- its own name, a call with the key, whatever its other arguments, leaves the cache as it is and returns
-- a plan with which ApplyPlan does what Project does with the target, the options and the root of the
-- first call.
pub apply_plan-get_or_compile_plan :
    (host : Host) (report : ConversionReport) (event : Node) (cache : PlanCache) (key : Text)
    (source : Node) (h : Head) (ns : Nodes) (opts : ProjectOptions) (root : Node)
    (between : List PlanCall) (again : PlanCall)
    → is_empty key ≡ false
    → find key cache ≡ none
    → All (λ c. text_eq (own_name c) key ≡ false) between
    → again.key ≡ key
    → let first = get_or_compile_plan cache key source (Node.node h ns) opts root in
      let later = after first.0 between in
      ((get later again).0 ≡ later)
      × (apply_plan host report event (get later again).1
          ≡ project host opts root report event (Node.node h ns))
unfolding get_or_compile_plan compile_for new_plan apply_plan
apply_plan-get_or_compile_plan host report event cache key source h ns opts root between again
      filled new others same =
    let made = compile_for cache key source (Node.node h ns) opts root in
    let one : get_or_compile_plan cache key source (Node.node h ns) opts root ≡ made =
      rw (filled, new) refl in
    let held = find-after made.0 key made.1 between (find-put_same key _ _) others in
    rw (one, same, filled, held) (refl, refl)
