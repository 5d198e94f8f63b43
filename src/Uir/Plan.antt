-- ===== src/Uir/Plan.antt =====
-- internal/uir/plan.go: plans of projections and their cache, one map whose calls are one step each.
-- A plan has the schema root that Project would find; the report is passed on its own.
pub mod Hit
use omni_schema.Prelude.{
  ◌≡◌, refl, sym, ap, ◌∙◌, Bool, true, false, if◌then◌else◌, Option, none, some,
}
use omni_schema.Prelude.{List, [], ◌∷◌, ◌++◌}
use omni_schema.Prelude.Bytes.{Text, codes, is_empty, text_eq, text_eq_refl}
use omni_schema.Prelude.Maps.{find, put, find-put}
use omni_schema.Prelude.Result.{ok}
use omni_schema.Uir.Presence.{ConversionReport}
use omni_schema.Uir.Node.{key_of, Node}
use omni_schema.Uir.Coerce.{Host, ProjectOptions}
use omni_schema.Uir.Project.{Projected}
use omni_schema.Uir.Project.Walk.{project}

pub record TransformationPlan : Type 0 where
  pub key : Text
  pub source_name : Text
  pub target_name : Text
  pub target : Node
  pub options : ProjectOptions
  pub root : Node

abbrev pub PlanCache : Type 0
PlanCache = List (Text × TransformationPlan)

unfoldable pub plan_cache_key : Text → Text → Text → Text → Text → Text → Text
plan_cache_key source_schema source_type target_schema target_type source_ver target_ver =
    source_schema
    ++ (codes "@"
        ++ (source_ver
            ++ (codes ":"
                ++ (source_type
                    ++ (codes "=>"
                        ++ (target_schema
                            ++ (codes "@" ++ (target_ver ++ (codes ":" ++ target_type)))))))))

unfoldable pub new_plan : Node → Node → ProjectOptions → Node → TransformationPlan
new_plan source target opts root = record {
  key = key_of source ++ (codes "->" ++ key_of target);
  source_name = key_of source;
  target_name = key_of target;
  target = target;
  options = opts;
  root = root;
}

unfoldable pub compile_plan :
    PlanCache → Node → Node → ProjectOptions → Node → PlanCache × TransformationPlan
unfolding new_plan
compile_plan cache source target opts root =
    let plan = new_plan source target opts root in (put plan.key plan cache, plan)

-- A plan that is compiled for a key: CompilePlan has stored the same pointer under its own name, so
-- that entry shows the new key as well.
unfoldable pub compile_for :
    PlanCache → Text → Node → Node → ProjectOptions → Node → PlanCache × TransformationPlan
unfolding new_plan
compile_for cache key source target opts root =
    let plan = new_plan source target opts root in
    let renamed = record plan { key = key } in
    (put key renamed (put plan.key renamed cache), renamed)

abbrev loaded_or :
    PlanCache
    → PlanCache × TransformationPlan
    → Option TransformationPlan
    → PlanCache × TransformationPlan
loaded_or cache compiled none = compiled
loaded_or cache compiled (some plan) = (cache, plan)

unfoldable pub get_or_compile_plan :
    PlanCache → Text → Node → Node → ProjectOptions → Node → PlanCache × TransformationPlan
unfolding compile_plan compile_for
get_or_compile_plan cache key source target opts root =
    if is_empty key
    then compile_plan cache source target opts root
    else loaded_or cache (compile_for cache key source target opts root) (find key cache)

abbrev pub projected : Host → ProjectOptions → Node → ConversionReport → Node → Node → Projected
projected host opts root report source Node.nil = (report, ok source)
projected host opts root report source (Node.node h ns) =
    project host opts root report source (Node.node h ns)

-- ApplyPlan, on a plan that is not nil.
unfoldable pub apply_plan : Host → ConversionReport → Node → TransformationPlan → Projected
apply_plan host report source plan = projected host plan.options plan.root report source plan.target
