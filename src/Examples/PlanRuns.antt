-- ===== src/Examples/PlanRuns.antt =====
-- Runs of internal/uir/plan.go.
use omni_schema.Prelude.{◌≡◌, refl, [], ◌∷◌}
use omni_schema.Prelude.Bytes.{Text, codes, text_eq}
use omni_schema.Prelude.Maps.{find}
use omni_schema.Uir.Presence.{empty_report}
use omni_schema.Uir.Node.{Node, new_head}
use omni_schema.Uir.Coerce.{default_project_options}
use omni_schema.Uir.Plan.{get_or_compile_plan, apply_plan}
use omni_schema.Uir.Plan.Hit.{PlanCall, get, after, apply_plan-get_or_compile_plan}
use omni_schema.Uir.Project.Walk.{project}
use omni_schema.Examples.ProjectRuns.{host, record_head, record_fields, user_head, user_fields}

abbrev event : Node
event = Node.node record_head record_fields

abbrev user : Node
user = Node.node user_head user_fields

abbrev call : Text → PlanCall
call key = record {
  key = key;
  source = event;
  target = Node.nil;
  options = default_project_options;
  root = Node.nil;
}

-- Calls for another key and for none come between, and the last asks for no target at all.
apply_plan-get_or_compile_plan_example :
    let first = get_or_compile_plan [] (codes "users") event user default_project_options user in
    let later = after first.0 (call (codes "orders") ∷ call [] ∷ []) in
    ((get later (call (codes "users"))).0 ≡ later)
    × (apply_plan host empty_report event (get later (call (codes "users"))).1
        ≡ project host default_project_options user empty_report event user)
unfolding find text_eq new_head
apply_plan-get_or_compile_plan_example =
    apply_plan-get_or_compile_plan host empty_report event [] (codes "users") event user_head
      user_fields default_project_options user (call (codes "orders") ∷ call [] ∷ [])
      (call (codes "users")) refl refl (refl, (refl, tt)) refl
