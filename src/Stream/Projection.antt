-- ===== src/Stream/Projection.antt =====
-- internal/stream/broker.go: projectEventToNode. The plan cache of internal/uir/plan.go is passed on,
-- and the report that the options of a plan share; what the client selects of a root field stands in
-- Asked.
use omni_schema.Prelude.{ℕ, true, if◌then◌else◌, Option, none, some}
use omni_schema.Prelude.Bytes.{codes, text_eq, is_empty}
use omni_schema.Prelude.Result.{Result, ok, err}
use omni_schema.Uir.Presence.{ConversionReport}
use omni_schema.Uir.Node.{Node}
use omni_schema.Uir.Coerce.{Host, ProjectOptions, default_project_options}
use omni_schema.Uir.Project.{ProjectError, Projected}
use omni_schema.Uir.Schema.{SchemaError, resolve_payload_type}
use omni_schema.Uir.Plan.{PlanCache, plan_cache_key, get_or_compile_plan, apply_plan}
use omni_schema.Registry.{Registry, SchemaMetadata, get_version}
use omni_schema.Stream.Subscription.{Subscription, RootField}
use omni_schema.Stream.Selection.{
  Selections, Fragments, SelectionError, no_selections, filter_by_selection,
}
use omni_schema.Stream.Operation.{return_type_for_event}

pub record Asked : Type 0 where
  pub selections : Selections
  pub requested_fields : Selections
  pub fragments : Fragments

pub data EventError : Type 0 where
  version_not_found nil_pointer : EventError
  selection : SelectionError → EventError
  schema : SchemaError → EventError
  projection : ProjectError → EventError

abbrev pub wrapped_as : {E A : Type 0} → (E → EventError) → Result E A → Result EventError A
wrapped_as wrap (ok a) = ok a
wrapped_as wrap (err e) = err (wrap e)

-- The type that an event is projected to.
unfoldable pub schema_target : Node → Subscription → RootField → Result EventError Node
schema_target root sub rf =
    if text_eq sub.target_format (codes "graphql")
    then wrapped_as EventError.selection (return_type_for_event root rf.name)
    else wrapped_as EventError.schema
        (resolve_payload_type root (if is_empty sub.target_type then rf.name else sub.target_type))

abbrev pub event_options : ProjectOptions
event_options = record default_project_options { emit_null_for_missing = true }

-- The state after a call, and its result.
abbrev pub Outcome : Type 0
Outcome = PlanCache × ConversionReport × Result EventError Node

module _ (fuel : ℕ) (host : Host) (asked : Asked) where
  abbrev filtered : Node → Selections → Result EventError Node
  filtered n s =
      if no_selections s
      then ok n
      else wrapped_as EventError.selection (filter_by_selection fuel asked.fragments n s)

  -- The filter by the selections of the root field, or else those of the subscription.
  unfoldable pub selected : PlanCache → Projected → Outcome
  unfolding filter_by_selection
  selected cache (report, err e) = (cache, report, err (EventError.projection e))
  selected cache (report, ok n) = (
    cache,
    report,
    filtered n
        (if no_selections asked.selections then asked.requested_fields else asked.selections),
  )

  unfoldable pub project_to :
      PlanCache
      → ConversionReport
      → Subscription
      → RootField
      → Node
      → Node
      → Result EventError Node
      → Outcome
  unfolding selected plan_cache_key get_or_compile_plan apply_plan
  project_to cache report sub rf event root (err e) = (cache, report, err e)
  project_to cache report sub rf event root (ok Node.nil) =
      (cache, report, err EventError.nil_pointer)
  project_to cache report sub rf event root (ok (Node.node h ns)) =
      let version = sub.schema_version in
      let key = plan_cache_key sub.schema_name rf.name sub.schema_name h.key version version in
      let (cache', plan) =
        get_or_compile_plan cache key event (Node.node h ns) event_options root in
      selected cache' (apply_plan host report event plan)

  abbrev project_version :
      PlanCache
      → ConversionReport
      → Subscription
      → RootField
      → Node
      → Option SchemaMetadata
      → Outcome
  project_version cache report sub rf event none = (cache, report, err EventError.version_not_found)
  project_version cache report sub rf event (some meta) =
      project_to cache report sub rf event meta.root (schema_target meta.root sub rf)

  unfoldable pub project_event_to_node :
      PlanCache → ConversionReport → Registry → Subscription → RootField → Node → Outcome
  unfolding project_to schema_target get_version
  project_event_to_node cache report r sub rf event =
      project_version cache report sub rf event (get_version sub.schema_name sub.schema_version r)
