-- ===== src/Infrastructure/Planning/Dependencies.antt =====
-- _resolve_dependencies of RuleBasedPlanningEngine: the dependencies of resources become
-- dependencies of steps (infrastructure/ai/planning_engine.py).
use multi_cloud_ai_orchestra.Base.{
  String, str_eq, not, ◌&&◌, List, [], ◌∷◌, ◌++◌, Option, none, some, map, mem_text, if◌then◌else◌,
}
use multi_cloud_ai_orchestra.Base.Dict.{Dict, get, put}
use multi_cloud_ai_orchestra.Domain.Cloud.{resource_identifier}
use multi_cloud_ai_orchestra.Domain.Plan.{ExecutionStep}

-- `resource_to_step`: a later step of the same resource replaces an earlier one.
unfoldable pub index_steps : Dict String → List ExecutionStep → Dict String
index_steps table [] = table
index_steps table (step ∷ steps) =
    index_steps (put (resource_identifier step.resource_spec) step.step_id table) steps

-- `if dep_step_id and dep_step_id not in new_deps: new_deps.append(dep_step_id)`
unfoldable pub add_dependency : Option String → List String → List String
add_dependency none new_deps = new_deps
add_dependency (some id) new_deps =
    if not (str_eq id "") && not (mem_text id new_deps) then new_deps ++ id ∷ [] else new_deps

-- The inner loop of _resolve_dependencies, from `new_deps` on.
unfoldable pub collect_dependencies : Dict String → List String → List String → List String
collect_dependencies table [] new_deps = new_deps
collect_dependencies table (dep_resource ∷ resources) new_deps =
    collect_dependencies table resources (add_dependency (get dep_resource table) new_deps)

-- A step with no new dependency is left as it is: its list is then the old one.
unfoldable pub resolve_step : Dict String → ExecutionStep → ExecutionStep
resolve_step table step = record step {
  dependencies = collect_dependencies table step.resource_spec.dependencies step.dependencies;
}

unfoldable pub resolve_dependencies : List ExecutionStep → List ExecutionStep
resolve_dependencies steps = map (resolve_step (index_steps [] steps)) steps
