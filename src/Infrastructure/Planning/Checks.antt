-- ===== src/Infrastructure/Planning/Checks.antt =====
-- validate_plan and estimate_cost of RuleBasedPlanningEngine (infrastructure/ai/planning_engine.py).
use multi_cloud_ai_orchestra.Base.{
  ℕ, ◌+◌, String, Bool, List, [], ◌∷◌, ◌++◌, map, fstring, mem_text, length, ◌==◌, if◌then◌else◌,
}
use multi_cloud_ai_orchestra.Base.Dict.{Dict, put}
use multi_cloud_ai_orchestra.Domain.Plan.{ExecutionStep, ExecutionPlan}
use multi_cloud_ai_orchestra.Infrastructure.Planning.Tables.{cost_per_resource}

-- The errors of one step in validate_plan.
unfoldable pub missing_dependencies : List String → String → List String → List String
missing_dependencies step_ids name [] = []
missing_dependencies step_ids name (dep ∷ deps) =
    let rest = missing_dependencies step_ids name deps in
    if mem_text dep step_ids
    then rest
    else fstring ("Step " ∷ name ∷ " depends on non-existent step " ∷ dep ∷ []) ∷ rest

unfoldable pub step_errors : List String → List ExecutionStep → List String
step_errors step_ids [] = []
step_errors step_ids (step ∷ steps) =
    missing_dependencies step_ids step.name step.dependencies ++ step_errors step_ids steps

-- `if not plan.steps: errors.append(...)`
unfoldable pub no_steps_error : List ExecutionStep → List String
no_steps_error [] = "Plan has no execution steps" ∷ []
no_steps_error (step ∷ steps) = []

unfoldable pub validate_plan : ExecutionPlan → Bool × List String
validate_plan plan =
    let errors =
      no_steps_error plan.steps ++ step_errors (map (λ step. step.step_id) plan.steps) plan.steps in
    (length errors == 0, errors)

-- The loop of estimate_cost, over `costs` and `total`.
unfoldable pub add_costs : List ExecutionStep → Dict ℕ → ℕ → Dict ℕ × ℕ
add_costs [] costs total = (costs, total)
add_costs (step ∷ steps) costs total =
    let cost = cost_per_resource step.resource_spec.resource_type in
    add_costs steps (put step.name cost costs) (total + cost)

unfoldable pub estimate_cost : ExecutionPlan → Dict ℕ
estimate_cost plan =
    let (costs, total) = add_costs plan.steps [] 0 in put "total_monthly" total costs
