-- ===== src/Infrastructure/Planning/Generate.antt =====
-- generate_plan of RuleBasedPlanningEngine, with its risk and its reasoning text
-- (infrastructure/ai/planning_engine.py). Its logging is left out.
use multi_cloud_ai_orchestra.Base.{
  ℕ, ◌+◌, String, str_eq, List, [], ◌∷◌, map, fstring, join, decimal, length, ltb, if◌then◌else◌,
}
use multi_cloud_ai_orchestra.Domain.Cloud.{provider_value}
use multi_cloud_ai_orchestra.Domain.Entity.{Ambient, fresh_id, after_id}
use multi_cloud_ai_orchestra.Domain.Plan.{
  DeploymentStrategy, rolling, blue_green, canary, recreate, DeploymentIntent, ExecutionStep,
  ExecutionPlan,
}
use multi_cloud_ai_orchestra.Infrastructure.Planning.Steps.{
  create_steps_from_resources, create_default_steps,
}
use multi_cloud_ai_orchestra.Infrastructure.Planning.Dependencies.{resolve_dependencies}

unfoldable pub sum_durations : List ExecutionStep → ℕ
sum_durations [] = 0
sum_durations (step ∷ steps) = step.estimated_duration_seconds + sum_durations steps

unfoldable pub assess_risk : DeploymentIntent → List ExecutionStep → String
assess_risk intent steps =
    if str_eq intent.environment "production"
    then "high"
    else if ltb 1 (length intent.target_providers)
    then "medium"
    else if ltb 10 (length steps)
    then "medium"
    else "low"

unfoldable pub strategy_value : DeploymentStrategy → String
strategy_value rolling = "rolling"
strategy_value blue_green = "blue_green"
strategy_value canary = "canary"
strategy_value recreate = "recreate"

unfoldable pub generate_reasoning : DeploymentIntent → List ExecutionStep → String
generate_reasoning intent steps = fstring (
    "Generated "
    ∷ decimal (length steps)
    ∷ " execution steps for deployment to "
    ∷ join ", " (map provider_value intent.target_providers)
    ∷ " using "
    ∷ strategy_value intent.strategy
    ∷ " strategy in "
    ∷ intent.environment
    ∷ " environment. Risk assessment: "
    ∷ assess_risk intent steps
    ∷ "."
    ∷ [])

-- `if not steps: steps = self._create_default_steps(intent)`
unfoldable pub or_default :
    DeploymentIntent → List ExecutionStep × Ambient → List ExecutionStep × Ambient
or_default intent ([], a) = create_default_steps intent a
or_default intent (step ∷ steps, a) = (step ∷ steps, a)

unfoldable pub generate_plan : DeploymentIntent → Ambient → ExecutionPlan × Ambient
generate_plan intent a =
    let (created, b) = or_default intent (create_steps_from_resources intent a) in
    let steps = resolve_dependencies created in
    (
      record {
        plan_id = fresh_id b;
        steps = steps;
        estimated_total_duration_seconds = sum_durations steps;
        risk_assessment = assess_risk intent steps;
        reasoning = generate_reasoning intent steps;
        terraform_plan_output = "";
      },
      after_id b,
    )
