-- ===== src/Domain/Plan.antt =====
-- The value objects of domain/models/deployment.py: intents, steps, plans and step results.
pub mod Order
use native.Mathlib.Decide.{ℕ_discrete}
use multi_cloud_ai_orchestra.Base.{
  ℕ, String, Bool, List, [], ◌∷◌, Option, none, some, Json, String-discrete, Json-discrete, length,
  str_eq, if◌then◌else◌,
}
use multi_cloud_ai_orchestra.Base.Dict.{Dict}
use multi_cloud_ai_orchestra.Domain.Cloud.{CloudProviderType, ResourceSpec, ResourceSpec-discrete}

pub data DeploymentStrategy : Type 0 where
  rolling blue_green canary recreate : DeploymentStrategy

pub record DeploymentIntent : Type 0 where
  pub description : String
  pub target_providers : List CloudProviderType
  pub target_regions : List String
  pub resources : List ResourceSpec
  pub strategy : DeploymentStrategy
  pub auto_approve : Bool
  pub rollback_on_failure : Bool
  pub environment : String
  pub parameters : Dict Json

pub record ExecutionStep : Type 0 where
  pub step_id : String
  pub name : String
  pub description : String
  pub provider : CloudProviderType
  pub resource_spec : ResourceSpec
  pub terraform_action : String
  pub dependencies : List String
  pub estimated_duration_seconds : ℕ
  pub idempotency_key : String
  pub retry_count : ℕ
  pub max_retries : ℕ

pub ExecutionStep-discrete : Discrete ExecutionStep
ExecutionStep-discrete = hlevel (ℕ_discrete, String-discrete, ResourceSpec-discrete)

pub record ExecutionPlan : Type 0 where
  pub plan_id : String
  pub steps : List ExecutionStep
  pub estimated_total_duration_seconds : ℕ
  pub risk_assessment : String
  pub reasoning : String
  pub terraform_plan_output : String

-- ExecutionPlan.step_count
unfoldable pub step_count : ExecutionPlan → ℕ
step_count plan = length plan.steps

-- ExecutionPlan.get_step, on the steps that its loop has still to see.
unfoldable pub find_step : String → List ExecutionStep → Option ExecutionStep
find_step step_id [] = none
find_step step_id (step ∷ steps) =
    if str_eq step.step_id step_id then some step else find_step step_id steps

unfoldable pub get_step : ExecutionPlan → String → Option ExecutionStep
unfolding find_step
get_step plan step_id = find_step step_id plan.steps

-- StepResult. A duration is a float that the program never sets; it stands for whole seconds.
pub record StepResult : Type 0 where
  pub step_id : String
  pub success : Bool
  pub output : String
  pub error_message : String
  pub resource_ids : Dict String
  pub duration_seconds : ℕ
  pub idempotency_key : String
  pub attempt_number : ℕ
