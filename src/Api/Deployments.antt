-- ===== src/Api/Deployments.antt =====
-- The routes of api/routes/deployment_routes.py, over the deployment service. The user that a route
-- is given is what get_current_user returned.
pub mod Access
pub mod Singleton
use multi_cloud_ai_orchestra.Base.{
  ℕ, String, List, [], ◌∷◌, Option, none, some, Json, Result, ok, raised, pure, map, length, ◌>>=◌,
  ◌>>◌,
}
use multi_cloud_ai_orchestra.Base.Dict.{Dict}
use multi_cloud_ai_orchestra.Domain.Cloud.{ResourceSpec}
use multi_cloud_ai_orchestra.Domain.Errors.{
  Error, deployment_not_found, deployment_lock, deployment_plan_missing,
}
use multi_cloud_ai_orchestra.Domain.Plan.{
  DeploymentIntent, ExecutionStep, ExecutionPlan, step_count, StepResult,
}
use multi_cloud_ai_orchestra.Domain.Deployment.{Deployment}
use multi_cloud_ai_orchestra.Domain.User.{
  Permission, deployment_create, deployment_approve, deployment_rollback, User,
}
use multi_cloud_ai_orchestra.Services.World.{World, Service}
use multi_cloud_ai_orchestra.Services.Deployments as Services
use multi_cloud_ai_orchestra.Api.Http.{
  HttpError, http_exception, uncaught, Handler, catching, require_permission,
}
use multi_cloud_ai_orchestra.Api.Schemas.{
  ResourceSpecRequest, CreateDeploymentRequest, StepResultResponse, ExecutionPlanResponse,
  Percentage, DeploymentResponse,
}
use multi_cloud_ai_orchestra.Base.{fstring}

-- `ResourceSpec(**r.model_dump())`
unfoldable pub spec_of : ResourceSpecRequest → ResourceSpec
spec_of r = record {
  resource_type = r.resource_type;
  provider = r.provider;
  region = r.region;
  name = r.name;
  properties = r.properties;
  tags = r.tags;
  dependencies = r.dependencies;
}

unfoldable pub intent_of : CreateDeploymentRequest → DeploymentIntent
intent_of r = record {
  description = r.description;
  target_providers = r.target_providers;
  target_regions = r.target_regions;
  resources = map spec_of r.resources;
  strategy = r.strategy;
  auto_approve = r.auto_approve;
  rollback_on_failure = r.rollback_on_failure;
  environment = r.environment;
  parameters = r.parameters;
}

unfoldable pub result_response : StepResult → StepResultResponse
result_response r = record {
  step_id = r.step_id;
  success = r.success;
  output = r.output;
  error_message = r.error_message;
  duration_seconds = r.duration_seconds;
  attempt_number = r.attempt_number;
}

-- Deployment.progress_percentage: without a plan, or with an empty one, the progress is 0.
unfoldable pub progress_of : Option ExecutionPlan → List StepResult → Percentage
progress_of none results = record { part = 0; whole = 0 }
progress_of (some plan) results = record { part = length results; whole = length plan.steps }

-- `str(e)` of the exceptions that the routes catch.
unfoldable pub not_found_detail : String → String
not_found_detail id = fstring ("Deployment " ∷ id ∷ " not found" ∷ [])

-- The `except` clauses of plan_deployment.
unfoldable pub plan_except : Error → HttpError
plan_except (deployment_not_found id) = http_exception 404 (not_found_detail id)
plan_except (deployment_lock id) =
    http_exception 409 (fstring ("Could not acquire planning lock for deployment " ∷ id ∷ []))
plan_except _ = uncaught

-- The `except` clause of approve_deployment, and of rollback_deployment.
unfoldable pub not_found_except : Error → HttpError
not_found_except (deployment_not_found id) = http_exception 404 (not_found_detail id)
not_found_except _ = uncaught

-- The `except` clauses of execute_deployment.
unfoldable pub execute_except : Error → HttpError
execute_except (deployment_not_found id) = http_exception 404 (not_found_detail id)
execute_except (deployment_plan_missing id) =
    http_exception 400 (fstring ("Deployment " ∷ id ∷ " has no execution plan" ∷ []))
execute_except _ = uncaught

-- create_deployment catches nothing.
abbrev pub no_except : Error → HttpError
no_except e = uncaught

-- What a route answers.
pub data Answer : Type 0 where
  response : DeploymentResponse → Answer
  tasks_created : (deployment_id : String) (count : ℕ) → Answer

-- `dump_step` is `ExecutionStep.model_dump`; `dump_spec` and `show` are as in the service.
module _ (dump_step : ExecutionStep → Json) (dump_spec : ResourceSpec → Json)
    (show : Dict Json → String) where
  unfoldable pub plan_response : Option ExecutionPlan → Option ExecutionPlanResponse
  plan_response none = none
  plan_response (some plan) = some (record {
    plan_id = plan.plan_id;
    step_count = step_count plan;
    estimated_total_duration_seconds = plan.estimated_total_duration_seconds;
    risk_assessment = plan.risk_assessment;
    reasoning = plan.reasoning;
    steps = map dump_step plan.steps;
  })

  unfoldable pub to_response : Deployment → DeploymentResponse
  to_response d = record {
    id = d.id;
    name = d.name;
    status = d.status;
    environment = d.intent.environment;
    strategy = d.intent.strategy;
    providers = d.intent.target_providers;
    plan = plan_response d.plan;
    step_results = map result_response d.step_results;
    progress_percentage = progress_of d.plan d.step_results;
    error_message = d.error_message;
    initiated_by = d.initiated_by;
    tenant_id = d.tenant_id;
    created_at = d.created_at;
    updated_at = d.updated_at;
  }

  unfoldable pub create_deployment : CreateDeploymentRequest → User → Handler World Answer
  create_deployment request current = do
    user ← require_permission (deployment_create ∷ []) current
    d ← catching no_except (Services.create_deployment (intent_of request) user.id user.tenant_id)
    pure (response (to_response d))

  unfoldable pub plan_deployment : String → User → Handler World Answer
  plan_deployment id current = do
    user ← require_permission (deployment_create ∷ []) current
    d ← catching plan_except (Services.plan_deployment id)
    pure (response (to_response d))

  unfoldable pub approve_deployment : String → String → User → Handler World Answer
  approve_deployment id approved_by current = do
    user ← require_permission (deployment_approve ∷ []) current
    d ← catching not_found_except (Services.approve_deployment id approved_by)
    pure (response (to_response d))

  unfoldable pub execute_deployment : String → User → Handler World Answer
  execute_deployment id current = do
    user ← require_permission (deployment_create ∷ []) current
    tasks ← catching execute_except (Services.execute_deployment dump_spec show id)
    pure (tasks_created id (length tasks))

  unfoldable pub rollback_deployment : String → User → Handler World Answer
  rollback_deployment id current = do
    user ← require_permission (deployment_rollback ∷ []) current
    d ← catching not_found_except (Services.rollback_deployment id)
    pure (response (to_response d))
