-- ===== src/Services/Deployments.antt =====
-- DeploymentDomainService of domain/services/deployment_service.py, over the in-memory repositories
-- and the rule-based planning engine. Its logging is left out.
pub mod Planning
pub mod Execution
pub mod Expected
pub mod Completion
pub mod Late
use multi_cloud_ai_orchestra.Base.{
  ℕ, ◌*◌, String, Bool, true, not, ◌&&◌, ◌||◌, List, [], ◌∷◌, Option, none, some, Json, Result, ok,
  raised, pure, gets, or_raise, raise, raise_if, modify, skip, try_finally, ◌>>=◌, ◌>>◌, map,
  fstring, any, all, if◌then◌else◌, texts,
}
use multi_cloud_ai_orchestra.Base.Dict.{Dict}
use multi_cloud_ai_orchestra.Domain.Status.{TaskStatus, is_task_status, succeeded}
use multi_cloud_ai_orchestra.Domain.Cloud.{CloudProviderType, provider_value, ResourceSpec}
use multi_cloud_ai_orchestra.Domain.Entity.{Ambient, Live, new_entity}
use multi_cloud_ai_orchestra.Domain.Errors.{
  Error, deployment_plan_missing, deployment_lock, index_error,
}
use multi_cloud_ai_orchestra.Domain.Plan.{
  DeploymentIntent, ExecutionStep, ExecutionPlan, StepResult,
}
use multi_cloud_ai_orchestra.Domain.Deployment
use multi_cloud_ai_orchestra.Domain.Deployment.{Deployment, new_deployment}
use multi_cloud_ai_orchestra.Domain.Task
use multi_cloud_ai_orchestra.Domain.Task.{Task}
use multi_cloud_ai_orchestra.Infrastructure.InMemory.{
  save_deployment, task_by_id, deployment_by_id, tasks_by_deployment,
}
use multi_cloud_ai_orchestra.Infrastructure.Planning.Generate.{generate_plan}
use multi_cloud_ai_orchestra.Services.World.{
  Payload, created, World, Service, publish, lock_acquire, lock_release, on_deployment, on_task,
  find_deployment, update_deployment, update_task, publish_events,
}

-- `target_providers[0]`
unfoldable pub first_provider : List CloudProviderType → Service CloudProviderType
first_provider [] = raise index_error
first_provider (p ∷ ps) = pure p

-- `Deployment(...)`
unfoldable pub make_deployment : String → DeploymentIntent → String → String → Service Deployment
make_deployment name intent initiated_by tenant_id w =
    let live = new_deployment name intent initiated_by tenant_id w.ambient in
    (ok live.self, record w { ambient = live.ambient })

unfoldable pub create_deployment : DeploymentIntent → String → String → Service Deployment
create_deployment intent initiated_by tenant_id = do
  provider ← first_provider intent.target_providers
  deployment ←
      make_deployment
        (fstring ("deploy-" ∷ intent.environment ∷ "-" ∷ provider_value provider ∷ [])) intent
        initiated_by tenant_id
  update_deployment deployment
  publish "deployment.created" (created deployment.id tenant_id)
  pure deployment

-- `self._planning_engine.generate_plan(intent)`
unfoldable pub engine_plan : DeploymentIntent → Service ExecutionPlan
engine_plan intent w =
    let (plan, a) = generate_plan intent w.ambient in (ok plan, record w { ambient = a })

unfoldable pub planning_key : String → String
planning_key id = fstring ("deployment:" ∷ id ∷ ":planning" ∷ [])

-- The `try` block of plan_deployment.
unfoldable pub plan_locked : String → Service Deployment
plan_locked id = do
  deployment ← find_deployment id
  planning ← on_deployment deployment Deployment.start_planning
  plan ← engine_plan planning.intent
  planned ← on_deployment planning (Deployment.set_plan plan)
  update_deployment planned
  publish_events planned
  pure (record planned { domain_events = [] })

unfoldable pub plan_deployment : String → Service Deployment
plan_deployment id = do
  acquired ← lock_acquire (planning_key id)
  raise_if (not acquired) (deployment_lock id)
  try_finally (plan_locked id) (lock_release (planning_key id))

unfoldable pub approve_deployment : String → String → Service Deployment
approve_deployment id approved_by = do
  deployment ← find_deployment id
  approved ← on_deployment deployment (Deployment.approve approved_by)
  update_deployment approved
  publish_events approved
  pure (record approved { domain_events = [] })

unfoldable pub rollback_deployment : String → Service Deployment
rollback_deployment id = do
  deployment ← find_deployment id
  rolling ← on_deployment deployment Deployment.start_rollback
  update_deployment rolling
  publish_events rolling
  pure (record rolling { domain_events = [] })

unfoldable pub all_complete : List Task → Bool
all_complete tasks = all (λ t. Task.is_terminal t || is_task_status t.status succeeded) tasks

unfoldable pub any_failed : List Task → Bool
any_failed tasks = any (λ t. is_task_status t.status TaskStatus.failed) tasks

-- The `if` and `elif` of handle_task_completion.
unfoldable pub settle : List Task → Deployment → Service Deployment
settle tasks d =
    if all_complete tasks && not (any_failed tasks)
    then on_deployment d Deployment.start_verification
    else if any_failed tasks && d.intent.rollback_on_failure
    then on_deployment d Deployment.start_rollback
    else pure d

-- `dump_spec` is pydantic's `ResourceSpec.model_dump`; `show` is `str` of a dictionary.
module _ (dump_spec : ResourceSpec → Json) (show : Dict Json → String) where
  -- `Task(...)` in execute_deployment.
  unfoldable pub task_for : String → ExecutionStep → Ambient → Live Task
  task_for deployment_id step a =
      let (entity, b) = new_entity a in
      record {
        self = record {
          entity = entity;
          deployment_id = deployment_id;
          step_id = step.step_id;
          name = step.name;
          description = step.description;
          status = TaskStatus.pending;
          provider = step.provider;
          terraform_action = step.terraform_action;
          worker_id = none;
          idempotency_key = step.idempotency_key;
          attempt_number = 1;
          max_attempts = 3;
          timeout_seconds = step.estimated_duration_seconds * 2;
          input_data =
              ("resource_spec", dump_spec step.resource_spec)
              ∷ ("dependencies", texts step.dependencies)
              ∷ [];
          output_data = [];
          error_message = "";
          started_at = none;
          completed_at = none;
        };
        ambient = b;
      }

  -- `task = Task(...)`, `task.enqueue()`, `save(task)`: the task is new, and is in no store before.
  unfoldable pub make_task : String → ExecutionStep → Service Task
  make_task deployment_id step w =
      let (r, live) = Task.enqueue (task_for deployment_id step w.ambient) in
      let drawn : World = record w { ambient = live.ambient } in
      elim r [
        | ok _ ↦ (update_task live.self >> pure live.self) drawn
        | raised e ↦ (raised e, drawn)
      ]

  -- The `for` loop of execute_deployment.
  unfoldable pub make_tasks : String → List ExecutionStep → Service (List Task)
  make_tasks deployment_id [] = pure []
  make_tasks deployment_id (step ∷ steps) = do
    task ← make_task deployment_id step
    tasks ← make_tasks deployment_id steps
    pure (task ∷ tasks)

  unfoldable pub execute_deployment : String → Service (List Task)
  execute_deployment id = do
    deployment ← find_deployment id
    plan ← or_raise deployment.plan (deployment_plan_missing id)
    executing ← on_deployment deployment Deployment.start_execution
    update_deployment executing
    tasks ← make_tasks id plan.steps
    publish_events executing
    pure tasks

  -- `str(output) if output else ""`
  unfoldable pub shown : Option (Dict Json) → String
  shown none = ""
  shown (some []) = ""
  shown (some (entry ∷ output)) = show (entry ∷ output)

  unfoldable pub result_of : Task → Bool → Option (Dict Json) → String → StepResult
  result_of task success output error = record {
    step_id = task.step_id;
    success = success;
    output = shown output;
    error_message = error;
    resource_ids = [];
    duration_seconds = 0;
    idempotency_key = task.idempotency_key;
    attempt_number = task.attempt_number;
  }

  -- handle_task_completion from the point where the deployment has been found.
  unfoldable pub record_completion :
      Task → Bool → Option (Dict Json) → String → Deployment → Service (Unit {0})
  record_completion task success output error deployment = do
    recorded ←
        on_deployment deployment
          (Deployment.record_step_result (result_of task success output error))
    all_tasks ← gets (λ w. tasks_by_deployment task.deployment_id w.tasks)
    settled ← settle all_tasks recorded
    update_deployment settled
    publish_events settled

  -- handle_task_completion from the point where the task has been found.
  unfoldable pub report_task : Bool → Option (Dict Json) → String → Task → Service (Unit {0})
  report_task success output error task = do
    reported ← on_task task (if success then Task.succeed output else Task.fail error)
    update_task reported
    found ← gets (λ w. deployment_by_id reported.deployment_id w.deployments)
    elim found [
      | none ↦ skip
      | some deployment ↦ record_completion reported success output error deployment
    ]

  unfoldable pub handle_task_completion :
      String → Bool → Option (Dict Json) → String → Service (Unit {0})
  handle_task_completion task_id success output error = do
    found ← gets (λ w. task_by_id task_id w.tasks)
    elim found [ none ↦ skip | some task ↦ report_task success output error task ]
