-- ===== src/Services/Deployments/Execution.antt =====
-- execute_deployment: the tasks that come of a plan.
use multi_cloud_ai_orchestra.Base.{
  ap, ◌∙◌, ◌≡◌, refl, ℕ, ◌*◌, String, List, [], ◌∷◌, Option, none, some, ok, raised, Result, map,
  Json, pure, and_then, ◌>>◌, arith,
}
use multi_cloud_ai_orchestra.Base.Dict.{Dict, put}
use multi_cloud_ai_orchestra.Domain.Status.{
  approved, executing, valid_transitions, DeploymentStatus-discrete, TaskStatus, queued,
  task_valid_transitions, TaskStatus-discrete,
}
use multi_cloud_ai_orchestra.Domain.Entity.{new_entity}
use multi_cloud_ai_orchestra.Domain.Cloud.{ResourceSpec, CloudProviderType}
use multi_cloud_ai_orchestra.Domain.Errors.{Error}
use multi_cloud_ai_orchestra.Domain.Plan.{ExecutionStep, ExecutionPlan}
use multi_cloud_ai_orchestra.Domain.Deployment
use multi_cloud_ai_orchestra.Domain.Deployment.{Deployment}
use multi_cloud_ai_orchestra.Domain.Task
use multi_cloud_ai_orchestra.Domain.Task.{Task}
use multi_cloud_ai_orchestra.Infrastructure.InMemory.{deployment_by_id, save_deployment}
use multi_cloud_ai_orchestra.Services.World.{
  World, status_in, status_in-put, status_of, clear_events, clear_events-keeps, publish_all-ok,
  publish_all-deployments, publish_events, on_deployment, find_deployment, update_deployment,
  update_task,
}
use multi_cloud_ai_orchestra.Services.Deployments.{
  execute_deployment, make_tasks, make_task, task_for,
}

-- What a worker needs to know of a task.
pub record Order : Type 0 where
  pub deployment_id : String
  pub step_id : String
  pub provider : CloudProviderType
  pub terraform_action : String
  pub status : TaskStatus
  pub worker_id : Option String
  pub idempotency_key : String
  pub attempt_number : ℕ
  pub timeout_seconds : ℕ

abbrev pub order_of : Task → Order
order_of t = record {
  deployment_id = t.deployment_id;
  step_id = t.step_id;
  provider = t.provider;
  terraform_action = t.terraform_action;
  status = t.status;
  worker_id = t.worker_id;
  idempotency_key = t.idempotency_key;
  attempt_number = t.attempt_number;
  timeout_seconds = t.timeout_seconds;
}

-- The order that a step of a plan stands for.
abbrev pub order_for : String → ExecutionStep → Order
order_for id step = record {
  deployment_id = id;
  step_id = step.step_id;
  provider = step.provider;
  terraform_action = step.terraform_action;
  status = queued;
  worker_id = none;
  idempotency_key = step.idempotency_key;
  attempt_number = 1;
  timeout_seconds = step.estimated_duration_seconds * 2;
}

abbrev pub orders : Result Error (List Task) → Result Error (List Order)
orders (ok tasks) = ok (map order_of tasks)
orders (raised e) = raised e

-- One more task before the others.
and_then-orders :
    (task : Task) (r : Result Error (List Task)) (w : World) (rest : List Order)
    → orders r ≡ ok rest
    → orders (and_then {B = List Task} r (λ tasks. pure (task ∷ tasks)) w).0
      ≡ ok (order_of task ∷ rest)
and_then-orders task (ok tasks) w rest h = ground arith
and_then-orders task (raised e) w rest h = ground arith

make_tasks-orders :
    (dump_spec : ResourceSpec → Json) (show : Dict Json → String) (id : String)
    (steps : List ExecutionStep) (w : World)
    → orders (make_tasks dump_spec show id steps w).0 ≡ ok (map (order_for id) steps)
unfolding make_tasks make_task task_for new_entity Task.methods task_valid_transitions update_task
    TaskStatus-discrete
make_tasks-orders dump_spec show id [] w = refl
make_tasks-orders dump_spec show id (step ∷ steps) w =
    and_then-orders _ _ _ _ (make_tasks-orders dump_spec show id steps _)

and_then-deployments :
    (r : Result Error (List Task)) (task : Task) (w : World)
    → (and_then {B = List Task} r (λ tasks. pure (task ∷ tasks)) w).1.deployments ≡ w.deployments
and_then-deployments (ok tasks) task w = refl
and_then-deployments (raised e) task w = refl

make_tasks-deployments :
    (dump_spec : ResourceSpec → Json) (show : Dict Json → String) (id : String)
    (steps : List ExecutionStep) (w : World)
    → (make_tasks dump_spec show id steps w).1.deployments ≡ w.deployments
unfolding make_tasks make_task task_for new_entity Task.methods task_valid_transitions update_task
    TaskStatus-discrete
make_tasks-deployments dump_spec show id [] w = refl
make_tasks-deployments dump_spec show id (step ∷ steps) w =
    and_then-deployments _ _ _ ∙ make_tasks-deployments dump_spec show id steps _

-- The end of execute_deployment, once the tasks are made.
publish_events-orders :
    (e : Deployment) (r : Result Error (List Task)) (w : World) (rest : List Order)
    (store : Dict Deployment)
    → orders r ≡ ok rest
    → w.deployments ≡ put e.id e store
    → let (q, v) = and_then {B = List Task} r (λ tasks. publish_events e >> pure tasks) w in
      (orders q ≡ ok rest) × (status_in e.id v.deployments ≡ some e.status)
unfolding publish_events
publish_events-orders e (ok tasks) w rest store h stored =
    let v : World = record w { deployments = clear_events e.id w.deployments } in
    rw (publish_all-ok e.domain_events v) (
      h,
      rw (publish_all-deployments e.domain_events v) (
          clear_events-keeps status_of (λ d. refl) e.id e.id w.deployments
          ∙ ap (status_in e.id) stored
          ∙ status_in-put e store),
    )
publish_events-orders e (raised x) w rest store h stored = ground arith

-- Where a deployment has been approved and has a plan, execute_deployment returns one task for each
-- step of the plan, in the order of the plan: it is queued, unassigned, on its first attempt, with
-- twice the estimated time of the step, and with the provider, action and idempotency key of the
-- step. The deployment is EXECUTING.
pub execute_deployment-tasks :
    (dump_spec : ResourceSpec → Json) (show : Dict Json → String) (id : String) (d : Deployment)
    (plan : ExecutionPlan) (w : World)
    → deployment_by_id id w.deployments ≡ some (record d { status = approved; plan = some plan })
    → let (r, v) = execute_deployment dump_spec show id w in
      (orders r ≡ ok (map (order_for id) plan.steps))
      × (status_in d.id v.deployments ≡ some executing)
unfolding execute_deployment find_deployment on_deployment Deployment.methods valid_transitions
    DeploymentStatus-discrete update_deployment save_deployment
execute_deployment-tasks dump_spec show id d plan w h = rw h (
    publish_events-orders _ _ _ _ _ (make_tasks-orders dump_spec show id plan.steps _)
      (make_tasks-deployments dump_spec show id plan.steps _))
