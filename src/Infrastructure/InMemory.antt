-- ===== src/Infrastructure/InMemory.antt =====
-- The repositories of infrastructure/persistence/repositories/in_memory.py. A module-level store
-- is a dictionary that each operation is given. An object is known by its id: the store holds it,
-- and what a method changes is changed in the store.
pub mod Acquire
pub mod Listing
pub mod Queue
use multi_cloud_ai_orchestra.Base.{
  ℕ, String, str_eq, Bool, false, List, [], ◌∷◌, Option, none, some, Method, Result, ok, raised,
  pure, select, take, drop, count_if, holds, if◌then◌else◌,
}
use multi_cloud_ai_orchestra.Base.Dict.{Dict, get, put, values}
use multi_cloud_ai_orchestra.Base.Sort.{sorted, sorted_reverse}
use multi_cloud_ai_orchestra.Domain.Status.{
  DeploymentStatus, is_status, TaskStatus, is_task_status, queued,
}
use multi_cloud_ai_orchestra.Domain.Entity.{Ambient, Live}
use multi_cloud_ai_orchestra.Domain.Errors.{Error}
use multi_cloud_ai_orchestra.Domain.Deployment.{Deployment}
use multi_cloud_ai_orchestra.Domain.Task
use multi_cloud_ai_orchestra.Domain.Task.{Task}
use multi_cloud_ai_orchestra.Domain.Drift.{DriftReport}
use multi_cloud_ai_orchestra.Domain.User.{User}
use multi_cloud_ai_orchestra.Domain.Ports.{TaskRepository}

-- InMemoryDeploymentRepository.save, and update, which has the same body.
unfoldable pub save_deployment : Deployment → Dict Deployment → Dict Deployment
save_deployment d store = put d.id d store

unfoldable pub deployment_by_id : String → Dict Deployment → Option Deployment
deployment_by_id = get

-- `[offset:offset + limit]` for natural numbers.
abbrev pub page {ℓ} : {A : Type ℓ} → ℕ → ℕ → List A → List A
page limit offset items = take limit (drop offset items)

abbrev pub deployment_created_at : Deployment → ℕ
deployment_created_at d = d.created_at

unfoldable pub deployments_by_status : DeploymentStatus → ℕ → ℕ → Dict Deployment → List Deployment
deployments_by_status status limit offset store =
    page limit offset (
      sorted_reverse deployment_created_at (select (λ d. is_status d.status status) (values store)))

unfoldable pub deployments_by_tenant : String → ℕ → ℕ → Dict Deployment → List Deployment
deployments_by_tenant tenant limit offset store =
    page limit offset (
      sorted_reverse deployment_created_at (select (λ d. str_eq d.tenant_id tenant) (values store)))

unfoldable pub count_by_status : DeploymentStatus → Dict Deployment → ℕ
count_by_status status store = count_if (λ d. is_status d.status status) (values store)

-- InMemoryTaskRepository.save, and update, which has the same body.
unfoldable pub save_task : Task → Dict Task → Dict Task
save_task t store = put t.id t store

unfoldable pub task_by_id : String → Dict Task → Option Task
task_by_id = get

unfoldable pub tasks_by_deployment : String → Dict Task → List Task
tasks_by_deployment deployment_id store =
    select (λ t. str_eq t.deployment_id deployment_id) (values store)

abbrev pub task_created_at : Task → ℕ
task_created_at t = t.created_at

unfoldable pub tasks_by_status : TaskStatus → ℕ → Dict Task → List Task
tasks_by_status status limit store =
    take limit
      (sorted task_created_at (select (λ t. is_task_status t.status status) (values store)))

-- `t.worker_id == worker_id`
abbrev pub is_worker : String → Option String → Bool
is_worker worker none = false
is_worker worker (some w) = str_eq w worker

unfoldable pub tasks_by_worker : String → Dict Task → List Task
tasks_by_worker worker store = select (λ t. is_worker worker t.worker_id) (values store)

abbrev pub is_queued : Task → Bool
is_queued t = is_task_status t.status queued

-- The first task that the loop of acquire_next does not pass over.
unfoldable pub first_queued : List Task → Option Task
first_queued [] = none
first_queued (t ∷ ts) = if is_queued t then some t else first_queued ts

-- The task store and the outside world.
pub record TaskStore : Type 0 where
  pub tasks : Dict Task
  pub ambient : Ambient

-- `task.acquire(worker_id)`, `self._store[task.id] = task`, `return task`
unfoldable pub acquire_in : String → Task → Method Error TaskStore (Option Task)
acquire_in worker t s =
    let (r, live) = Task.acquire worker (record { self = t; ambient = s.ambient }) in
    let after : TaskStore = record {
      tasks = save_task live.self s.tasks;
      ambient = live.ambient;
    } in
    elim r [ ok _ ↦ (ok (some live.self), after) | raised e ↦ (raised e, after) ]

unfoldable pub acquire_next : String → Method Error TaskStore (Option Task)
acquire_next worker s = elim (first_queued (sorted task_created_at (values s.tasks))) [
  | none ↦ (ok none, s)
  | some t ↦ acquire_in worker t s
]

unfoldable pub save_report : DriftReport → Dict DriftReport → Dict DriftReport
save_report r store = put r.id r store

unfoldable pub report_by_id : String → Dict DriftReport → Option DriftReport
report_by_id = get

abbrev pub report_created_at : DriftReport → ℕ
report_created_at r = r.created_at

unfoldable pub reports_by_deployment : String → ℕ → Dict DriftReport → List DriftReport
reports_by_deployment deployment_id limit store = take limit (
    sorted_reverse report_created_at
      (select (λ r. str_eq r.deployment_id deployment_id) (values store)))

-- `reports[0] if reports else None`
abbrev pub first {ℓ} : {A : Type ℓ} → List A → Option A
first [] = none
first (x ∷ xs) = some x

unfoldable pub latest_report : String → Dict DriftReport → Option DriftReport
unfolding reports_by_deployment
latest_report deployment_id store = first (reports_by_deployment deployment_id 1 store)

-- InMemoryUserRepository.save, and update, which has the same body.
unfoldable pub save_user : User → Dict User → Dict User
save_user u store = put u.id u store

unfoldable pub user_by_id : String → Dict User → Option User
user_by_id = get

-- The loop of get_by_username.
unfoldable pub find_username : String → List User → Option User
find_username name [] = none
find_username name (u ∷ us) = if str_eq u.username name then some u else find_username name us

unfoldable pub user_by_username : String → Dict User → Option User
unfolding find_username
user_by_username name store = find_username name (values store)

unfoldable pub users_by_tenant : String → Dict User → List User
users_by_tenant tenant store = select (λ u. str_eq u.tenant_id tenant) (values store)

-- InMemoryTaskRepository as the port that it fills, over the store and the outside world.
abbrev pub task_repository : TaskRepository Error TaskStore
task_repository = record {
  save = λ t s. (ok t, record s { tasks = save_task t s.tasks });
  get_by_id = λ id s. (ok (task_by_id id s.tasks), s);
  list_by_deployment = λ id s. (ok (tasks_by_deployment id s.tasks), s);
  list_by_status = λ status limit s. (ok (tasks_by_status status limit s.tasks), s);
  update = λ t s. (ok t, record s { tasks = save_task t s.tasks });
  acquire_next = acquire_next;
  list_by_worker = λ worker s. (ok (tasks_by_worker worker s.tasks), s);
}
