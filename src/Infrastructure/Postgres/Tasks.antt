-- ===== src/Infrastructure/Postgres/Tasks.antt =====
-- PostgresTaskRepository of infrastructure/persistence/repositories/task_repo.py.
pub mod Saved
pub mod Claimed
pub mod Queue
use multi_cloud_ai_orchestra.Base.{
  ℕ, String, str_eq, Bool, true, false, List, [], ◌∷◌, Option, none, some, Method, pure, raise,
  or_raise, ◌>>=◌, ◌>>◌, Json, leb,
}
use multi_cloud_ai_orchestra.Base.Dict.{Dict}
use multi_cloud_ai_orchestra.Domain.Status.{TaskStatus, queued, acquired}
use multi_cloud_ai_orchestra.Domain.Cloud.{provider_value}
use multi_cloud_ai_orchestra.Domain.Enums.{task_status_value, task_status_of, provider_of}
use multi_cloud_ai_orchestra.Domain.Task.{Task}
use multi_cloud_ai_orchestra.Domain.Ports.{TaskRepository}
use multi_cloud_ai_orchestra.Infrastructure.Postgres.{
  RepositoryError, value_error, attribute_error, Query, select_where, Session, each, if_found,
}
use multi_cloud_ai_orchestra.Infrastructure.Postgres.Columns.{or_empty_text, or_empty_dict, time}
use multi_cloud_ai_orchestra.Infrastructure.Postgres.Models.{TaskOrm, Moment, datetime, iso_text}

-- _to_orm
unfoldable pub task_to_orm : Task → TaskOrm
unfolding task_status_value provider_value
task_to_orm task = record {
  id = task.id;
  deployment_id = task.deployment_id;
  step_id = task.step_id;
  name = task.name;
  description = some task.description;
  status = task_status_value task.status;
  provider = provider_value task.provider;
  terraform_action = task.terraform_action;
  worker_id = task.worker_id;
  idempotency_key = task.idempotency_key;
  attempt_number = task.attempt_number;
  max_attempts = task.max_attempts;
  timeout_seconds = task.timeout_seconds;
  input_data = some task.input_data;
  output_data = some task.output_data;
  error_message = some task.error_message;
  started_at = none;
  completed_at = none;
  version = task.version;
  created_at = none;
  updated_at = none;
}

-- `None if t is None else t.isoformat()`, as the time that the text shows
abbrev pub isoformat : {S : Type 0} → Option Moment → Method RepositoryError S (Option ℕ)
isoformat none = pure none
isoformat (some (datetime t)) = pure (some t)
isoformat (some (iso_text t)) = raise attribute_error

-- `orm_data` of update: the times are the ISO texts that the task holds.
abbrev pub as_text : Option ℕ → Option Moment
as_text none = none
as_text (some t) = some (iso_text t)

unfoldable pub task_values : Task → TaskOrm → TaskOrm
task_values task orm = record orm {
  status = task_status_value task.status;
  worker_id = task.worker_id;
  attempt_number = task.attempt_number;
  output_data = some task.output_data;
  error_message = some task.error_message;
  started_at = as_text task.started_at;
  completed_at = as_text task.completed_at;
  version = task.version;
}

-- `TaskORM.created_at.asc()`
abbrev pub created_asc : TaskOrm → TaskOrm → Bool
created_asc r s = leb (time r.created_at) (time s.created_at)

-- The select of acquire_next.
unfoldable pub next_queued : Query TaskOrm
unfolding task_status_value
next_queued = record {
  matches = λ r. str_eq r.status (task_status_value queued);
  order_by = some created_asc;
  limit = some 1;
  offset = 0;
  skip_locked = true;
}

-- The attributes that acquire_next assigns.
unfoldable pub claimed : String → TaskOrm → TaskOrm
unfolding task_status_value
claimed worker_id orm = record orm {
  status = task_status_value acquired;
  worker_id = some worker_id;
}

module _ {S : Type 0} where
  -- _to_domain
  unfoldable pub task_to_domain : TaskOrm → Method RepositoryError S Task
  task_to_domain orm = do
    status ← or_raise (task_status_of orm.status) value_error
    provider ← or_raise (provider_of orm.provider) value_error
    started_at ← isoformat orm.started_at
    completed_at ← isoformat orm.completed_at
    created_at ← or_raise orm.created_at value_error
    updated_at ← or_raise orm.updated_at value_error
    pure (record {
      entity = record {
        id = orm.id;
        created_at = created_at;
        updated_at = updated_at;
        version = orm.version;
      };
      deployment_id = orm.deployment_id;
      step_id = orm.step_id;
      name = orm.name;
      description = or_empty_text orm.description;
      status = status;
      provider = provider;
      terraform_action = orm.terraform_action;
      worker_id = orm.worker_id;
      idempotency_key = orm.idempotency_key;
      attempt_number = orm.attempt_number;
      max_attempts = orm.max_attempts;
      timeout_seconds = orm.timeout_seconds;
      input_data = or_empty_dict orm.input_data;
      output_data = or_empty_dict orm.output_data;
      error_message = or_empty_text orm.error_message;
      started_at = started_at;
      completed_at = completed_at;
    })

module _ {S : Type 0} (session : Session S TaskOrm) where
  unfoldable pub save_task : Task → Method RepositoryError S Task
  save_task task = do session.add (task_to_orm task); pure task

  unfoldable pub task_by_id : String → Method RepositoryError S (Option Task)
  task_by_id task_id = do
    orm ← session.scalar_one_or_none (select_where (λ r. str_eq r.id task_id))
    if_found task_to_domain orm

  unfoldable pub tasks_by_deployment : String → Method RepositoryError S (List Task)
  tasks_by_deployment deployment_id = do
    rows ← session.scalars (record (select_where (λ r. str_eq r.deployment_id deployment_id)) {
      order_by = some created_asc;
    })
    each task_to_domain rows

  unfoldable pub tasks_by_status : TaskStatus → ℕ → Method RepositoryError S (List Task)
  tasks_by_status status limit = do
    rows ←
        session.scalars (record (select_where (λ r. str_eq r.status (task_status_value status))) {
          order_by = some created_asc;
          limit = some limit;
        })
    each task_to_domain rows

  unfoldable pub update_task : Task → Method RepositoryError S Task
  update_task task = do session.update (λ r. str_eq r.id task.id) (task_values task); pure task

  -- The part of acquire_next after its select.
  unfoldable pub claim : String → Option TaskOrm → Method RepositoryError S (Option Task)
  claim worker_id none = pure none
  claim worker_id (some orm) = do
    session.flush (claimed worker_id orm)
    row ← session.attributes (claimed worker_id orm)
    task ← task_to_domain row
    pure (some task)

  unfoldable pub acquire_next : String → Method RepositoryError S (Option Task)
  acquire_next worker_id = do orm ← session.scalar_one_or_none next_queued; claim worker_id orm

  -- `TaskORM.worker_id == worker_id`, which NULL does not satisfy
  abbrev pub has_worker : String → Option String → Bool
  has_worker worker_id none = false
  has_worker worker_id (some w) = str_eq w worker_id

  unfoldable pub tasks_by_worker : String → Method RepositoryError S (List Task)
  tasks_by_worker worker_id = do
    rows ← session.scalars (record (select_where (λ r. has_worker worker_id r.worker_id)) {
      order_by = some created_asc;
    })
    each task_to_domain rows

  -- The port that the class fills.
  abbrev pub task_repository : TaskRepository RepositoryError S
  task_repository = record {
    save = save_task;
    get_by_id = task_by_id;
    list_by_deployment = tasks_by_deployment;
    list_by_status = tasks_by_status;
    update = update_task;
    acquire_next = acquire_next;
    list_by_worker = tasks_by_worker;
  }
