-- ===== src/Workers/Base/Drain.antt =====
-- The loop of a worker, and the queue.
use multi_cloud_ai_orchestra.Base.{
  ◌≡◌, ℕ, ◌+◌, ◌-◌, ◌≤◌, Bool, true, false, [], Option, none, some, count_if, min, if◌then◌else◌,
}
use multi_cloud_ai_orchestra.Base.Dict.{Dict, put, values}
use multi_cloud_ai_orchestra.Base.Keyed.{IsKeyed}
use multi_cloud_ai_orchestra.Domain.Status.{TaskStatus, acquired}
use multi_cloud_ai_orchestra.Domain.Task
use multi_cloud_ai_orchestra.Domain.Task.{Task}
use multi_cloud_ai_orchestra.Infrastructure.InMemory.{TaskStore, is_queued, acquire_next}
use multi_cloud_ai_orchestra.Infrastructure.InMemory.Acquire.{task_id}
use multi_cloud_ai_orchestra.Workers.Base.{Outcome, timed_out, Worker, conclude}

-- How many tasks of a store wait.
abbrev pub waiting : Dict Task → ℕ
waiting tasks = count_if is_queued (values tasks)

-- The task has run to its end: SUCCEEDED, FAILED or TIMED_OUT.
abbrev pub is_ended : Task → Bool
is_ended t = elim t.status [
  | TaskStatus.succeeded ↦ true
  | TaskStatus.failed ↦ true
  | TaskStatus.timed_out ↦ true
  | _ ↦ false
]

-- How many tasks of a store have run to their end.
abbrev pub ended : Dict Task → ℕ
ended tasks = count_if is_ended (values tasks)

abbrev weight : (Task → Bool) → Option Task → ℕ
weight p none = 0
weight p (some t) = if p t then 1 else 0

-- What the lifecycle of an acquired task leaves in a worker that has no other task.
record IsDone (t : Task) (w v : Worker) : Type 0 where
  pub final : Task
  pub same_id : final.id ≡ t.id
  pub not_queued : is_queued final ≡ false
  pub over : is_ended final ≡ true
  pub stored : v.tasks ≡ put t.id final w.tasks
  pub idle : v.active_tasks ≡ []
  pub same_limit : v.max_concurrent ≡ w.max_concurrent

-- The task at the end of its lifecycle.
abbrev concluded : Outcome → Task → Worker → Task
concluded outcome t w =
    let acquired_task = record t { status = acquired } in
    let (_, live) = Task.start (record { self = acquired_task; ambient = w.ambient }) in
    (conclude outcome live).1.self

-- A worker that has no task in hand and may take one, with a store that holds tasks under their ids.
pub record IsReady (w : Worker) : Type 0 where
  pub keyed : IsKeyed task_id w.tasks
  pub idle : w.active_tasks ≡ []
  pub room : 1 ≤ w.max_concurrent

abbrev store_of : Worker → TaskStore
store_of w = record { tasks = w.tasks; ambient = w.ambient }

-- The worker after it has taken a task or found none.
abbrev polled : Worker → Worker
polled w =
    let (_, s) = acquire_next w.worker_id (store_of w) in
    record w { tasks = s.tasks; ambient = s.ambient }

-- One round takes one of the waiting tasks to its end.
record IsRound (w v : Worker) : Type 0 where
  pub ready : IsReady v
  pub fewer : waiting v.tasks ≡ waiting w.tasks - 1
  pub one_more : ended v.tasks ≡ ended w.tasks + min 1 (waiting w.tasks)
