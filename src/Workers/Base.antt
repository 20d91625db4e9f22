-- ===== src/Workers/Base.antt =====
-- WorkerAgent of workers/base.py, over the in-memory task repository. The worker's `execute`, with
-- the time it takes, is a parameter; it is taken to leave the task as it is. Logging is left out, and
-- so is the event loop: a poll returns the task whose lifecycle it has scheduled.
pub mod Lifecycle
pub mod Drain
use multi_cloud_ai_orchestra.Base.{
  ℕ, zero, suc, String, Bool, List, [], ◌∷◌, ◌++◌, Option, none, some, Json, Method, Result, ok,
  raised, pure, gets, modify, skip, try_finally, ◌>>=◌, ◌>>◌, length, leb, mem_text, select, not,
  str_eq, if◌then◌else◌, fstring,
}
use multi_cloud_ai_orchestra.Base.Dict.{Dict, put}
use multi_cloud_ai_orchestra.Domain.Status.{
  TaskStatus, queued, acquired, running, succeeded, retrying,
}
use multi_cloud_ai_orchestra.Domain.Enums.{task_status_value}
use multi_cloud_ai_orchestra.Domain.Entity.{Ambient, Live}
use multi_cloud_ai_orchestra.Domain.Errors.{Error}
use multi_cloud_ai_orchestra.Domain.Task
use multi_cloud_ai_orchestra.Domain.Task.{Task}
use multi_cloud_ai_orchestra.Services.World.{returned}
use multi_cloud_ai_orchestra.Infrastructure.InMemory.{save_task, TaskStore, acquire_next}

-- How `asyncio.wait_for(self.execute(task), timeout=...)` ends.
pub data Outcome : Type 0 where
  result : Dict Json → Outcome
  timed_out : Outcome
  exception : (message : String) → Outcome

-- The payload of the event that ends a lifecycle.
pub record TaskEnded : Type 0 where
  pub task_id : String
  pub deployment_id : String
  pub worker_id : String
  pub status : TaskStatus

-- A worker, with a repository and an event publisher.
pub record Worker : Type 0 where
  pub worker_id : String
  pub max_concurrent : ℕ
  pub active_tasks : List String
  pub tasks : Dict Task
  pub published : List (String × TaskEnded)
  pub ambient : Ambient

abbrev pub Work : Type 0 → Type 0
Work A = Method Error Worker A

unfoldable pub active_task_count : Worker → ℕ
active_task_count w = length w.active_tasks

-- `self._active_tasks.add(task_id)`, on a set
unfoldable pub add_active : String → Worker → Worker
add_active id w = record w {
  active_tasks = if mem_text id w.active_tasks then w.active_tasks else w.active_tasks ++ id ∷ [];
}

-- `self._active_tasks.discard(task_id)`
unfoldable pub discard_active : String → Worker → Worker
discard_active id w = record w { active_tasks = select (λ i. not (str_eq i id)) w.active_tasks }

-- A method of a task that the store holds under its id.
unfoldable pub on_task : Task → Task.Action → Work Task
on_task t method w =
    let (r, live) = method (record { self = t; ambient = w.ambient }) in
    returned live.self
      (r, record w { tasks = put live.self.id live.self w.tasks; ambient = live.ambient })

-- `self._task_repo.update(task)`
unfoldable pub update : Task → Work (Unit {0})
update t = modify (λ w. record w { tasks = save_task t w.tasks })

-- The `try` around `wait_for`, from the outcome: succeed, timeout or fail. In a task that is RUNNING
-- none of the three raises, so that the `except` clauses see the exceptions of `execute` alone.
unfoldable pub conclude : Outcome → Task.Action
conclude (result output) = Task.succeed (some output)
conclude timed_out = Task.timeout
conclude (exception message) = Task.fail message

unfoldable pub publish_end : Task → Work (Unit {0})
publish_end t = modify (λ w. record w {
  published =
      w.published
      ++ (
        fstring ("task." ∷ task_status_value t.status ∷ []),
        record {
          task_id = t.id;
          deployment_id = t.deployment_id;
          worker_id = w.worker_id;
          status = t.status;
        },
      )
        ∷ [];
})

module _ (execute : Task → Outcome) where
  -- The `try` block of _execute_task_lifecycle.
  unfoldable pub lifecycle : Task → Work (Unit {0})
  lifecycle task = do
    started ← on_task task Task.start
    update started
    ended ← on_task started (conclude (execute started))
    update ended
    publish_end ended

  unfoldable pub execute_task_lifecycle : Task → Work (Unit {0})
  execute_task_lifecycle task = do
    modify (add_active task.id)
    try_finally (lifecycle task) (discard_active task.id)

-- `self._task_repo.acquire_next(self._worker_id)`
unfoldable pub acquire_task : Work (Option Task)
acquire_task w =
    let (r, s) = acquire_next w.worker_id (record { tasks = w.tasks; ambient = w.ambient }) in
    (r, record w { tasks = s.tasks; ambient = s.ambient })

-- WorkerAgent._poll_for_tasks
unfoldable pub poll_for_tasks : Work (Option Task)
poll_for_tasks w =
    (if leb w.max_concurrent (active_task_count w) then pure none else acquire_task) w

module _ (execute : Task → Outcome) where
  -- What follows a poll in `start`: the lifecycle of the task that was got, which runs to its end
  -- while the loop sleeps; an exception of the poll is only logged.
  unfoldable pub after_poll : Result Error (Option Task) → Worker → Worker
  after_poll (ok (some task)) w = (execute_task_lifecycle execute task w).1
  after_poll (ok none) w = w
  after_poll (raised e) w = w

  -- One round of the loop of WorkerAgent.start.
  unfoldable pub start_round : Worker → Worker
  unfolding after_poll
  start_round w = let (r, w') = poll_for_tasks w in after_poll r w'

  -- The loop of `start`, stopped after so many rounds.
  unfoldable pub start_rounds : ℕ → Worker → Worker
  unfolding start_round
  start_rounds zero w = w
  start_rounds (suc n) w = start_rounds n (start_round w)
