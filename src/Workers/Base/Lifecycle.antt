-- ===== src/Workers/Base/Lifecycle.antt =====
-- Lifecycles: what the execution of a task leaves behind.
use multi_cloud_ai_orchestra.Base.{
  ◌≡◌, refl, String, str_eq, false, not, List, [], ◌∷◌, ◌++◌, some, ok, raised, mem_text, select,
  any, fstring, arith, eq_iff,
}
use multi_cloud_ai_orchestra.Base.Dict.{Dict, get-put}
use multi_cloud_ai_orchestra.Domain.Status.{
  TaskStatus, TaskStatus-discrete, acquired, running, succeeded, is_task_status,
  task_valid_transitions,
}
use multi_cloud_ai_orchestra.Domain.Errors.{invalid_task_transition}
use multi_cloud_ai_orchestra.Domain.Task
use multi_cloud_ai_orchestra.Domain.Task.{Task}
use multi_cloud_ai_orchestra.Infrastructure.InMemory.{task_by_id, save_task}
use multi_cloud_ai_orchestra.Services.World.{task_status_of}
use multi_cloud_ai_orchestra.Domain.Enums.{task_status_value}
use multi_cloud_ai_orchestra.Workers.Base.{
  Outcome, result, timed_out, exception, Worker, add_active, discard_active, on_task, update,
  conclude, publish_end, lifecycle, execute_task_lifecycle,
}

-- The state that an outcome stands for.
abbrev pub status_for : Outcome → TaskStatus
status_for (result output) = succeeded
status_for timed_out = TaskStatus.timed_out
status_for (exception message) = TaskStatus.failed

-- The task as `execute` is given it.
abbrev pub started : Task → Worker → Task
started t w = (Task.start (record { self = t; ambient = w.ambient })).1.self

select-mem_text :
    (id : String) (ids : List String) → mem_text id (select (λ i. not (str_eq i id)) ids) ≡ false
select-mem_text id [] = refl
select-mem_text id (i ∷ ids) = ground (arith, select-mem_text id ids)

task_status_of-save_task :
    (t : Task) (store : Dict Task)
    → task_status_of (task_by_id t.id (save_task t store)) ≡ some t.status
unfolding task_by_id save_task
task_status_of-save_task t store = rw (get-put t.id t.id t store, (eq_iff t.id t.id).1 refl) refl

execute_task_lifecycle-outcome :
    (execute : Task → Outcome) (outcome : Outcome) (t : Task) (w : Worker)
    → execute (started (record t { status = acquired }) w) ≡ outcome
    → let (r, v) = execute_task_lifecycle execute (record t { status = acquired }) w in
      (r ≡ ok tt)
      × (task_status_of (task_by_id t.id v.tasks) ≡ some (status_for outcome))
      × (v.published
          ≡ w.published
            ++ (
              fstring ("task." ∷ task_status_value (status_for outcome) ∷ []),
              record {
                task_id = t.id;
                deployment_id = t.deployment_id;
                worker_id = w.worker_id;
                status = status_for outcome;
              },
            )
              ∷ [])
      × (mem_text t.id v.active_tasks ≡ false)
unfolding execute_task_lifecycle lifecycle add_active discard_active on_task update conclude
    publish_end Task.methods task_valid_transitions TaskStatus-discrete
execute_task_lifecycle-outcome execute (result output) t w h =
    rw h (refl, task_status_of-save_task _ _, refl, select-mem_text t.id _)
execute_task_lifecycle-outcome execute timed_out t w h =
    rw h (refl, task_status_of-save_task _ _, refl, select-mem_text t.id _)
execute_task_lifecycle-outcome execute (exception message) t w h =
    rw h (refl, task_status_of-save_task _ _, refl, select-mem_text t.id _)

-- The lifecycle of an ACQUIRED task returns, whatever `execute` does: the stored task is SUCCEEDED,
-- TIMED_OUT or FAILED as the execution returned, timed out or raised, one event with this state and
-- the name of the worker is published, and the task is not among the worker's active tasks.
pub execute_task_lifecycle-ends :
    (execute : Task → Outcome) (t : Task) (w : Worker)
    → let acquired_task = record t { status = acquired } in
      let status = status_for (execute (started acquired_task w)) in
      let (r, v) = execute_task_lifecycle execute acquired_task w in
      (r ≡ ok tt)
      × (task_status_of (task_by_id t.id v.tasks) ≡ some status)
      × (v.published
          ≡ w.published
            ++ (
              fstring ("task." ∷ task_status_value status ∷ []),
              record {
                task_id = t.id;
                deployment_id = t.deployment_id;
                worker_id = w.worker_id;
                status = status;
              },
            )
              ∷ [])
      × (mem_text t.id v.active_tasks ≡ false)
execute_task_lifecycle-ends execute t w = execute_task_lifecycle-outcome execute _ t w refl

-- The lifecycle of a task that cannot be started raises InvalidTaskTransitionError without an
-- execution: nothing is published, and the task is not among the worker's active tasks.
pub execute_task_lifecycle-refused :
    (execute : Task → Outcome) (t : Task) (w : Worker)
    → any (is_task_status running) (task_valid_transitions t.status) ≡ false
    → let (r, v) = execute_task_lifecycle execute t w in
      (r ≡ raised (invalid_task_transition t.status running))
      × (v.published ≡ w.published)
      × (mem_text t.id v.active_tasks ≡ false)
unfolding execute_task_lifecycle lifecycle add_active discard_active on_task Task.methods
execute_task_lifecycle-refused execute t w h = rw h (refl, refl, select-mem_text t.id _)
