-- ===== src/Services/Deployments/Expected.antt =====
-- What the reports of the workers should make of a deployment, by the states of its tasks alone.
use multi_cloud_ai_orchestra.Base.{
  ◌≡◌, refl, Bool, true, false, not, ◌&&◌, List, [], ◌∷◌, any, all, if◌then◌else◌, arith,
}
use multi_cloud_ai_orchestra.Domain.Status.{
  DeploymentStatus, executing, verifying, rolling_back, TaskStatus, TaskStatus-discrete, succeeded,
  is_task_status,
}
use multi_cloud_ai_orchestra.Domain.Task
use multi_cloud_ai_orchestra.Domain.Task.{Task}
use multi_cloud_ai_orchestra.Services.Deployments.{all_complete, any_failed}

-- Nothing is left to do for the task.
abbrev pub is_finished : TaskStatus → Bool
is_finished succeeded = true
is_finished TaskStatus.cancelled = true
is_finished _ = false

-- The state that an executing deployment should be in, by the states of its tasks.
abbrev pub expected_status : Bool → List Task → DeploymentStatus
expected_status rollback tasks =
    if all (λ t. is_finished t.status) tasks
    then verifying
    else if any (λ t. is_task_status t.status TaskStatus.failed) tasks && rollback
    then rolling_back
    else executing

pub all_complete-all :
    (tasks : List Task)
    → (all_complete tasks && not (any_failed tasks)) ≡ all (λ t. is_finished t.status) tasks
unfolding all_complete any_failed Task.is_terminal TaskStatus-discrete
all_complete-all [] = refl
all_complete-all (t ∷ tasks) = ground (arith, all_complete-all tasks)
