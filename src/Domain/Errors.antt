-- ===== src/Domain/Errors.antt =====
-- The exceptions that the domain layer raises. An exception holds what its message shows.
use multi_cloud_ai_orchestra.Base.{ℕ, String}
use multi_cloud_ai_orchestra.Domain.Status.{DeploymentStatus, TaskStatus}

pub data Error : Type 0 where
  invalid_state_transition : (current new_status : DeploymentStatus) → Error
  invalid_task_transition : (current new_status : TaskStatus) → Error
  max_retries_exceeded : (task_id : String) (max_attempts : ℕ) → Error
  deployment_not_found deployment_plan_missing deployment_lock : (deployment_id : String) → Error
  -- Python's IndexError
  index_error : Error
