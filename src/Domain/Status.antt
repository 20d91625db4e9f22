-- ===== src/Domain/Status.antt =====
-- The state machines of deployments and tasks: the states and the transition tables
-- (domain/models/deployment.py, domain/models/task.py).
use multi_cloud_ai_orchestra.Base.{Bool, List, [], ◌∷◌, holds}

pub data DeploymentStatus : Type 0 where
  pending planning planned awaiting_approval approved executing verifying completed failed
        rolling_back rolled_back cancelled :
      DeploymentStatus

unfoldable pub DeploymentStatus-discrete : Discrete DeploymentStatus
DeploymentStatus-discrete = hlevel

-- `==` on the states, which are members of one enum.
abbrev pub is_status : DeploymentStatus → DeploymentStatus → Bool
is_status a b = holds (DeploymentStatus-discrete a b)

-- VALID_TRANSITIONS
unfoldable pub valid_transitions : DeploymentStatus → List DeploymentStatus
valid_transitions pending = planning ∷ cancelled ∷ []
valid_transitions planning = planned ∷ failed ∷ []
valid_transitions planned = awaiting_approval ∷ approved ∷ executing ∷ cancelled ∷ []
valid_transitions awaiting_approval = approved ∷ cancelled ∷ []
valid_transitions approved = executing ∷ cancelled ∷ []
valid_transitions executing = verifying ∷ failed ∷ rolling_back ∷ []
valid_transitions verifying = completed ∷ failed ∷ rolling_back ∷ []
valid_transitions completed = []
valid_transitions failed = rolling_back ∷ pending ∷ []
valid_transitions rolling_back = rolled_back ∷ failed ∷ []
valid_transitions rolled_back = pending ∷ []
valid_transitions cancelled = []

pub data TaskStatus : Type 0 where
  pending queued acquired running succeeded failed retrying cancelled timed_out : TaskStatus

unfoldable pub TaskStatus-discrete : Discrete TaskStatus
TaskStatus-discrete = hlevel

abbrev pub is_task_status : TaskStatus → TaskStatus → Bool
is_task_status a b = holds (TaskStatus-discrete a b)

-- TASK_VALID_TRANSITIONS
unfoldable pub task_valid_transitions : TaskStatus → List TaskStatus
task_valid_transitions TaskStatus.pending = queued ∷ TaskStatus.cancelled ∷ []
task_valid_transitions queued = acquired ∷ TaskStatus.cancelled ∷ timed_out ∷ []
task_valid_transitions acquired = running ∷ TaskStatus.cancelled ∷ []
task_valid_transitions running = succeeded ∷ TaskStatus.failed ∷ timed_out ∷ []
task_valid_transitions succeeded = []
task_valid_transitions TaskStatus.failed = retrying ∷ TaskStatus.cancelled ∷ []
task_valid_transitions retrying = queued ∷ []
task_valid_transitions TaskStatus.cancelled = []
task_valid_transitions timed_out = retrying ∷ TaskStatus.cancelled ∷ TaskStatus.failed ∷ []
