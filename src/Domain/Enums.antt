-- ===== src/Domain/Enums.antt =====
-- The values of the enumerations of domain/models, `Enum(value)` for each that the code builds from
-- a value, and that a member is the one of its value.
use multi_cloud_ai_orchestra.Base.{
  ◌≡◌, refl, String, str_eq, List, [], ◌∷◌, Option, none, some, if◌then◌else◌,
}
use multi_cloud_ai_orchestra.Domain.Status.{DeploymentStatus, TaskStatus}
use multi_cloud_ai_orchestra.Domain.Cloud.{CloudProviderType, aws, azure, gcp, provider_value}
use multi_cloud_ai_orchestra.Domain.User.{Role, admin, operator, viewer, deployer}

-- `Enum(value)` over the members of the enumeration, which raises ValueError on another text.
abbrev pub member_of {ℓ} : {A : Type ℓ} → List A → (A → String) → String → Option A
member_of [] value_of value = none
member_of (a ∷ members) value_of value =
    if str_eq (value_of a) value then some a else member_of members value_of value

-- DeploymentStatus.value
unfoldable pub deployment_status_value : DeploymentStatus → String
deployment_status_value DeploymentStatus.pending = "pending"
deployment_status_value DeploymentStatus.planning = "planning"
deployment_status_value DeploymentStatus.planned = "planned"
deployment_status_value DeploymentStatus.awaiting_approval = "awaiting_approval"
deployment_status_value DeploymentStatus.approved = "approved"
deployment_status_value DeploymentStatus.executing = "executing"
deployment_status_value DeploymentStatus.verifying = "verifying"
deployment_status_value DeploymentStatus.completed = "completed"
deployment_status_value DeploymentStatus.failed = "failed"
deployment_status_value DeploymentStatus.rolling_back = "rolling_back"
deployment_status_value DeploymentStatus.rolled_back = "rolled_back"
deployment_status_value DeploymentStatus.cancelled = "cancelled"

abbrev deployment_statuses : List DeploymentStatus
deployment_statuses =
    DeploymentStatus.pending ∷ DeploymentStatus.planning ∷ DeploymentStatus.planned
    ∷ DeploymentStatus.awaiting_approval ∷ DeploymentStatus.approved ∷ DeploymentStatus.executing
    ∷ DeploymentStatus.verifying ∷ DeploymentStatus.completed ∷ DeploymentStatus.failed
    ∷ DeploymentStatus.rolling_back ∷ DeploymentStatus.rolled_back ∷ DeploymentStatus.cancelled ∷ []

-- `DeploymentStatus(value)`
unfoldable pub deployment_status_of : String → Option DeploymentStatus
unfolding deployment_status_value
deployment_status_of = member_of deployment_statuses deployment_status_value

-- TaskStatus.value
unfoldable pub task_status_value : TaskStatus → String
task_status_value TaskStatus.pending = "pending"
task_status_value TaskStatus.queued = "queued"
task_status_value TaskStatus.acquired = "acquired"
task_status_value TaskStatus.running = "running"
task_status_value TaskStatus.succeeded = "succeeded"
task_status_value TaskStatus.failed = "failed"
task_status_value TaskStatus.retrying = "retrying"
task_status_value TaskStatus.cancelled = "cancelled"
task_status_value TaskStatus.timed_out = "timed_out"

abbrev task_statuses : List TaskStatus
task_statuses =
    TaskStatus.pending ∷ TaskStatus.queued ∷ TaskStatus.acquired ∷ TaskStatus.running
    ∷ TaskStatus.succeeded ∷ TaskStatus.failed ∷ TaskStatus.retrying ∷ TaskStatus.cancelled
    ∷ TaskStatus.timed_out ∷ []

-- `TaskStatus(value)`
unfoldable pub task_status_of : String → Option TaskStatus
unfolding task_status_value
task_status_of = member_of task_statuses task_status_value

-- `CloudProviderType(value)`
unfoldable pub provider_of : String → Option CloudProviderType
unfolding provider_value
provider_of = member_of (aws ∷ azure ∷ gcp ∷ []) provider_value

-- Role.value
unfoldable pub role_value : Role → String
role_value admin = "admin"
role_value operator = "operator"
role_value viewer = "viewer"
role_value deployer = "deployer"

-- `Role(value)`
unfoldable pub role_of : String → Option Role
unfolding role_value
role_of = member_of (admin ∷ operator ∷ viewer ∷ deployer ∷ []) role_value

pub role_of-role_value : (r : Role) → role_of (role_value r) ≡ some r
unfolding role_of role_value
role_of-role_value admin = refl
role_of-role_value operator = refl
role_of-role_value viewer = refl
role_of-role_value deployer = refl

pub provider_of-provider_value : (p : CloudProviderType) → provider_of (provider_value p) ≡ some p
unfolding provider_of provider_value
provider_of-provider_value aws = refl
provider_of-provider_value azure = refl
provider_of-provider_value gcp = refl

pub task_status_of-task_status_value :
    (status : TaskStatus) → task_status_of (task_status_value status) ≡ some status
unfolding task_status_of task_status_value
task_status_of-task_status_value TaskStatus.pending = refl
task_status_of-task_status_value TaskStatus.queued = refl
task_status_of-task_status_value TaskStatus.acquired = refl
task_status_of-task_status_value TaskStatus.running = refl
task_status_of-task_status_value TaskStatus.succeeded = refl
task_status_of-task_status_value TaskStatus.failed = refl
task_status_of-task_status_value TaskStatus.retrying = refl
task_status_of-task_status_value TaskStatus.cancelled = refl
task_status_of-task_status_value TaskStatus.timed_out = refl

pub deployment_status_of-deployment_status_value :
    (status : DeploymentStatus)
    → deployment_status_of (deployment_status_value status) ≡ some status
unfolding deployment_status_of deployment_status_value
deployment_status_of-deployment_status_value DeploymentStatus.pending = refl
deployment_status_of-deployment_status_value DeploymentStatus.planning = refl
deployment_status_of-deployment_status_value DeploymentStatus.planned = refl
deployment_status_of-deployment_status_value DeploymentStatus.awaiting_approval = refl
deployment_status_of-deployment_status_value DeploymentStatus.approved = refl
deployment_status_of-deployment_status_value DeploymentStatus.executing = refl
deployment_status_of-deployment_status_value DeploymentStatus.verifying = refl
deployment_status_of-deployment_status_value DeploymentStatus.completed = refl
deployment_status_of-deployment_status_value DeploymentStatus.failed = refl
deployment_status_of-deployment_status_value DeploymentStatus.rolling_back = refl
deployment_status_of-deployment_status_value DeploymentStatus.rolled_back = refl
deployment_status_of-deployment_status_value DeploymentStatus.cancelled = refl
