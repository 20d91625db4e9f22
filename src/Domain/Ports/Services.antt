-- ===== src/Domain/Ports/Services.antt =====
-- The ports of domain/ports/services.py, as records of their methods over the state `S` that an
-- adapter keeps and the exceptions `E` that it may raise.
use multi_cloud_ai_orchestra.Base.{ℕ, String, Bool, List, Option, Method, Json}
use multi_cloud_ai_orchestra.Base.Dict.{Dict}
use multi_cloud_ai_orchestra.Domain.Cloud.{CloudProviderType, ResourceSpec}
use multi_cloud_ai_orchestra.Domain.Plan.{DeploymentIntent, ExecutionPlan}
use multi_cloud_ai_orchestra.Domain.Drift.{DriftReport}

-- Costs are whole dollars.
pub record PlanningEngine (E S : Type 0) : Type 0 where
  pub generate_plan : DeploymentIntent → Method E S ExecutionPlan
  pub validate_plan : ExecutionPlan → Method E S (Bool × List String)
  pub estimate_cost : ExecutionPlan → Method E S (Dict ℕ)

pub record TerraformExecutor (E S : Type 0) : Type 0 where
  pub init : (working_dir : String) → CloudProviderType → Method E S (Bool × String)
  pub plan : (working_dir : String) → Method E S (Bool × String)
  pub apply : (working_dir : String) → Method E S (Bool × String)
  pub destroy : (working_dir : String) → Method E S (Bool × String)
  pub show_state : (working_dir : String) → Method E S (Dict Json)
  pub generate_config : ResourceSpec → (working_dir : String) → Method E S String

pub record DriftDetector (E S : Type 0) : Type 0 where
  pub detect_drift :
      (deployment_id : String) → (expected_state : Dict Json) → Method E S DriftReport
  pub get_current_state : CloudProviderType → List String → Method E S (Dict (Dict Json))

pub record EventPublisher (E S : Type 0) : Type 0 where
  pub publish : (event_type : String) → (payload : Dict Json) → Method E S (Unit {0})
  pub publish_batch : List (String × Dict Json) → Method E S (Unit {0})

pub record DistributedLock (E S : Type 0) : Type 0 where
  pub acquire : (resource_id : String) → (ttl_seconds : ℕ) → Method E S Bool
  pub release : (resource_id : String) → Method E S Bool
  pub extend : (resource_id : String) → (ttl_seconds : ℕ) → Method E S Bool
  pub is_locked : (resource_id : String) → Method E S Bool

pub record CacheService (E S : Type 0) : Type 0 where
  pub get : (key : String) → Method E S (Option Json)
  pub set : (key : String) → (value : Json) → (ttl_seconds : ℕ) → Method E S (Unit {0})
  pub delete : (key : String) → Method E S (Unit {0})
  pub exists : (key : String) → Method E S Bool

pub record HealthChecker (E S : Type 0) : Type 0 where
  pub check_resource : (provider : String) → (resource_id : String) → Method E S (Bool × String)
  pub check_deployment : (deployment_id : String) → Method E S (Dict Json)
