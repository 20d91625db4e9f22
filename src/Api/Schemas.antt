-- ===== src/Api/Schemas.antt =====
-- api/schemas/deployment_schemas.py and drift_schemas.py: what requests and responses hold. The
-- constraints on the fields of a request are pydantic's, and are no part of the records.
use multi_cloud_ai_orchestra.Base.{ℕ, String, Bool, List, Option, Json}
use multi_cloud_ai_orchestra.Base.Dict.{Dict}
use multi_cloud_ai_orchestra.Domain.Status.{DeploymentStatus}
use multi_cloud_ai_orchestra.Domain.Cloud.{ResourceType, CloudProviderType}
use multi_cloud_ai_orchestra.Domain.Plan.{DeploymentStrategy}
use multi_cloud_ai_orchestra.Domain.Drift.{DriftType, DriftSeverity}

pub record ResourceSpecRequest : Type 0 where
  pub resource_type : ResourceType
  pub provider : CloudProviderType
  pub region : String
  pub name : String
  pub properties : Dict Json
  pub tags : Dict String
  pub dependencies : List String

pub record CreateDeploymentRequest : Type 0 where
  pub description : String
  pub target_providers : List CloudProviderType
  pub target_regions : List String
  pub resources : List ResourceSpecRequest
  pub strategy : DeploymentStrategy
  pub auto_approve : Bool
  pub rollback_on_failure : Bool
  pub environment : String
  pub parameters : Dict Json

pub record StepResultResponse : Type 0 where
  pub step_id : String
  pub success : Bool
  pub output : String
  pub error_message : String
  pub duration_seconds : ℕ
  pub attempt_number : ℕ

pub record ExecutionPlanResponse : Type 0 where
  pub plan_id : String
  pub step_count : ℕ
  pub estimated_total_duration_seconds : ℕ
  pub risk_assessment : String
  pub reasoning : String
  pub steps : List Json

-- A percentage that the source computes as a float: `part / whole * 100`, and 0 for no whole.
pub record Percentage : Type 0 where
  pub part : ℕ
  pub whole : ℕ

pub record DeploymentResponse : Type 0 where
  pub id : String
  pub name : String
  pub status : DeploymentStatus
  pub environment : String
  pub strategy : DeploymentStrategy
  pub providers : List CloudProviderType
  pub plan : Option ExecutionPlanResponse
  pub step_results : List StepResultResponse
  pub progress_percentage : Percentage
  pub error_message : String
  pub initiated_by : String
  pub tenant_id : String
  pub created_at : ℕ
  pub updated_at : ℕ

pub record DriftItemResponse : Type 0 where
  pub drift_type : DriftType
  pub resource_identifier : String
  pub property_path : String
  pub expected_value : String
  pub actual_value : String
  pub severity : DriftSeverity

pub record DriftReportResponse : Type 0 where
  pub id : String
  pub deployment_id : String
  pub scan_type : String
  pub items : List DriftItemResponse
  pub summary : String
  pub has_drift : Bool
  pub critical_count : ℕ
  pub high_count : ℕ
  pub max_severity : DriftSeverity
  pub created_at : ℕ
