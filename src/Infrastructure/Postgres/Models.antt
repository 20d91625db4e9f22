-- ===== src/Infrastructure/Postgres/Models.antt =====
-- The tables of infrastructure/persistence/models.py: a record for the columns of each, with the
-- values that a column holds before the server fills it in; the unique columns, the widths of the
-- columns and the server's defaults.
use Prim.Native.String
use multi_cloud_ai_orchestra.Base.{
  ℕ, String, str_eq, Bool, true, false, ◌&&◌, ◌||◌, List, Option, none, some, Json, leb, ltb,
}
use multi_cloud_ai_orchestra.Base.Dict.{Dict}
use multi_cloud_ai_orchestra.Infrastructure.Postgres.{Model}

-- What the code puts into a DateTime column: a time, or the ISO text of one.
pub data Moment : Type 0 where
  datetime : ℕ → Moment
  iso_text : ℕ → Moment

-- A DateTime column takes times alone.
abbrev pub fits_datetime : Option Moment → Bool
fits_datetime none = true
fits_datetime (some (datetime t)) = true
fits_datetime (some (iso_text t)) = false

-- `String(width)`
abbrev pub fits_string : ℕ → String → Bool
fits_string width text = leb (String.count text) width

abbrev pub fits_nullable : ℕ → Option String → Bool
fits_nullable width none = true
fits_nullable width (some text) = fits_string width text

-- `Integer`, of 32 bits
abbrev pub fits_integer : ℕ → Bool
fits_integer n = ltb n 2147483648

-- `server_default=func.now()` on a column that the statement leaves out
abbrev pub or_now : ℕ → Option ℕ → Option ℕ
or_now t none = some t
or_now t (some value) = some value

pub record DeploymentOrm : Type 0 where
  pub id : String
  pub name : String
  pub status : String
  pub intent_data : Json
  pub plan_data : Option Json
  pub step_results_data : Option (List Json)
  pub initiated_by : String
  pub tenant_id : String
  pub error_message : Option String
  pub rollback_deployment_id : Option String
  pub version : ℕ
  pub created_at : Option ℕ
  pub updated_at : Option ℕ

unfoldable pub deployment_fits : DeploymentOrm → Bool
deployment_fits r =
    fits_string 36 r.id
    && fits_string 255 r.name
    && fits_string 50 r.status
    && fits_string 255 r.initiated_by
    && fits_string 100 r.tenant_id
    && fits_nullable 36 r.rollback_deployment_id
    && fits_integer r.version

abbrev pub deployments : Model DeploymentOrm
deployments = record {
  identity = λ r. r.id;
  clashes = λ r s. str_eq r.id s.id;
  fits = deployment_fits;
  inserted =
      λ t r. record r { created_at = or_now t r.created_at; updated_at = or_now t r.updated_at };
  updated = λ t r. record r { updated_at = some t };
}

pub record TaskOrm : Type 0 where
  pub id : String
  pub deployment_id : String
  pub step_id : String
  pub name : String
  pub description : Option String
  pub status : String
  pub provider : String
  pub terraform_action : String
  pub worker_id : Option String
  pub idempotency_key : String
  pub attempt_number : ℕ
  pub max_attempts : ℕ
  pub timeout_seconds : ℕ
  pub input_data : Option (Dict Json)
  pub output_data : Option (Dict Json)
  pub error_message : Option String
  pub started_at : Option Moment
  pub completed_at : Option Moment
  pub version : ℕ
  pub created_at : Option ℕ
  pub updated_at : Option ℕ

unfoldable pub task_fits : TaskOrm → Bool
task_fits r =
    fits_string 36 r.id
    && fits_string 36 r.deployment_id
    && fits_string 36 r.step_id
    && fits_string 255 r.name
    && fits_string 50 r.status
    && fits_string 20 r.provider
    && fits_string 50 r.terraform_action
    && fits_nullable 100 r.worker_id
    && fits_string 36 r.idempotency_key
    && fits_integer r.attempt_number
    && fits_integer r.max_attempts
    && fits_integer r.timeout_seconds
    && fits_datetime r.started_at
    && fits_datetime r.completed_at
    && fits_integer r.version

abbrev pub tasks : Model TaskOrm
tasks = record {
  identity = λ r. r.id;
  clashes = λ r s. str_eq r.id s.id || str_eq r.idempotency_key s.idempotency_key;
  fits = task_fits;
  inserted =
      λ t r. record r { created_at = or_now t r.created_at; updated_at = or_now t r.updated_at };
  updated = λ t r. record r { updated_at = some t };
}

pub record DriftReportOrm : Type 0 where
  pub id : String
  pub deployment_id : String
  pub scan_type : String
  pub items_data : Option (List Json)
  pub summary : Option String
  pub auto_remediate : Bool
  pub remediation_deployment_id : Option String
  pub version : ℕ
  pub created_at : Option ℕ
  pub updated_at : Option ℕ

unfoldable pub report_fits : DriftReportOrm → Bool
report_fits r =
    fits_string 36 r.id
    && fits_string 36 r.deployment_id
    && fits_string 50 r.scan_type
    && fits_nullable 36 r.remediation_deployment_id
    && fits_integer r.version

abbrev pub drift_reports : Model DriftReportOrm
drift_reports = record {
  identity = λ r. r.id;
  clashes = λ r s. str_eq r.id s.id;
  fits = report_fits;
  inserted =
      λ t r. record r { created_at = or_now t r.created_at; updated_at = or_now t r.updated_at };
  updated = λ t r. record r { updated_at = some t };
}

pub record UserOrm : Type 0 where
  pub id : String
  pub username : String
  pub email : String
  pub hashed_password : String
  pub role : String
  pub tenant_id : String
  pub is_active : Bool
  pub version : ℕ
  pub created_at : Option ℕ
  pub updated_at : Option ℕ

unfoldable pub user_fits : UserOrm → Bool
user_fits r =
    fits_string 36 r.id
    && fits_string 100 r.username
    && fits_string 255 r.email
    && fits_string 255 r.hashed_password
    && fits_string 50 r.role
    && fits_string 100 r.tenant_id
    && fits_integer r.version

abbrev pub users : Model UserOrm
users = record {
  identity = λ r. r.id;
  clashes = λ r s. str_eq r.id s.id || str_eq r.username s.username || str_eq r.email s.email;
  fits = user_fits;
  inserted =
      λ t r. record r { created_at = or_now t r.created_at; updated_at = or_now t r.updated_at };
  updated = λ t r. record r { updated_at = some t };
}
