-- ===== src/Workers/Health.antt =====
-- workers/health_worker.py, on a health checker that is a parameter, and HealthCheckMixin of
-- workers/base.py. Logging is left out. The identifiers in the input of a task are taken to be texts.
pub mod Results
use multi_cloud_ai_orchestra.Base.{
  ℕ, String, Bool, true, false, List, [], ◌∷◌, Option, none, some, Method, pure, or_raise, ◌>>=◌,
  ◌>>◌, Json, Fields, Items, field, no_fields, fstring, if◌then◌else◌,
}
use multi_cloud_ai_orchestra.Base.Dict.{Dict, get, put}
use multi_cloud_ai_orchestra.Domain.Task.{Task}
use multi_cloud_ai_orchestra.Domain.Ports.Services.{HealthChecker}
use multi_cloud_ai_orchestra.Workers.Base.{Worker, active_task_count}

-- SimulatedHealthChecker
abbrev pub simulated_health_checker : {E S : Type 0} → HealthChecker E S
simulated_health_checker = record {
  check_resource =
      λ provider resource_id. pure (true, fstring ("Resource " ∷ resource_id ∷ " is healthy" ∷ []));
  check_deployment = λ deployment_id. pure (
      ("deployment_id", Json.str deployment_id)
      ∷ ("status", Json.str "healthy")
      ∷ ("checks", Json.obj no_fields)
      ∷ []);
}

-- `{"healthy": healthy, "message": message}`
unfoldable pub check_result : Bool → String → Json
check_result healthy message =
    Json.obj (field "healthy" (Json.flag healthy) (field "message" (Json.str message) no_fields))

-- The dictionary that execute returns.
pub record HealthReport : Type 0 where
  pub all_healthy : Bool
  pub results : Dict Json

-- `task.input_data.get("resource_ids", [])`, for texts
unfoldable pub texts_of : Items → List String
texts_of Items.no_items = []
texts_of (Items.item (Json.str text) items) = text ∷ texts_of items
texts_of (Items.item json items) = texts_of items

unfoldable pub resource_ids_of : Option Json → List String
unfolding texts_of
resource_ids_of (some (Json.arr items)) = texts_of items
resource_ids_of other = []

-- `task.input_data.get("provider", "aws")`, for a text
unfoldable pub provider_of_input : Option Json → String
provider_of_input (some (Json.str provider)) = provider
provider_of_input other = "aws"

module _ {E S : Type 0} (checker : HealthChecker E S) where
  -- The loop of execute.
  unfoldable pub check_all : String → List String → HealthReport → Method E S HealthReport
  unfolding check_result
  check_all provider [] report = pure report
  check_all provider (resource_id ∷ ids) report = do
    answer ← checker.check_resource provider resource_id
    check_all provider ids (record {
      all_healthy = if answer.0 then report.all_healthy else false;
      results = put resource_id (check_result answer.0 answer.1) report.results;
    })

  -- HealthCheckWorkerAgent.execute
  unfoldable pub execute : Task → Method E S HealthReport
  unfolding check_all resource_ids_of provider_of_input
  execute task =
      check_all (provider_of_input (get "provider" task.input_data))
        (resource_ids_of (get "resource_ids" task.input_data))
        (record { all_healthy = true; results = [] })

-- HealthCheckMixin.get_health
pub record WorkerHealth : Type 0 where
  pub worker_id : String
  pub active_tasks : ℕ
  pub running : Bool
  pub max_concurrent : ℕ

unfoldable pub get_health : (running : Bool) → Worker → WorkerHealth
unfolding active_task_count
get_health running w = record {
  worker_id = w.worker_id;
  active_tasks = active_task_count w;
  running = running;
  max_concurrent = w.max_concurrent;
}
