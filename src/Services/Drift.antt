-- ===== src/Services/Drift.antt =====
-- DriftDomainService of domain/services/drift_service.py, over the in-memory repositories and the
-- simulated detector. Its logging is left out.
pub mod Scans
use multi_cloud_ai_orchestra.Base.{
  ℕ, String, Bool, true, false, List, [], ◌∷◌, ◌++◌, Option, none, some, Json, Method, ok, pure,
  gets, modify, skip, or_raise, ◌>>=◌, ◌>>◌, length, if◌then◌else◌,
}
use multi_cloud_ai_orchestra.Base.Dict.{Dict, get, put}
use multi_cloud_ai_orchestra.Domain.Cloud.{ResourceSpec, resource_identifier}
use multi_cloud_ai_orchestra.Domain.Plan.{ExecutionStep, ExecutionPlan}
use multi_cloud_ai_orchestra.Domain.Deployment.{Deployment}
use multi_cloud_ai_orchestra.Domain.Drift.{DriftReport, DriftSeverity, has_drift, max_severity}
use multi_cloud_ai_orchestra.Infrastructure.InMemory.{
  deployment_by_id, save_report, reports_by_deployment,
}
use multi_cloud_ai_orchestra.Infrastructure.DriftDetector.{Detector, detect_drift}

-- DriftScanError, with the identifier in its message.
pub data DriftScanError : Type 0 where
  deployment_not_found : (deployment_id : String) → DriftScanError

-- The payload of "drift.detected"
pub record DriftDetected : Type 0 where
  pub deployment_id : String
  pub drift_count : ℕ
  pub severity : DriftSeverity

-- The stores that the service acts on, what it published, and its detector.
pub record DriftWorld : Type 0 where
  pub deployments : Dict Deployment
  pub reports : Dict DriftReport
  pub published : List (String × DriftDetected)
  pub detector : Detector

abbrev pub DriftService : Type 0 → Type 0
DriftService A = Method DriftScanError DriftWorld A

-- `dump_spec` is pydantic's `ResourceSpec.model_dump`.
module _ (dump_spec : ResourceSpec → Json) where
  -- The loop of _build_expected_state, from the state that it has reached.
  unfoldable pub expect_steps : List ExecutionStep → Dict Json → Dict Json
  expect_steps [] state = state
  expect_steps (step ∷ steps) state =
      expect_steps steps
        (put (resource_identifier step.resource_spec) (dump_spec step.resource_spec) state)

  unfoldable pub expected_of : Option ExecutionPlan → Dict Json
  expected_of none = []
  expected_of (some plan) = expect_steps plan.steps []

  unfoldable pub build_expected_state : Deployment → Dict Json
  build_expected_state deployment = expected_of deployment.plan

  -- `self._drift_detector.detect_drift(deployment_id, expected_state)`
  unfoldable pub run_detector : String → Dict Json → DriftService DriftReport
  run_detector deployment_id expected_state w =
      let (report, d) = detect_drift deployment_id expected_state w.detector in
      (ok report, record w { detector = d })

  unfoldable pub publish_drift : String → DriftReport → DriftService (Unit {0})
  publish_drift id report = modify (λ w. record w {
    published =
        w.published
        ++ (
          "drift.detected",
          record {
            deployment_id = id;
            drift_count = length report.items;
            severity = max_severity report;
          },
        )
          ∷ [];
  })

  unfoldable pub scan_deployment : String → DriftService DriftReport
  scan_deployment id = do
    found ← gets (λ w. deployment_by_id id w.deployments)
    deployment ← or_raise found (deployment_not_found id)
    report ← run_detector id (build_expected_state deployment)
    modify (λ w. record w { reports = save_report report w.reports })
    if has_drift report then publish_drift id report else skip
    pure report

unfoldable pub get_drift_history : String → ℕ → DriftWorld → List DriftReport
get_drift_history deployment_id limit w = reports_by_deployment deployment_id limit w.reports
