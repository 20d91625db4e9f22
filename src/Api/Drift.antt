-- ===== src/Api/Drift.antt =====
-- The route of api/routes/drift_routes.py, over the drift service.
use multi_cloud_ai_orchestra.Base.{String, [], ◌∷◌, Json, pure, map, fstring, ◌>>=◌}
use multi_cloud_ai_orchestra.Domain.Cloud.{ResourceSpec}
use multi_cloud_ai_orchestra.Domain.Drift.{
  DriftItem, DriftReport, has_drift, critical_count, high_count, max_severity,
}
use multi_cloud_ai_orchestra.Domain.User.{drift_scan, User}
use multi_cloud_ai_orchestra.Services.Drift.{
  DriftWorld, DriftScanError, deployment_not_found, scan_deployment,
}
use multi_cloud_ai_orchestra.Api.Http.{
  HttpError, http_exception, Handler, catching, require_permission,
}
use multi_cloud_ai_orchestra.Api.Schemas.{DriftItemResponse, DriftReportResponse}

unfoldable pub item_response : DriftItem → DriftItemResponse
item_response item = record {
  drift_type = item.drift_type;
  resource_identifier = item.resource_identifier;
  property_path = item.property_path;
  expected_value = item.expected_value;
  actual_value = item.actual_value;
  severity = item.severity;
}

-- `_to_response` of drift_routes.py
unfoldable pub report_response : DriftReport → DriftReportResponse
report_response r = record {
  id = r.id;
  deployment_id = r.deployment_id;
  scan_type = r.scan_type;
  items = map item_response r.items;
  summary = r.summary;
  has_drift = has_drift r;
  critical_count = critical_count r;
  high_count = high_count r;
  max_severity = max_severity r;
  created_at = r.created_at;
}

-- The `except` clause of scan_drift.
unfoldable pub scan_except : DriftScanError → HttpError
scan_except (deployment_not_found id) =
    http_exception 404 (fstring ("Deployment " ∷ id ∷ " not found" ∷ []))

-- The request's `auto_remediate` is not read.
unfoldable pub scan_drift :
    (ResourceSpec → Json) → String → User → Handler DriftWorld DriftReportResponse
scan_drift dump_spec deployment_id current = do
  user ← require_permission (drift_scan ∷ []) current
  report ← catching scan_except (scan_deployment dump_spec deployment_id)
  pure (report_response report)
