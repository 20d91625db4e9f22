-- ===== src/Api/Health.antt =====
-- The routes of api/routes/health_routes.py. `now` is the text of the time.
use multi_cloud_ai_orchestra.Base.{String, Bool, [], all, str_eq, if◌then◌else◌}
use multi_cloud_ai_orchestra.Base.Dict.{Dict, put, values}

unfoldable health_check : String → Dict String
unfolding put
health_check now = put "version" "1.0.0" (put "timestamp" now (put "status" "healthy" []))

record Readiness : Type 0 where
  status : String
  checks : Dict String
  timestamp : String

unfoldable dependency_checks : Dict String
unfolding put
dependency_checks = put "kafka" "ok" (put "redis" "ok" (put "database" "ok" []))

unfoldable all_ok : Dict String → Bool
unfolding values
all_ok checks = all (λ v. str_eq v "ok") (values checks)

unfoldable readiness_check : String → Readiness
unfolding dependency_checks all_ok
readiness_check now = record {
  status = if all_ok dependency_checks then "ready" else "not_ready";
  checks = dependency_checks;
  timestamp = now;
}

unfoldable liveness_check : Dict String
unfolding put
liveness_check = put "status" "alive" []
