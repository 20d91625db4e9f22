-- ===== src/Tests/Interleavings.antt =====
-- Two requests for the deployment service that interleave, with a read of the lock service.
use multi_cloud_ai_orchestra.Base.{◌≡◌, refl, ◌≤◌, [], ◌∷◌, List, true, false, none, all, count_if}
use multi_cloud_ai_orchestra.Api.Container.{Process, lock_service}
use multi_cloud_ai_orchestra.Api.Container.Quiet.{services_built}
use multi_cloud_ai_orchestra.Api.Deployments.Singleton.{
  build_deployment_service, asked, returned, Turn, goes_on, arrives, reads_lock, run,
}
use multi_cloud_ai_orchestra.Api.Deployments.Singleton.Steps.{inside}
use multi_cloud_ai_orchestra.Api.Deployments.Singleton.BuiltOnce.{
  is_answered, alone, run-builds_once,
}

abbrev started : Process
started = record { objects = []; instance = none; service = none; init_lock = false }

abbrev turns : List Turn
turns =
    arrives
    ∷ arrives
    ∷ goes_on 0
    ∷ goes_on 1
    ∷ goes_on 1
    ∷ goes_on 0
    ∷ reads_lock
    ∷ goes_on 1
    ∷ goes_on 1
    ∷ goes_on 1
    ∷ goes_on 1
    ∷ goes_on 0
    ∷ goes_on 0
    ∷ goes_on 0
    ∷ goes_on 0
    ∷ []

run-builds_once_example :
    let (requests, q) = run turns [] started in
    (services_built q ≤ 1)
    × (count_if inside requests ≤ 1)
    × (all (is_answered q.service) requests ≡ true)
    × ((run alone (asked ∷ []) started).0
        ≡ returned (build_deployment_service (record started { init_lock = true })).0 ∷ [])
run-builds_once_example = run-builds_once turns started refl refl refl

-- Both requests got the same service.
both_answered : (run turns [] started).0 ≡ returned 8 ∷ returned 8 ∷ []
unfolding run build_deployment_service lock_service
both_answered = refl
