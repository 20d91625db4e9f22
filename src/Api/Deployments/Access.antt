-- ===== src/Api/Deployments/Access.antt =====
-- Who may do what to a deployment over HTTP.
use multi_cloud_ai_orchestra.Base.{◌≡◌, refl, String, true, false, [], ◌∷◌, some, Json, raised, any}
use multi_cloud_ai_orchestra.Base.Dict.{Dict}
use multi_cloud_ai_orchestra.Domain.Status.{is_status, approved, valid_transitions}
use multi_cloud_ai_orchestra.Domain.Cloud.{ResourceSpec}
use multi_cloud_ai_orchestra.Domain.Errors.{invalid_state_transition}
use multi_cloud_ai_orchestra.Domain.Plan.{ExecutionStep}
use multi_cloud_ai_orchestra.Domain.Deployment as Domain
use multi_cloud_ai_orchestra.Domain.Deployment.{Deployment}
use multi_cloud_ai_orchestra.Domain.User.{
  Permission, deployment_create, deployment_approve, deployment_rollback, User, has_any_permission,
}
use multi_cloud_ai_orchestra.Infrastructure.InMemory.{deployment_by_id}
use multi_cloud_ai_orchestra.Services.World.{World, find_deployment, on_deployment}
use multi_cloud_ai_orchestra.Services.Deployments as Services
use multi_cloud_ai_orchestra.Api.Http.{uncaught, Handler, forbidden, require_permission, catching}
use multi_cloud_ai_orchestra.Api.Schemas.{CreateDeploymentRequest}
use multi_cloud_ai_orchestra.Api.Deployments.{
  Answer, create_deployment, plan_deployment, approve_deployment, execute_deployment,
  rollback_deployment, not_found_except,
}

-- The requests to the routes.
pub data Request : Type 0 where
  create : CreateDeploymentRequest → Request
  plan execute rollback : (deployment_id : String) → Request
  approve : (deployment_id approved_by : String) → Request

-- The permission that the route of a request demands.
abbrev pub demanded : Request → Permission
demanded (create request) = deployment_create
demanded (plan id) = deployment_create
demanded (execute id) = deployment_create
demanded (rollback id) = deployment_rollback
demanded (approve id by) = deployment_approve

-- The service raises on an approval that the table refuses.
approve_deployment-refused :
    (id by : String) (d : Deployment) (w : World)
    → deployment_by_id id w.deployments ≡ some d
    → any (is_status approved) (valid_transitions d.status) ≡ false
    → let (r, v) = Services.approve_deployment id by w in
      (r ≡ raised (invalid_state_transition d.status approved)) × (v.published ≡ w.published)
unfolding Services.approve_deployment find_deployment on_deployment Domain.methods
approve_deployment-refused id by d w h k = rw (h, k) (refl, refl)

module _ (dump_step : ExecutionStep → Json) (dump_spec : ResourceSpec → Json)
    (show : Dict Json → String) where
  abbrev pub serve : Request → User → Handler World Answer
  serve (create request) = create_deployment dump_step dump_spec show request
  serve (plan id) = plan_deployment dump_step dump_spec show id
  serve (execute id) = execute_deployment dump_step dump_spec show id
  serve (rollback id) = rollback_deployment dump_step dump_spec show id
  serve (approve id by) = approve_deployment dump_step dump_spec show id by

  -- A user without the permission that a route demands gets status 403 from each of the five routes
  -- that change deployments, and nothing changes.
  pub serve-forbidden :
      (request : Request) (user : User) (w : World)
      → has_any_permission user (demanded request ∷ []) ≡ false
      → serve request user w ≡ (raised (forbidden (demanded request ∷ [])), w)
  unfolding create_deployment plan_deployment execute_deployment rollback_deployment
      approve_deployment require_permission
  serve-forbidden (create request) user w h = rw h refl
  serve-forbidden (plan id) user w h = rw h refl
  serve-forbidden (execute id) user w h = rw h refl
  serve-forbidden (rollback id) user w h = rw h refl
  serve-forbidden (approve id by) user w h = rw h refl

  -- The approval of a stored deployment by a user who may approve ends in an exception that the route
  -- does not catch, so with status 500, when VALID_TRANSITIONS does not let its status become
  -- APPROVED; no event is published.
  pub serve-approve_uncaught :
      (id by : String) (user : User) (d : Deployment) (w : World)
      → has_any_permission user (deployment_approve ∷ []) ≡ true
      → deployment_by_id id w.deployments ≡ some d
      → any (is_status approved) (valid_transitions d.status) ≡ false
      → let (r, v) = serve (approve id by) user w in
        (r ≡ raised uncaught) × (v.published ≡ w.published)
  unfolding approve_deployment require_permission catching not_found_except
  serve-approve_uncaught id by user d w p h k =
      let (raises, same) = approve_deployment-refused id by d w h k in rw (p, raises) (refl, same)
