-- ===== src/Tests/Routes.antt =====
-- The theorems on the routes at concrete inputs.
use multi_cloud_ai_orchestra.Base.{
  none, ℕ, leb, ◌≡◌, refl, String, Bool, true, false, ◌||◌, [], ◌∷◌, Option, some, Json, ok, raised,
  str_eq, if◌then◌else◌,
}
use multi_cloud_ai_orchestra.Base.Dict.{Dict, get, values}
use multi_cloud_ai_orchestra.Domain.Status.{
  pending, queued, DeploymentStatus-discrete, valid_transitions,
}
use multi_cloud_ai_orchestra.Domain.Cloud.{ResourceSpec}
use multi_cloud_ai_orchestra.Domain.Plan.{ExecutionStep}
use multi_cloud_ai_orchestra.Domain.User.{
  deployer, operator, User, deployment_rollback, Permission-discrete, has_permission,
  has_any_permission, role_permissions,
}
use multi_cloud_ai_orchestra.Infrastructure.InMemory.{
  deployment_by_id, user_by_username, find_username,
}
use multi_cloud_ai_orchestra.Domain.Entity.{now}
use multi_cloud_ai_orchestra.Api.Http.{http_exception, uncaught, forbidden}
use multi_cloud_ai_orchestra.Api.Deployments.Access.{
  rollback, approve, serve, serve-forbidden, serve-approve_uncaught,
}
use multi_cloud_ai_orchestra.Domain.Enums.{role_value}
use multi_cloud_ai_orchestra.Api.Auth.{
  access_claims, refresh_claims, AuthSettings, AuthWorld, Claims, TokenResponse, login,
  get_current_user,
}
use multi_cloud_ai_orchestra.Api.Auth.Sessions.{identity, login-get_current_user}
use multi_cloud_ai_orchestra.Tests.Samples.{outside, user, world}

abbrev dump_step : ExecutionStep → Json
dump_step step = Json.str step.step_id

abbrev dump_spec : ResourceSpec → Json
dump_spec spec = Json.str spec.name

abbrev show : Dict Json → String
show output = "{...}"

permissions : Unit {0}
unfolding has_any_permission has_permission role_permissions Permission-discrete
permissions = tt

serve-forbidden_example :
    serve dump_step dump_spec show (rollback "d") (user deployer) (world true pending queued queued)
    ≡ (raised (forbidden (deployment_rollback ∷ [])), world true pending queued queued)
unfolding permissions
serve-forbidden_example =
    serve-forbidden dump_step dump_spec show (rollback "d") (user deployer)
      (world true pending queued queued) refl

serve-approve_uncaught_example :
    let (r, v) =
      serve dump_step dump_spec show
        (approve "d" "ops")
        (user operator)
        (world true pending queued queued) in
    (r ≡ raised uncaught) × (v.published ≡ [])
unfolding permissions deployment_by_id get valid_transitions DeploymentStatus-discrete
serve-approve_uncaught_example =
    serve-approve_uncaught dump_step dump_spec show "d" "ops" (user operator) _
      (world true pending queued queued) refl refl refl

abbrev settings : AuthSettings
settings = record {
  secret_key = "k";
  algorithm = "HS256";
  access_token_expire_minutes = 30;
  refresh_token_expire_days = 7;
}

abbrev has_role : Claims → Bool
has_role [] = false
has_role ((key, value) ∷ c) = str_eq key "role" || has_role c

-- A jose that knows the two tokens of one login, by whether the claims name a role.
abbrev encode : Claims → String → String → String
encode c key algorithm = if has_role c then "access" else "refresh"

abbrev decode : String → String → String → ℕ → Option Claims
decode token key algorithm time =
    if str_eq token "access"
    then (if leb time 1800 then some (access_claims "u" "operator" "tenant" 1800) else none)
    else (if leb time 604801 then some (refresh_claims "u" 604801) else none)

-- A bcrypt that hashes to the password itself.
abbrev verify : String → String → Bool
verify password hashed = str_eq password hashed

abbrev operator_user : User
operator_user = record (user operator) { hashed_password = "secret" }

abbrev auth_world : AuthWorld
auth_world = record { users = ("u", operator_user) ∷ []; ambient = outside }

login-get_current_user_example :
    (tokens : TokenResponse) × ((login encode decode
        (λ p. p)
        verify
        settings
        (record { username = "u"; password = "secret" })
        auth_world).0
      ≡ ok tokens)
    × ((x : AuthWorld)
        → identity (get_current_user encode decode (λ p. p) verify settings tokens.access_token x).0
          ≡ (if leb (now x.ambient) 1800
              then ok (record {
                id = "u";
                username = "u";
                role = operator;
                tenant_id = "tenant";
                is_active = true;
              })
              else raised (http_exception 401 "Invalid token")))
    × ((x : AuthWorld)
        → (get_current_user encode decode (λ p. p) verify settings tokens.refresh_token x).0
          ≡ raised (
              http_exception 401
                (if leb (now x.ambient) 604801 then "Invalid token type" else "Invalid token")))
unfolding user_by_username find_username values get role_value
login-get_current_user_example =
    login-get_current_user encode decode (λ p. p) verify settings
      (record { username = "u"; password = "secret" }) operator_user auth_world refl refl
      (λ time. refl) (λ time. refl)
