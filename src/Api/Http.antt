-- ===== src/Api/Http.antt =====
-- How a route ends, and require_permission of api/dependencies/auth.py.
use multi_cloud_ai_orchestra.Base.{
  ℕ, String, List, [], ◌∷◌, Method, Result, ok, raised, map, fstring, join, if◌then◌else◌,
}
use multi_cloud_ai_orchestra.Domain.User.{
  Permission, deployment_create, deployment_read, deployment_approve, deployment_cancel,
  deployment_rollback, drift_scan, drift_read, drift_remediate, user_manage, system_admin, User,
  has_any_permission,
}

-- An HTTPException, or an exception that no handler catches, which the client sees as status 500.
pub data HttpError : Type 0 where
  http_exception : (status_code : ℕ) (detail : String) → HttpError
  uncaught : HttpError

abbrev pub status_of_error : HttpError → ℕ
status_of_error (http_exception status_code detail) = status_code
status_of_error uncaught = 500

abbrev pub Handler : Type 0 → Type 0 → Type 0
Handler S A = Method HttpError S A

abbrev pub caught : {E A : Type 0} → (E → HttpError) → Result E A → Result HttpError A
caught except (ok a) = ok a
caught except (raised e) = raised (except e)

-- `try: ...` around a service call, with the `except` clauses as a function.
unfoldable pub catching : {E S A : Type 0} → (E → HttpError) → Method E S A → Handler S A
catching except call s = let (r, s') = call s in (caught except r, s')

-- Permission.value
unfoldable pub permission_value : Permission → String
permission_value deployment_create = "deployment:create"
permission_value deployment_read = "deployment:read"
permission_value deployment_approve = "deployment:approve"
permission_value deployment_cancel = "deployment:cancel"
permission_value deployment_rollback = "deployment:rollback"
permission_value drift_scan = "drift:scan"
permission_value drift_read = "drift:read"
permission_value drift_remediate = "drift:remediate"
permission_value user_manage = "user:manage"
permission_value system_admin = "system:admin"

-- Python's text of a list of texts that have no quotes in them.
unfoldable pub quoted : List String → String
quoted texts = fstring ("[" ∷ join ", " (map (λ t. fstring ("'" ∷ t ∷ "'" ∷ [])) texts) ∷ "]" ∷ [])

unfoldable pub forbidden : List Permission → HttpError
forbidden permissions = http_exception 403 (
    fstring
      ("Insufficient permissions. Required: " ∷ quoted (map permission_value permissions) ∷ []))

-- check_permissions, which FastAPI runs before the body of a route.
unfoldable pub require_permission : {S : Type 0} → List Permission → User → Handler S User
require_permission permissions user s =
    (if has_any_permission user permissions then ok user else raised (forbidden permissions), s)
