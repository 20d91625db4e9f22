-- ===== src/Domain/User.antt =====
-- domain/models/user.py
pub mod Roles
use multi_cloud_ai_orchestra.Base.{
  String, Bool, true, false, not, List, [], ◌∷◌, holds, any, if◌then◌else◌,
}
use multi_cloud_ai_orchestra.Domain.Entity.{Entity}

pub data Role : Type 0 where
  admin operator viewer deployer : Role

pub data Permission : Type 0 where
  deployment_create deployment_read deployment_approve deployment_cancel deployment_rollback
        drift_scan drift_read drift_remediate user_manage system_admin :
      Permission

unfoldable pub Permission-discrete : Discrete Permission
Permission-discrete = hlevel

-- ROLE_PERMISSIONS
unfoldable pub role_permissions : Role → List Permission
role_permissions admin =
    deployment_create ∷ deployment_read ∷ deployment_approve ∷ deployment_cancel
    ∷ deployment_rollback ∷ drift_scan ∷ drift_read ∷ drift_remediate ∷ user_manage ∷ system_admin
    ∷ []
role_permissions operator =
    deployment_create ∷ deployment_read ∷ deployment_approve ∷ deployment_cancel
    ∷ deployment_rollback ∷ drift_scan ∷ drift_read ∷ drift_remediate ∷ []
role_permissions deployer = deployment_create ∷ deployment_read ∷ drift_read ∷ []
role_permissions viewer = deployment_read ∷ drift_read ∷ []

pub record User : Type 0 where
  pub entity : Entity
  pub open entity use *
  pub username : String
  pub email : String
  pub hashed_password : String
  pub role : Role
  pub tenant_id : String
  pub is_active : Bool

unfoldable pub has_permission : User → Permission → Bool
unfolding role_permissions Permission-discrete
has_permission u p =
    if not u.is_active
    then false
    else any (λ q. holds (Permission-discrete p q)) (role_permissions u.role)

unfoldable pub has_any_permission : User → List Permission → Bool
has_any_permission u permissions = any (has_permission u) permissions
