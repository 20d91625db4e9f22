-- ===== src/Domain/User/Roles.antt =====
-- The order of the roles, and who may do what.
use multi_cloud_ai_orchestra.Base.{ℕ, ◌≤◌, ◌≡◌, true, List, [], ◌∷◌, arith, leb, ◌&&◌}
use multi_cloud_ai_orchestra.Domain.User.{
  Role, admin, operator, viewer, deployer, Permission, deployment_approve, User, has_permission,
  has_any_permission,
}

abbrev pub rank : Role → ℕ
rank viewer = 0
rank deployer = 1
rank operator = 2
rank admin = 3

abbrev pub with_role : Role → User → User
with_role r u = record u { role = r }

has_permission_mono :
    (u : User) (r q : Role) (p : Permission)
    → rank r ≤ rank q
    → has_permission (with_role r u) p ≡ true
    → has_permission (with_role q u) p ≡ true
unfolding has_permission
has_permission_mono u r q p h k = ground arith

grows :
    (u : User) (r q : Role) (ps : List Permission)
    → rank r ≤ rank q
    → has_any_permission (with_role r u) ps ≡ true
    → has_any_permission (with_role q u) ps ≡ true
unfolding has_any_permission
grows u r q [] h k = k
grows u r q (p ∷ ps) h k = ground (arith, has_permission_mono u r q p h, grows u r q ps h)

-- A user as it is when it is active.
abbrev pub activated : User → User
activated u = record u { is_active = true }

has_any_permission-active :
    (u : User) (ps : List Permission)
    → has_any_permission u ps ≡ (u.is_active && has_any_permission (activated u) ps)
unfolding has_any_permission has_permission
has_any_permission-active u [] = ground arith
has_any_permission-active u (p ∷ ps) = ground (arith, has_any_permission-active u ps)

approvers :
    (u : User) (r : Role)
    → has_any_permission (with_role r u) (deployment_approve ∷ []) ≡ (u.is_active && leb 2 (rank r))
unfolding has_any_permission has_permission
approvers u r = ground arith

-- The permissions of a user grow along VIEWER, DEPLOYER, OPERATOR, ADMIN: a check of any list of
-- permissions that a user passes is passed by the same user with a higher role. Every check is
-- passed only by active users, and DEPLOYMENT_APPROVE exactly by active OPERATORs and ADMINs.
pub has_any_permission_mono :
    (u : User) (r q : Role) (ps : List Permission)
    → rank r ≤ rank q
    → has_any_permission (with_role r u) ps ≡ true
    → (has_any_permission (with_role q u) ps ≡ true)
      × (has_any_permission (with_role r u) ps
          ≡ (u.is_active && has_any_permission (activated (with_role r u)) ps))
      × (has_any_permission (with_role r u) (deployment_approve ∷ [])
          ≡ (u.is_active && leb 2 (rank r)))
has_any_permission_mono u r q ps h k =
    (grows u r q ps h k, has_any_permission-active (with_role r u) ps, approvers u r)
