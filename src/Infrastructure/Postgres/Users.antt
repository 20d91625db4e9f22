-- ===== src/Infrastructure/Postgres/Users.antt =====
-- PostgresUserRepository of infrastructure/persistence/repositories/user_repo.py. The order of texts
-- in the database is a parameter, since it is the collation's.
use multi_cloud_ai_orchestra.Base.{
  String, str_eq, Bool, List, Option, none, some, Method, pure, or_raise, ◌>>=◌, ◌>>◌,
}
use multi_cloud_ai_orchestra.Domain.Enums.{role_value, role_of}
use multi_cloud_ai_orchestra.Domain.User.{User}
use multi_cloud_ai_orchestra.Domain.Ports.{UserRepository}
use multi_cloud_ai_orchestra.Infrastructure.Postgres.{
  RepositoryError, value_error, select_where, Session, each, if_found,
}
use multi_cloud_ai_orchestra.Infrastructure.Postgres.Models.{UserOrm}

-- _to_orm
unfoldable pub user_to_orm : User → UserOrm
unfolding role_value
user_to_orm user = record {
  id = user.id;
  username = user.username;
  email = user.email;
  hashed_password = user.hashed_password;
  role = role_value user.role;
  tenant_id = user.tenant_id;
  is_active = user.is_active;
  version = user.version;
  created_at = none;
  updated_at = none;
}

-- `orm_data` of update
unfoldable pub user_values : User → UserOrm → UserOrm
user_values user orm = record orm {
  username = user.username;
  email = user.email;
  hashed_password = user.hashed_password;
  role = role_value user.role;
  is_active = user.is_active;
  version = user.version;
}

-- _to_domain
unfoldable pub user_to_domain : {S : Type 0} → UserOrm → Method RepositoryError S User
user_to_domain orm = do
  role ← or_raise (role_of orm.role) value_error
  created_at ← or_raise orm.created_at value_error
  updated_at ← or_raise orm.updated_at value_error
  pure (record {
    entity = record {
      id = orm.id;
      created_at = created_at;
      updated_at = updated_at;
      version = orm.version;
    };
    username = orm.username;
    email = orm.email;
    hashed_password = orm.hashed_password;
    role = role;
    tenant_id = orm.tenant_id;
    is_active = orm.is_active;
  })

module _ (text_order : String → String → Bool) {S : Type 0} (session : Session S UserOrm) where
  unfoldable pub save_user : User → Method RepositoryError S User
  save_user user = do session.add (user_to_orm user); pure user

  unfoldable pub user_by_id : String → Method RepositoryError S (Option User)
  user_by_id user_id = do
    orm ← session.scalar_one_or_none (select_where (λ r. str_eq r.id user_id))
    if_found user_to_domain orm

  unfoldable pub user_by_username : String → Method RepositoryError S (Option User)
  user_by_username username = do
    orm ← session.scalar_one_or_none (select_where (λ r. str_eq r.username username))
    if_found user_to_domain orm

  unfoldable pub users_by_tenant : String → Method RepositoryError S (List User)
  users_by_tenant tenant_id = do
    rows ← session.scalars (record (select_where (λ r. str_eq r.tenant_id tenant_id)) {
      order_by = some (λ r s. text_order r.username s.username);
    })
    each user_to_domain rows

  unfoldable pub update_user : User → Method RepositoryError S User
  update_user user = do session.update (λ r. str_eq r.id user.id) (user_values user); pure user

  -- The port that the class fills.
  abbrev pub user_repository : UserRepository RepositoryError S
  user_repository = record {
    save = save_user;
    get_by_id = user_by_id;
    get_by_username = user_by_username;
    list_by_tenant = users_by_tenant;
    update = update_user;
  }
