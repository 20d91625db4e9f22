-- ===== src/Api/Auth.antt =====
-- infrastructure/auth/jwt_handler.py, get_current_user of api/dependencies/auth.py and the routes of
-- api/routes/auth_routes.py. The library jose is two parameters, and so is bcrypt. The clock reads
-- seconds here. FastAPI has checked the fields of a request before a route runs.
pub mod Sessions
use multi_cloud_ai_orchestra.Base.{
  ℕ, ◌+◌, ◌*◌, String, str_eq, Bool, true, false, not, List, [], ◌∷◌, Option, none, some, Json,
  Result, ok, raised, pure, raise, raise_if, gets, modify, ◌>>=◌, ◌>>◌, if◌then◌else◌,
}
use multi_cloud_ai_orchestra.Base.Dict.{Dict, get, put}
use multi_cloud_ai_orchestra.Domain.Entity.{Ambient, Entity, Live, now, after_now, new_entity}
use multi_cloud_ai_orchestra.Domain.User.{Role, admin, operator, viewer, deployer, User}
use multi_cloud_ai_orchestra.Domain.Enums.{role_value, role_of}
use multi_cloud_ai_orchestra.Infrastructure.InMemory.{save_user, user_by_username}
use multi_cloud_ai_orchestra.Api.Http.{HttpError, http_exception, uncaught, Handler}

-- AuthSettings of config.py, as far as tokens need it.
pub record AuthSettings : Type 0 where
  pub secret_key : String
  pub algorithm : String
  pub access_token_expire_minutes : ℕ
  pub refresh_token_expire_days : ℕ

abbrev pub Claims : Type 0
Claims = Dict Json

-- A claim that has to be a text: pydantic refuses a User with another value in its place.
unfoldable pub text_of : Option Json → Option String → Result HttpError String
text_of (some (Json.str s)) default = ok s
text_of (some _) default = raised uncaught
text_of none (some s) = ok s
text_of none none = raised uncaught

abbrev pub role_or_raise : Option Role → Result HttpError Role
role_or_raise (some role) = ok role
role_or_raise none = raised uncaught

-- The store of users, and the outside world.
pub record AuthWorld : Type 0 where
  pub users : Dict User
  pub ambient : Ambient

abbrev pub Route : Type 0 → Type 0
Route A = Handler AuthWorld A

abbrev pub lift : {A : Type 0} → Result HttpError A → Route A
lift r w = (r, w)

abbrev pub role_of_result : Result HttpError String → Result HttpError Role
role_of_result (ok value) = role_or_raise (role_of value)
role_of_result (raised e) = raised e

-- `User(id=..., username=..., ...)`, whose times are two readings of the clock.
unfoldable pub user_of_claims : String → String → String → Role → String → Route User
user_of_claims id username email role tenant_id w = (
  ok (record {
    entity = record {
      id = id;
      created_at = now w.ambient;
      updated_at = now (after_now w.ambient);
      version = 1;
    };
    username = username;
    email = email;
    hashed_password = "";
    role = role;
    tenant_id = tenant_id;
    is_active = true;
  }),
  record w { ambient = after_now (after_now w.ambient) },
)

-- `payload.get("type") != "access"`
unfoldable pub is_access : Option Json → Bool
is_access (some (Json.str type)) = str_eq type "access"
is_access _ = false

pub record RegisterRequest : Type 0 where
  pub username : String
  pub email : String
  pub password : String
  pub role : Role
  pub tenant_id : String

pub record LoginRequest : Type 0 where
  pub username : String
  pub password : String

pub record TokenResponse : Type 0 where
  pub access_token : String
  pub refresh_token : String
  pub token_type : String
  pub expires_in : ℕ

pub record UserResponse : Type 0 where
  pub id : String
  pub username : String
  pub email : String
  pub role : Role
  pub tenant_id : String
  pub is_active : Bool

unfoldable pub user_response : User → UserResponse
user_response u = record {
  id = u.id;
  username = u.username;
  email = u.email;
  role = u.role;
  tenant_id = u.tenant_id;
  is_active = u.is_active;
}

-- The user is what get_current_user returned.
unfoldable get_me : User → UserResponse
unfolding user_response
get_me user = user_response user

abbrev pub found_user : Option User → Route User
found_user (some u) = pure u
found_user none = raise (http_exception 401 "Invalid credentials")

abbrev pub is_some : Option User → Bool
is_some (some u) = true
is_some none = false

-- The `payload` of create_access_token, and of create_refresh_token.
abbrev pub access_claims : String → String → String → ℕ → Claims
access_claims subject role tenant_id expire =
    ("sub", Json.str subject)
    ∷ ("role", Json.str role)
    ∷ ("tenant_id", Json.str tenant_id)
    ∷ ("exp", Json.num expire)
    ∷ ("type", Json.str "access")
    ∷ []

abbrev pub refresh_claims : String → ℕ → Claims
refresh_claims subject expire =
    ("sub", Json.str subject) ∷ ("exp", Json.num expire) ∷ ("type", Json.str "refresh") ∷ []

-- `encode` and `decode` are jose's, by key and algorithm. `decode` reads the clock, to compare it with
-- the claim `exp`; it is `none` on a JWTError.
-- `hash` and `verify` are bcrypt's `hashpw` with a new salt and `checkpw`.
module _ (encode : Claims → String → String → String)
    (decode : String → String → String → ℕ → Option Claims) (hash : String → String)
    (verify : String → String → Bool) (settings : AuthSettings) where
  -- JWTHandler.create_access_token, without `extra`, which the program never gives
  unfoldable pub create_access_token : String → String → String → Route String
  create_access_token subject role tenant_id w = (
    ok (
        encode
          (access_claims subject role tenant_id
            (now w.ambient + settings.access_token_expire_minutes * 60))
          settings.secret_key settings.algorithm),
    record w { ambient = after_now w.ambient },
  )

  unfoldable pub create_refresh_token : String → Route String
  create_refresh_token subject w = (
    ok (
        encode (refresh_claims subject (now w.ambient + settings.refresh_token_expire_days * 86400))
          settings.secret_key settings.algorithm),
    record w { ambient = after_now w.ambient },
  )

  -- The `except` clause of decode_token, and what get_current_user makes of it; the text of jose's
  -- error is left out.
  unfoldable pub decoded : Option Claims → Result HttpError Claims
  decoded none = raised (http_exception 401 "Invalid token")
  decoded (some payload) = ok payload

  -- decode_token, in which jose reads the clock
  unfoldable pub decode_token : String → Route Claims
  unfolding decoded
  decode_token token w = (
    decoded (decode token settings.secret_key settings.algorithm (now w.ambient)),
    record w { ambient = after_now w.ambient },
  )

  -- get_current_user
  unfoldable pub get_current_user : String → Route User
  get_current_user token = do
    payload ← decode_token token
    raise_if (not (is_access (get "type" payload))) (http_exception 401 "Invalid token type")
    id ← lift (text_of (get "sub" payload) none)
    username ← lift (text_of (get "username" payload) (some id))
    email ← lift (text_of (get "email" payload) (some ""))
    role ← lift (role_of_result (text_of (get "role" payload) (some "viewer")))
    tenant_id ← lift (text_of (get "tenant_id" payload) (some "default"))
    user_of_claims id username email role tenant_id

  -- `User(...)` of register
  unfoldable pub new_user : RegisterRequest → Route User
  new_user request w =
      let (entity, a) = new_entity w.ambient in
      (
        ok (record {
          entity = entity;
          username = request.username;
          email = request.email;
          hashed_password = hash request.password;
          role = request.role;
          tenant_id = request.tenant_id;
          is_active = true;
        }),
        record w { ambient = a },
      )

  unfoldable pub register : RegisterRequest → Route UserResponse
  register request = do
    existing ← gets (λ w. user_by_username request.username w.users)
    raise_if (is_some existing) (http_exception 409 "Username already exists")
    user ← new_user request
    modify (λ w. record w { users = save_user user w.users })
    pure (user_response user)

  unfoldable pub login : LoginRequest → Route TokenResponse
  login request = do
    found ← gets (λ w. user_by_username request.username w.users)
    user ← found_user found
    raise_if (not (verify request.password user.hashed_password))
        (http_exception 401 "Invalid credentials")
    access_token ← create_access_token user.id (role_value user.role) user.tenant_id
    refresh_token ← create_refresh_token user.id
    pure (record {
      access_token = access_token;
      refresh_token = refresh_token;
      token_type = "bearer";
      expires_in = settings.access_token_expire_minutes * 60;
    })
