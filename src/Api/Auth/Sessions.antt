-- ===== src/Api/Auth/Sessions.antt =====
-- Tokens, from the login to the user that a route is given.
use multi_cloud_ai_orchestra.Base.{
  leb, if◌then◌else◌, inl, inr, Bool-cases, ℕ, ◌+◌, ◌*◌, ◌≡◌, refl, String, Bool, true, Option,
  none, some, Result, ok, raised,
}
use multi_cloud_ai_orchestra.Base.Dict.{get}
use multi_cloud_ai_orchestra.Domain.Entity.{now, after_now}
use multi_cloud_ai_orchestra.Domain.User.{Role, User}
use multi_cloud_ai_orchestra.Infrastructure.InMemory.{user_by_username}
use multi_cloud_ai_orchestra.Api.Http.{HttpError, http_exception}
use multi_cloud_ai_orchestra.Domain.Enums.{role_value, role_of-role_value}
use multi_cloud_ai_orchestra.Api.Auth.{
  access_claims, refresh_claims, AuthSettings, AuthWorld, Claims, text_of, is_access,
  user_of_claims, decoded, decode_token, get_current_user, create_access_token,
  create_refresh_token, login, LoginRequest, TokenResponse,
}

-- Who a route takes the user to be.
pub record Identity : Type 0 where
  pub id : String
  pub username : String
  pub role : Role
  pub tenant_id : String
  pub is_active : Bool

abbrev pub identity : Result HttpError User → Result HttpError Identity
identity (ok u) = ok (record {
  id = u.id;
  username = u.username;
  role = u.role;
  tenant_id = u.tenant_id;
  is_active = u.is_active;
})
identity (raised e) = raised e

abbrev pub access_of : Result HttpError TokenResponse → Option String
access_of (ok tokens) = some tokens.access_token
access_of (raised e) = none

abbrev pub refresh_of : Result HttpError TokenResponse → Option String
refresh_of (ok tokens) = some tokens.refresh_token
refresh_of (raised e) = none

module _ (encode : Claims → String → String → String)
    (decode : String → String → String → ℕ → Option Claims) (hash : String → String)
    (verify : String → String → Bool) (settings : AuthSettings) where
  -- With the same key and algorithm jose decodes what it encoded, up to the time of the claim `exp`;
  -- after it, it raises ExpiredSignatureError.
  abbrev pub IsTrusted : Claims → ℕ → Type 0
  IsTrusted c expire =
      (time : ℕ)
      → decode (encode c settings.secret_key settings.algorithm) settings.secret_key
          settings.algorithm time
        ≡ (if leb time expire then some c else none)

  abbrev token_of : Claims → String
  token_of c = encode c settings.secret_key settings.algorithm

  get_current_user-access :
      (id tenant : String) (role : Role) (expire : ℕ) (x : AuthWorld)
      → IsTrusted (access_claims id (role_value role) tenant expire) expire
      → identity
          (get_current_user encode decode hash verify settings
            (token_of (access_claims id (role_value role) tenant expire))
            x).0
        ≡ (if leb (now x.ambient) expire
            then ok (record {
              id = id;
              username = id;
              role = role;
              tenant_id = tenant;
              is_active = true;
            })
            else raised (http_exception 401 "Invalid token"))
  unfolding get_current_user decode_token decoded text_of is_access user_of_claims get
  get_current_user-access id tenant role expire x h =
      elim (Bool-cases (leb (now x.ambient) expire)) [
        | inl valid ↦ rw (h, valid, role_of-role_value role) refl
        | inr expired ↦ rw (h, expired) refl
      ]

  get_current_user-refresh :
      (id : String) (expire : ℕ) (x : AuthWorld)
      → IsTrusted (refresh_claims id expire) expire
      → (get_current_user encode decode hash verify settings
          (token_of (refresh_claims id expire))
          x).0
        ≡ raised (
            http_exception 401
              (if leb (now x.ambient) expire then "Invalid token type" else "Invalid token"))
  unfolding get_current_user decode_token decoded is_access get
  get_current_user-refresh id expire x h = elim (Bool-cases (leb (now x.ambient) expire)) [
    | inl valid ↦ rw (h, valid) refl
    | inr expired ↦ rw (h, expired) refl
  ]

  -- If jose decodes the claims that it encodes for a login until they expire and refuses them from
  -- then on, the login of a stored user whose password is verified returns two tokens. For
  -- `access_token_expire_minutes` from the login the routes take the access token for the user's
  -- identifier, role and tenant, as an active user even if the user is not active, and with the
  -- identifier for a name; later they answer it with status 401. They answer the refresh token with
  -- status 401 at any time, for its type or, after `refresh_token_expire_days`, as an invalid one.
  pub login-get_current_user :
      (request : LoginRequest) (u : User) (w : AuthWorld)
      → user_by_username request.username w.users ≡ some u
      → verify request.password u.hashed_password ≡ true
      → let expire = now w.ambient + settings.access_token_expire_minutes * 60 in
        let end = now (after_now w.ambient) + settings.refresh_token_expire_days * 86400 in
        IsTrusted (access_claims u.id (role_value u.role) u.tenant_id expire) expire
        → IsTrusted (refresh_claims u.id end) end
        → (tokens : TokenResponse) × ((login encode decode hash verify settings request w).0
            ≡ ok tokens)
          × ((x : AuthWorld)
              → identity
                  (get_current_user encode decode hash verify settings tokens.access_token x).0
                ≡ (if leb (now x.ambient) expire
                    then ok (record {
                      id = u.id;
                      username = u.id;
                      role = u.role;
                      tenant_id = u.tenant_id;
                      is_active = true;
                    })
                    else raised (http_exception 401 "Invalid token")))
          × ((x : AuthWorld)
              → (get_current_user encode decode hash verify settings tokens.refresh_token x).0
                ≡ raised (
                    http_exception 401
                      (if leb (now x.ambient) end then "Invalid token type" else "Invalid token")))
  unfolding login create_access_token create_refresh_token
  login-get_current_user request u w h k access refresh =
      rw (h, k)
        (
          _,
          refl,
          λ x. get_current_user-access u.id u.tenant_id u.role _ x access,
          λ x. get_current_user-refresh u.id _ x refresh,
        )
