-- ===== src/Http.antt =====
-- src/middleware/ and src/controllers/: from a request to its response, behind the rate limiters.
pub mod Access
pub mod Revoked
mod Tests
use node_jwt_redis_session_a.Base.{
  Text, codes, ℕ, Bool, true, false, Option, none, some, List, [], ◌∷◌, ◌===◌, if◌then◌else◌, Exec,
  Result, ok, err, Done, pure, throw, lift, ◌>>=◌, ◌>>◌, String, ◌==◌, some_text, leb, ltb, ◌&&◌,
  ◌++◌, take, index_of,
}
use node_jwt_redis_session_a.Errors.{
  Failure, js_error, AppError, app, unauthorized, forbidden, too_many_requests, status_code,
  message,
}
use node_jwt_redis_session_a.Account.{UserPublic, UserRole, admin}
use node_jwt_redis_session_a.Sessions
use node_jwt_redis_session_a.Sessions.{SessionRecord}
use node_jwt_redis_session_a.Tokens.{AccessTokenPayload, verify_access_token, role_text}
use node_jwt_redis_session_a.Validation.{
  Body, object, array_body, no_body, Value, text, truthy, member,
}
use node_jwt_redis_session_a.Auth.{LoginResult, RefreshResult, login, refresh, logout, logout_all}
use node_jwt_redis_session_a.Profiles.{
  ListUsersResult, create_user, get_user_profile_of, list_users,
}
use node_jwt_redis_session_a.Platform.{Platform, World, on_redis, gets, write_log}

-- The JSON bodies of the responses.
pub data Payload : Type 0 where
  error_payload : String → Payload
  created_payload : Text → Payload
  login_payload : LoginResult → Payload
  refresh_payload : RefreshResult → Payload
  logout_payload : Payload
  logout_all_payload : ℕ → Payload
  profile_payload : UserPublic → Payload
  list_payload : ListUsersResult → Payload
  message_payload health_payload : String → Payload
  -- `postgres` and `redis`, each "ok" or "error".
  ready_payload : String → String → Payload
  metrics_payload : Text → Payload

pub record Response : Type 0 where
  pub status : ℕ
  -- The header Retry-After.
  pub retry_after : Option ℕ
  pub payload : Payload

abbrev pub reply : ℕ → Payload → Response
reply status payload = record { status = status; retry_after = none; payload = payload }

abbrev retry_seconds : AppError → Option ℕ
retry_seconds (too_many_requests m s) = some s
retry_seconds _ = none

abbrev app_response : AppError → Response
app_response e = record {
  status = status_code e;
  retry_after = retry_seconds e;
  payload = error_payload (message e);
}

-- The request's members that the program reads: the header Authorization, the body, the query, and
-- what `ipKeyGenerator(request.ip ?? '')` of express-rate-limit gives.
pub record Request : Type 0 where
  pub authorization : Option Text
  pub body : Body
  pub query : List (Text × Value)
  pub ip : Text

-- `text.split(' ')`
abbrev with_char : ℕ → List Text → List Text
with_char c [] = (c ∷ []) ∷ []
with_char c (piece ∷ pieces) = (c ∷ piece) ∷ pieces

unfoldable pub split_spaces : Text → List Text
split_spaces [] = [] ∷ []
split_spaces (c ∷ s) =
    let pieces = split_spaces s in if c == b' ' then [] ∷ pieces else with_char c pieces

abbrev pub bearer_scheme : Text
bearer_scheme = codes "Bearer"

-- `const [scheme, token]`, where the scheme is Bearer and the token is not empty.
abbrev pub bearer_token : List Text → Option Text
bearer_token (scheme ∷ token ∷ rest) =
    if scheme === bearer_scheme then some_text (some token) else none
bearer_token _ = none

abbrev pub token_missing : Failure
token_missing = app (unauthorized "Token missing")

abbrev pub invalid_scheme : Failure
invalid_scheme = app (unauthorized "Invalid token")

abbrev pub session_revoked : Failure
session_revoked = app (unauthorized "Session expired or revoked")

-- A value as `rawRefreshToken`: what is neither a string nor false has no method `indexOf`. (An array
-- has one; an array in this place is not modelled.)
abbrev pub raw_refresh_token : Option Value → Result (Option Text)
raw_refresh_token (some (text token)) = ok (some token)
raw_refresh_token (some truthy) = err (js_error "TypeError: raw.indexOf is not a function")
raw_refresh_token _ = ok none

-- `request.body.refreshToken`, where `request.body` may be undefined.
unfoldable pub refresh_member : Body → Result (Option Text)
refresh_member no_body =
    err (js_error "TypeError: Cannot read properties of undefined (reading 'refreshToken')")
refresh_member array_body = ok none
refresh_member (object fields) = raw_refresh_token (member (codes "refreshToken") fields)

module _ (F : Platform) where
  -- `errorHandler`
  unfoldable pub error_handler : Failure → World F → Response × World F
  error_handler (app e) w = (app_response e, w)
  error_handler _ w =
      (reply 500 (error_payload "Internal server error."), (write_log "Unhandled error" w).1)

  abbrev pub settle : Result Response × World F → Response × World F
  settle (ok response, w) = (response, w)
  settle (err e, w) = error_handler e w

  -- `asyncHandler`, with the error handler behind it.
  abbrev pub async_handler : Exec (World F) Response → World F → Response × World F
  async_handler handler w = settle (handler w)

  -- `!session || session.userId !== subject`
  unfoldable pub check_session :
      AccessTokenPayload → Option SessionRecord → Result AccessTokenPayload
  check_session caller none = err session_revoked
  check_session caller (some session) =
      if session.user_id === caller.subject then ok caller else err session_revoked

  unfoldable pub find_session : AccessTokenPayload → Exec (World F) AccessTokenPayload
  find_session caller = do
    session ← on_redis (Sessions.get F.redis F.sessions caller.session_id)
    lift (check_session caller session)

  unfoldable pub authenticate_token : Option Text → Exec (World F) AccessTokenPayload
  authenticate_token none = throw invalid_scheme
  authenticate_token (some token) = do
    secret ← gets (λ w. w.secret)
    now ← gets (λ w. w.now)
    caller ← lift (verify_access_token F.jwt secret now token)
    find_session caller

  unfoldable pub authenticate_header : Option Text → Exec (World F) AccessTokenPayload
  authenticate_header none = throw token_missing
  authenticate_header (some header) = authenticate_token (bearer_token (split_spaces header))

  -- `createAuthMiddleware`; an empty header is `!authHeader` too. What it sets on the request is
  -- its result.
  unfoldable pub authentication : Request → Exec (World F) AccessTokenPayload
  authentication request = authenticate_header (some_text request.authorization)

  -- `requireRole`
  unfoldable pub require_role : UserRole → AccessTokenPayload → Exec (World F) Done
  require_role role caller =
      if caller.role === role_text role
      then pure tt
      else throw (app (forbidden "You do not have access to this resource."))

  -- CreateUserController
  unfoldable pub post_users : Request → World F → Response × World F
  post_users request =
      async_handler (do id ← create_user F request.body; pure (reply 201 (created_payload id)))

  -- LoginUserController
  unfoldable pub post_login : Request → World F → Response × World F
  post_login request =
      async_handler (do result ← login F request.body; pure (reply 200 (login_payload result)))

  -- RefreshTokenController
  unfoldable pub post_auth_refresh : Request → World F → Response × World F
  post_auth_refresh request = async_handler (do
    raw ← lift (refresh_member request.body)
    result ← refresh F raw
    pure (reply 200 (refresh_payload result)))

  -- LogoutController, behind `authentication`
  unfoldable pub post_logout : Request → World F → Response × World F
  post_logout request = async_handler (do
    caller ← authentication request
    logout F (some caller.session_id) (some caller.subject)
    pure (reply 200 logout_payload))

  -- LogoutAllController, behind `authentication`
  unfoldable pub post_logout_all : Request → World F → Response × World F
  post_logout_all request = async_handler (do
    caller ← authentication request
    revoked ← logout_all F (some caller.subject)
    pure (reply 200 (logout_all_payload revoked)))

  -- GetUserInfoController, behind `authentication`
  unfoldable pub get_users_me : Request → World F → Response × World F
  get_users_me request = async_handler (do
    caller ← authentication request
    profile ← get_user_profile_of F caller.subject
    pure (reply 200 (profile_payload profile)))

  unfoldable pub list_as : Request → AccessTokenPayload → Exec (World F) Response
  list_as request caller = do
    require_role admin caller
    result ← list_users F request.query
    pure (reply 200 (list_payload result))

  -- ListUsersController, behind `authentication` and `requireAdmin`
  unfoldable pub get_admin_users : Request → World F → Response × World F
  get_admin_users request = async_handler (authentication request >>= list_as request)
