-- ===== src/Auth.antt =====
-- src/services/AuthService.ts: login, refresh and logout.
pub mod Refreshing
pub mod Renewing
pub mod Opening
pub mod Starting
pub mod Login
pub mod Deleted
pub mod Rejecting
pub mod Counting
pub mod Guessing
pub mod Pace
pub mod Pacing
mod Tests
mod Trials
use node_jwt_redis_session_a.Base.{
  Text, codes, ℕ, ◌+◌, ◌*◌, Bool, true, false, Option, none, some, Exec, Done, pure, throw, catch,
  lift, ◌>>=◌, ◌>>◌, some_text,
}
use node_jwt_redis_session_a.Errors.{Failure, app, validation, unauthorized, conflict}
use node_jwt_redis_session_a.Account.{UserRecord, UserPublic, to_public_user}
use node_jwt_redis_session_a.Sessions
use node_jwt_redis_session_a.Sessions.{
  SessionRecord, RotateOutcome, rotated, concurrent, reused, missing, session_idle_ttl_seconds,
  session_absolute_ttl_seconds,
}
use node_jwt_redis_session_a.Tokens.{
  RefreshTokenPair, SplitRefreshToken, sign_access_token, generate_refresh_token,
  hash_refresh_validator, split_refresh_token, refresh_token,
}
use node_jwt_redis_session_a.Throttle.{assert_not_throttled, record_failure, reset}
use node_jwt_redis_session_a.Users
use node_jwt_redis_session_a.Cache.{set_user_profile, default_ttl_seconds}
use node_jwt_redis_session_a.Validation.{Body}
use node_jwt_redis_session_a.Validation.Schemas.{LoginInput, parse_login}
use node_jwt_redis_session_a.Platform.{
  Platform, World, on_redis, on_postgres, gets, random_uuid, random_bytes, write_log,
}

abbrev pub dummy_password_hash : Text
dummy_password_hash = codes "$2b$12$N8DZ7uzc8TAyWiPvYcdXoOWfKC0ALogP42AwN.hdaE9tXoaZqYWUu"

pub record LoginResult : Type 0 where
  pub access_token : Text
  pub refresh : Text
  pub account : UserPublic

pub record RefreshResult : Type 0 where
  pub access_token : Text
  pub refresh : Text

abbrev pub invalid_credentials : Failure
invalid_credentials = app (unauthorized "Invalid credentials.")

abbrev pub invalid_refresh_token : Failure
invalid_refresh_token = app (unauthorized "Invalid refresh token.")

abbrev pub session_required : Failure
session_required = app (unauthorized "Session is required.")

-- `user?.passwordHash ?? DUMMY_PASSWORD_HASH`
abbrev pub hash_or_dummy : Option UserRecord → Text
hash_or_dummy none = dummy_password_hash
hash_or_dummy (some u) = u.password_hash

-- The session record that a login stores.
unfoldable pub new_session : UserRecord → Text → ℕ → SessionRecord
new_session u hash now = record {
  user_id = u.id;
  role = u.role;
  refresh_token_hash = hash;
  previous_refresh_token_hash = none;
  rotated_at = none;
  created_at = now;
  expires_at = now + session_idle_ttl_seconds * 1000;
  absolute_expires_at = now + session_absolute_ttl_seconds * 1000;
}

module _ (F : Platform) where
  -- The end of `login`, once the session is stored.
  unfoldable pub finish_login : Text → RefreshTokenPair → UserRecord → Exec (World F) LoginResult
  finish_login session_id pair u = do
    let public_user = to_public_user u
    catch (on_redis (set_user_profile F.redis F.profiles u.id public_user default_ttl_seconds))
        (λ _. write_log "Failed to cache user profile after login")
    secret ← gets (λ w. w.secret)
    signed_at ← gets (λ w. w.now)
    token ← lift (sign_access_token F.jwt secret signed_at u.id session_id u.role)
    pure (record {
      access_token = token;
      refresh = refresh_token session_id pair.validator;
      account = public_user;
    })

  unfoldable pub open_session : UserRecord → Exec (World F) LoginResult
  open_session u = do
    session_id ← random_uuid
    bytes ← random_bytes
    let pair = generate_refresh_token F.crypto bytes
    now ← gets (λ w. w.now)
    date_now ← gets (λ w. w.now)
    on_redis (Sessions.create F.redis F.sessions date_now session_id (new_session u pair.hash now))
    finish_login session_id pair u

  -- The part of `login` after the credentials are accepted.
  unfoldable pub start_session : Text → UserRecord → Exec (World F) LoginResult
  start_session username u = do
    on_redis (reset F.redis F.to_lower F.throttle username)
    open_session u

  unfoldable pub reject_login : Text → Exec (World F) LoginResult
  reject_login username = do
    on_redis (record_failure F.redis F.to_lower F.throttle username)
    throw invalid_credentials

  -- `if (!user || !passwordMatch)`
  unfoldable pub decide_login : Text → Option UserRecord → Bool → Exec (World F) LoginResult
  decide_login username none match = reject_login username
  decide_login username (some u) false = reject_login username
  decide_login username (some u) true = start_session username u

  unfoldable pub check_credentials : LoginInput → Exec (World F) LoginResult
  check_credentials input = do
    found ← on_postgres (Users.find_by_username F.postgres input.username)
    let password_match = F.bcrypt.compare input.password (hash_or_dummy found)
    decide_login input.username found password_match

  unfoldable pub login_parsed : LoginInput → Exec (World F) LoginResult
  login_parsed input = do
    on_redis (assert_not_throttled F.redis F.to_lower F.throttle input.username)
    check_credentials input

  unfoldable pub login : Body → Exec (World F) LoginResult
  login raw_input = do input ← lift (parse_login F.zod raw_input); login_parsed input

  -- The `switch` of `refresh`.
  unfoldable pub refresh_outcome :
      SplitRefreshToken
      → SessionRecord
      → UserRecord
      → RefreshTokenPair
      → RotateOutcome
      → Exec (World F) RefreshResult
  refresh_outcome split session u next rotated = do
    secret ← gets (λ w. w.secret)
    now ← gets (λ w. w.now)
    token ← lift (sign_access_token F.jwt secret now u.id split.session_id u.role)
    pure (record { access_token = token; refresh = refresh_token split.session_id next.validator })
  refresh_outcome split session u next concurrent =
      throw (app (conflict "Refresh token was already rotated by a concurrent request."))
  refresh_outcome split session u next reused = do
    write_log "Refresh token reuse detected, session revoked"
    throw invalid_refresh_token
  refresh_outcome split session u next missing = throw invalid_refresh_token

  unfoldable pub refresh_user :
      SplitRefreshToken → SessionRecord → Option UserRecord → Exec (World F) RefreshResult
  refresh_user split session none = do
    on_redis (Sessions.delete_all_for_user F.redis session.user_id)
    throw invalid_refresh_token
  refresh_user split session (some u) = do
    bytes ← random_bytes
    let next = generate_refresh_token F.crypto bytes
    now ← gets (λ w. w.now)
    outcome ← on_redis (
        Sessions.rotate F.redis F.sessions split.session_id session.user_id (record {
          presented_hash = hash_refresh_validator F.crypto split.validator;
          new_hash = next.hash;
          role = u.role;
          now = now;
        }))
    refresh_outcome split session u next outcome

  unfoldable pub refresh_session :
      SplitRefreshToken → Option SessionRecord → Exec (World F) RefreshResult
  refresh_session split none = throw invalid_refresh_token
  refresh_session split (some session) = do
    found ← on_postgres (Users.find_by_id F.postgres session.user_id)
    refresh_user split session found

  unfoldable pub refresh_split : Option SplitRefreshToken → Exec (World F) RefreshResult
  refresh_split none = throw invalid_refresh_token
  refresh_split (some split) = do
    session ← on_redis (Sessions.get F.redis F.sessions split.session_id)
    refresh_session split session

  unfoldable pub refresh_text : Option Text → Exec (World F) RefreshResult
  refresh_text none = throw (app (validation "Refresh token is required."))
  refresh_text (some raw) = refresh_split (split_refresh_token raw)

  -- A missing and an empty token are both `!rawRefreshToken`.
  unfoldable pub refresh : Option Text → Exec (World F) RefreshResult
  refresh raw_refresh_token = refresh_text (some_text raw_refresh_token)

  unfoldable pub logout_session : Option Text → Option Text → Exec (World F) Done
  logout_session (some session_id) (some user_id) =
      on_redis (Sessions.delete F.redis session_id user_id)
  logout_session _ _ = throw session_required

  unfoldable pub logout : Option Text → Option Text → Exec (World F) Done
  logout session_id user_id = logout_session (some_text session_id) (some_text user_id)

  unfoldable pub logout_user : Option Text → Exec (World F) ℕ
  logout_user (some user_id) = on_redis (Sessions.delete_all_for_user F.redis user_id)
  logout_user none = throw session_required

  unfoldable pub logout_all : Option Text → Exec (World F) ℕ
  logout_all user_id = logout_user (some_text user_id)
