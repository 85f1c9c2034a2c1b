-- ===== src/Auth/Tests.antt =====
-- A refresh at concrete values.
use node_jwt_redis_session_a.Base.{
  Text, codes, ◌≡◌, refl, some, ok, index_of, trim, trim_start, ◌∷◌, [],
}
use node_jwt_redis_session_a.Account.{admin, to_public_user}
use node_jwt_redis_session_a.Sessions.{
  session_key, get, rotate, rotate_script, rotate_raw, rotate_session, user_sessions_key, create,
  exec_or_throw, first_error,
}
use node_jwt_redis_session_a.Tokens.Sample.{jwt}
use node_jwt_redis_session_a.Tokens.{
  sign_request, split_refresh_token, hash_refresh_validator, generate_refresh_token, get_secret,
  refresh_token, role_text, sign_access_token, SplitRefreshToken,
}
use node_jwt_redis_session_a.Platform.Sample.{platform}
use node_jwt_redis_session_a.Auth.{
  RefreshResult, refresh, new_session, refresh_text, refresh_split, refresh_session, refresh_user,
  refresh_outcome, LoginResult, login, login_parsed, check_credentials, decide_login, start_session,
  open_session, finish_login,
}
use node_jwt_redis_session_a.Auth.Refreshing.{refresh-ok}
use node_jwt_redis_session_a.Auth.Renewing.{Refreshed}
use node_jwt_redis_session_a.Platform.{
  on_redis, on_postgres, random_bytes, write_log, random_uuid, World,
}
use node_jwt_redis_session_a.Redis.Client.{request, exec, run_queue}
use node_jwt_redis_session_a.Users.{find_by_id, find_by_username}
use node_jwt_redis_session_a.Postgres.{query}
use node_jwt_redis_session_a.Platform.Scene.{secret, world, account, session, stored}
use node_jwt_redis_session_a.Validation.Schemas.{LoginInput, parse_login}
use node_jwt_redis_session_a.Validation.{Body, object, text, parse_or_throw, member}
use node_jwt_redis_session_a.Auth.Login.{LoggedIn, login-ok}
use node_jwt_redis_session_a.Throttle.{
  reset, assert_not_throttled, failures_key, lock_key, normalize,
}
use node_jwt_redis_session_a.Cache.{set_user_profile, profile_key}
use node_jwt_redis_session_a.Auth.Deleted.{Denied, refresh-Denied}
use node_jwt_redis_session_a.Sessions.Views.{raw_at, Holds}
use node_jwt_redis_session_a.Sessions.Sample.{codec, decode-encode}
use node_jwt_redis_session_a.Redis.Sample.{sample}

abbrev answer : RefreshResult
answer = record {
  access_token = jwt.sign (sign_request (codes "u") (codes "s") admin secret) 1;
  refresh = codes "s.ww";
}

refresh_works : (refresh platform (some (codes "s.v")) world).0 ≡ ok answer
unfolding refresh session_key refresh_text refresh_split refresh_session refresh_user
    refresh_outcome on_redis on_postgres random_bytes write_log get rotate rotate_script rotate_raw
    rotate_session user_sessions_key split_refresh_token hash_refresh_validator
    generate_refresh_token get_secret refresh_token role_text sign_access_token request find_by_id
    query index_of
refresh_works = refl

refresh-ok_example :
    (raw : Text) × (some (codes "s.v") ≡ some raw)
    × Refreshed platform world raw (refresh platform (some (codes "s.v")) world).1 answer
refresh-ok_example = refresh-ok platform (some (codes "s.v")) world answer refresh_works

abbrev credentials : Body
credentials =
    object ((codes "username", text (codes "ada")) ∷ (codes "password", text (codes "pw")) ∷ [])

abbrev granted : LoginResult
granted = record {
  access_token = jwt.sign (sign_request (codes "u") (codes "t") admin secret) 1;
  refresh = codes "t.ww";
  account = to_public_user account;
}

login_works : (login platform credentials world).0 ≡ ok granted
unfolding new_session login login_parsed check_credentials decide_login start_session open_session
    finish_login parse_login parse_or_throw member to_public_user reset assert_not_throttled
    failures_key lock_key normalize create exec_or_throw first_error exec run_queue find_by_username
    set_user_profile profile_key random_uuid trim trim_start on_redis on_postgres random_bytes
    write_log request query generate_refresh_token hash_refresh_validator get_secret
    sign_access_token refresh_token role_text session_key user_sessions_key
login_works = refl

login-ok_example :
    (input : LoginInput) × (parse_login platform.zod credentials ≡ ok input)
    × LoggedIn platform world input (login platform credentials world).1 granted
login-ok_example = login-ok platform credentials world granted login_works

-- The table without its only user.
abbrev deserted : World platform
deserted = record world { pool = record { db = []; faults = [] } }

abbrev split : SplitRefreshToken
split = record { session_id = codes "s"; validator = codes "v" }

raw_splits : split_refresh_token (codes "s.v") ≡ some split
unfolding split_refresh_token index_of
raw_splits = refl

stored_raw : raw_at sample stored 1000 (codes "s") ≡ some (codec.stringify session)
unfolding session_key user_sessions_key
stored_raw = refl

stored_Holds : Holds sample codec stored 1000 (codes "s") session
stored_Holds = record {
  raw = codec.stringify session;
  stored = stored_raw;
  decoded = decode-encode session;
  parsed = decode-encode session;
}

refresh-Denied_example :
    Denied platform split session (refresh platform (some (codes "s.v")) deserted) 1000 stored
refresh-Denied_example =
    refresh-Denied platform split session (codes "s.v") deserted refl refl raw_splits stored_Holds
      refl
