-- ===== src/Http/Tests.antt =====
-- Requests at concrete values.
use node_jwt_redis_session_a.Base.{
  Text, codes, ◌++◌, ◌≤◌, true, ◌≡◌, ◌≢◌, refl, some, [], ok, arith, contains,
}
use node_jwt_redis_session_a.Account.{admin}
use node_jwt_redis_session_a.Tokens.{
  AccessTokenPayload, sign_request, verify_access_token, get_secret, read_claims, role_text,
}
use node_jwt_redis_session_a.Tokens.Sample.{jwt}
use node_jwt_redis_session_a.Validation.{no_body, member}
use node_jwt_redis_session_a.Platform.{World, on_redis, on_postgres}
use node_jwt_redis_session_a.Platform.Sample.{platform}
use node_jwt_redis_session_a.Platform.Scene.{world, secret, stored}
use node_jwt_redis_session_a.Http.{
  Request, authentication, authenticate_header, authenticate_token, find_session, check_session,
  split_spaces, get_admin_users, list_as, require_role,
}
use node_jwt_redis_session_a.Http.Access.{Authenticated, authentication-ok}
use node_jwt_redis_session_a.Http.Revoked.{
  logout-authentication, logout_all-authentication, get_admin_users-admin,
}
use node_jwt_redis_session_a.Auth.{logout, logout_session, logout_all, logout_user}
use node_jwt_redis_session_a.Sessions.{
  get, delete, delete_all_for_user, delete_all_script, delete_each, exec_or_throw, first_error,
  session_key, user_sessions_key,
}
use node_jwt_redis_session_a.Redis.Client.{request, exec, run_queue}
use node_jwt_redis_session_a.Profiles.{list_users}
use node_jwt_redis_session_a.Validation.Schemas.{parse_page_query}
use node_jwt_redis_session_a.Users.{list_paginated, order_rows, insert_row}
use node_jwt_redis_session_a.Postgres.{query}
use node_jwt_redis_session_a.Redis.{has}
use node_jwt_redis_session_a.Redis.Sample.{sample}
use node_jwt_redis_session_a.Sessions.Views.{index_at}

abbrev token : Text
token = jwt.sign (sign_request (codes "u") (codes "t") admin secret) 1

-- A request with the access token of the session "t".
abbrev bearer_request : Request
bearer_request = record {
  authorization = some (codes "Bearer " ++ token);
  body = no_body;
  query = [];
  ip = codes "10.0.0.1";
}

abbrev caller : AccessTokenPayload
caller = record { subject = codes "u"; session_id = codes "t"; role = codes "admin" }

caller_passes : (authentication platform bearer_request world).0 ≡ ok caller
unfolding user_sessions_key authentication authenticate_header authenticate_token find_session
    check_session split_spaces on_redis get session_key verify_access_token get_secret read_claims
    role_text request
caller_passes = refl

authentication-ok_example : Authenticated platform world bearer_request caller
authentication-ok_example = authentication-ok platform bearer_request world caller caller_passes

abbrev logged_out : World platform
logged_out = (logout platform (some (codes "s")) (some (codes "u")) world).1

logged_out_passes : (authentication platform bearer_request logged_out).0 ≡ ok caller
unfolding authentication authenticate_header authenticate_token find_session check_session
    split_spaces on_redis get session_key verify_access_token get_secret read_claims role_text
    request logout logout_session delete exec_or_throw exec run_queue first_error user_sessions_key
logged_out_passes = refl

logout_works : (logout platform (some (codes "s")) (some (codes "u")) world).0 ≡ ok tt
unfolding logout logout_session delete exec_or_throw exec run_queue first_error user_sessions_key
    on_redis request session_key
logout_works = refl

logged_out_clock : 1000 ≤ logged_out.client.clock
unfolding logout logout_session delete exec_or_throw exec run_queue first_error user_sessions_key
    on_redis request
logged_out_clock = omega arith

logout-authentication_example : codes "t" ≢ codes "s"
logout-authentication_example =
    logout-authentication platform (codes "s") (codes "u") world logged_out bearer_request caller
      logout_works refl logged_out_clock logged_out_passes

abbrev all_out : World platform
all_out = (logout_all platform (some (codes "u")) world).1

all_out_passes : (authentication platform bearer_request all_out).0 ≡ ok caller
unfolding authentication authenticate_header authenticate_token find_session check_session
    split_spaces on_redis get session_key verify_access_token get_secret read_claims role_text
    request logout_all logout_user delete_all_for_user delete_all_script delete_each
    user_sessions_key contains
all_out_passes = refl

all_out_clock : 1000 ≤ all_out.client.clock
unfolding logout_all logout_user delete_all_for_user delete_all_script delete_each user_sessions_key
    contains on_redis request
all_out_clock = omega arith

indexed : has (index_at sample stored 1000 (codes "u")) (codes "s") ≡ true
unfolding user_sessions_key session_key contains
indexed = refl

u_ne : codes "u" ≢ []
u_ne h = cc

logout_all-authentication_example : codes "t" ≢ codes "s"
logout_all-authentication_example =
    logout_all-authentication platform (codes "u") (codes "s") world all_out bearer_request caller
      u_ne refl indexed refl all_out_clock all_out_passes

admin_sees : (get_admin_users platform bearer_request world).0.status ≡ 200
unfolding user_sessions_key get_admin_users list_as require_role authentication authenticate_header
    authenticate_token find_session check_session split_spaces on_redis get session_key
    verify_access_token get_secret read_claims role_text request list_users parse_page_query member
    list_paginated order_rows insert_row query on_postgres
admin_sees = refl

get_admin_users-admin_example :
    (p : AccessTokenPayload) × ((authentication platform bearer_request world).0 ≡ ok p)
    × (p.role ≡ codes "admin")
get_admin_users-admin_example = get_admin_users-admin platform bearer_request world admin_sees
