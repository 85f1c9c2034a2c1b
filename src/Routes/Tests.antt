-- ===== src/Routes/Tests.antt =====
-- A request through the router at concrete values.
use node_jwt_redis_session_a.Base.{codes, ◌≡◌, ◌<◌, refl, some, arith}
use node_jwt_redis_session_a.Platform.Sample.{platform}
use node_jwt_redis_session_a.Platform.Scene.{world}
use node_jwt_redis_session_a.Account.{UserPublic, admin, to_public_user}
use node_jwt_redis_session_a.Platform.{on_redis, on_postgres, write_log}
use node_jwt_redis_session_a.Http.{
  authentication, authenticate_header, authenticate_token, find_session, check_session,
  split_spaces, get_users_me, reply, profile_payload,
}
use node_jwt_redis_session_a.Routes.{
  serve, limited, create_redis_rate_limiter, Route, default_rate_limits, get_method, create_router,
  find_route, routes,
}
use node_jwt_redis_session_a.Sessions
use node_jwt_redis_session_a.Sessions.{session_key, user_sessions_key}
use node_jwt_redis_session_a.Tokens.{verify_access_token, get_secret, read_claims, role_text}
use node_jwt_redis_session_a.Redis.Client.{request}
use node_jwt_redis_session_a.Profiles.{
  get_user_profile_of, read_cached_profile, cached_or_found, found_profile,
}
use node_jwt_redis_session_a.Cache.{get_user_profile, set_user_profile, profile_key}
use node_jwt_redis_session_a.Users
use node_jwt_redis_session_a.Postgres.{query}
use node_jwt_redis_session_a.Routes.Sample.{limiter, matching, bearer_request}
use node_jwt_redis_session_a.Routes.Secured.{Passed, create_router-Passed}

abbrev me : Route platform limiter
me = record { method = get_method; path = codes "/users/me"; handle = get_users_me platform }

abbrev profile : UserPublic
profile = record {
  id = codes "u";
  name = codes "Ada";
  username = codes "ada";
  email = codes "a@b";
  role = admin;
}

me_found :
    find_route platform limiter matching get_method
      (codes "/users/me")
      (routes platform limiter default_rate_limits)
    ≡ some me
unfolding find_route routes
me_found = refl

me_answered :
    (create_router platform limiter default_rate_limits matching get_method
      (codes "/users/me")
      bearer_request
      world).0
    ≡ some (reply 200 (profile_payload profile))
unfolding create_router find_route routes serve limited create_redis_rate_limiter on_redis
    get_users_me authentication authenticate_header authenticate_token find_session check_session
    split_spaces Sessions.get session_key user_sessions_key verify_access_token get_secret
    read_claims role_text request get_user_profile_of read_cached_profile get_user_profile
    profile_key cached_or_found found_profile write_log Users.find_by_id query on_postgres
    set_user_profile to_public_user
me_answered = refl

low : 200 < 400
low = omega arith

create_router-Passed_example : Passed platform limiter default_rate_limits bearer_request world
create_router-Passed_example =
    create_router-Passed platform limiter default_rate_limits matching get_method
      (codes "/users/me") bearer_request world me (reply 200 (profile_payload profile)) me_found
      refl me_answered low
