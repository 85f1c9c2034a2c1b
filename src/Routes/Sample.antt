-- ===== src/Routes/Sample.antt =====
-- A limiter that meets the law of the interface, a matching of paths, and limits.
use node_jwt_redis_session_a.Base.{
  Text, codes, Option, none, some, [], ◌∷◌, ◌===◌, ◌==◌, if◌then◌else◌, ok, ◌++◌,
}
use node_jwt_redis_session_a.Redis.Sample.{sample}
use node_jwt_redis_session_a.Routes.{RateLimit, Matching}
use node_jwt_redis_session_a.Account.{admin}
use node_jwt_redis_session_a.Tokens.{sign_request}
use node_jwt_redis_session_a.Tokens.Sample.{jwt}
use node_jwt_redis_session_a.Validation.{no_body}
use node_jwt_redis_session_a.Platform.Scene.{secret}
use node_jwt_redis_session_a.Http.{Request}

-- It admits every request.
abbrev pub limiter : RateLimit sample
limiter = record {
  hit = λ key window_ms limit c. (ok none, c);
  hit-Fails = λ key window_ms limit c. tt;
}

abbrev pub matching : Matching
matching pattern path = pattern === path

-- The rest of a path under a prefix.
abbrev pub under : Text → Text → Option Text
under [] path = some path
under (c ∷ prefix) [] = none
under (c ∷ prefix) (d ∷ path) = let rest = under prefix path in if c == d then rest else none

-- A request with the access token of the session "t".
abbrev pub bearer_request : Request
bearer_request = record {
  authorization =
      some (codes "Bearer " ++ jwt.sign (sign_request (codes "u") (codes "t") admin secret) 1);
  body = no_body;
  query = [];
  ip = codes "10.0.0.1";
}
