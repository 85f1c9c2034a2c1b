-- ===== src/Routes.antt =====
-- src/routes.ts: the routes under /v1 and the limiters before them. The matching of paths is
-- Express's.
mod Limits
pub mod Statuses
pub mod Handlers
pub mod Documented
pub mod Secured
pub mod Sample
mod Tests
use node_jwt_redis_session_a.Base.{
  Text, codes, ℕ, ◌*◌, ◌++◌, Bool, true, false, ◌&&◌, Option, none, some, List, [], ◌∷◌, String,
  Exec, Result, ok, err, if◌then◌else◌,
}
use node_jwt_redis_session_a.Errors.{Failure}
use node_jwt_redis_session_a.Redis.{Redis}
use node_jwt_redis_session_a.Redis.Client.{Client}
use node_jwt_redis_session_a.Validation.{Body, object, array_body, no_body, Value, member}
use node_jwt_redis_session_a.Guards.{refresh_token_session_key}
use node_jwt_redis_session_a.Platform.{Platform, World, on_redis}
use node_jwt_redis_session_a.Failing.{Fails, Foreign}
use node_jwt_redis_session_a.Http.{
  Request, Response, error_payload, error_handler, post_users, post_login, post_auth_refresh,
  post_logout, post_logout_all, get_users_me, get_admin_users,
}
unfoldable pub use Limits.{create_redis_rate_limiter, limited}
pub use Limits.{
  RateLimitPolicy, RateLimitConfig, default_rate_limits, RateLimit, Overrides, Limiter,
  default_window_ms, default_max_attempts, refresh_token_of, session_key_of, too_many_response,
  login_rate_limiter, refresh_rate_limiter, api_rate_limiter, Handler, admit,
}

-- Express's matching of a request's path against a route's.
abbrev pub Matching : Type 0
Matching = Text → Text → Bool

pub data Method : Type 0 where
  get_method post_method head_method other_method : Method

-- Express lets a GET route serve HEAD requests.
abbrev pub serves : Method → Method → Bool
serves get_method get_method = true
serves get_method head_method = true
serves post_method post_method = true
serves _ _ = false

module _ (F : Platform) (L : RateLimit F.redis) where
  pub record Route : Type 0 where
    pub method : Method
    pub path : Text
    pub handle : Handler F L

  -- The calls of `router.get` and `router.post`, in order.
  unfoldable pub routes : RateLimitConfig → List Route
  routes limits =
      record { method = post_method; path = codes "/users"; handle = post_users F }
      ∷ record {
        method = post_method;
        path = codes "/login";
        handle = limited F L (login_rate_limiter limits) (post_login F);
      }
      ∷ record {
        method = post_method;
        path = codes "/auth/refresh";
        handle = limited F L (refresh_rate_limiter limits) (post_auth_refresh F);
      }
      ∷ record { method = post_method; path = codes "/auth/logout"; handle = post_logout F }
      ∷ record { method = post_method; path = codes "/auth/logout-all"; handle = post_logout_all F }
      ∷ record { method = get_method; path = codes "/users/me"; handle = get_users_me F }
      ∷ record { method = get_method; path = codes "/admin/users"; handle = get_admin_users F }
      ∷ []

  -- The first route that takes a request.
  unfoldable pub find_route : Matching → Method → Text → List Route → Option Route
  find_route matches method path [] = none
  find_route matches method path (route ∷ rest) =
      let later = find_route matches method path rest in
      if serves route.method method && matches route.path path then some route else later

  -- The handler of `createRouter` for a request that a route takes: the limiter of every route
  -- under /v1 comes first.
  unfoldable pub serve : RateLimitConfig → Route → Handler F L
  serve limits route = limited F L (api_rate_limiter limits) route.handle

  -- A request that no route takes: it is counted, and left to Express.
  abbrev pub pass_on : Limiter → Result (Option ℕ) × World F → Option Response × World F
  pass_on limiter (ok none, w) = (none, w)
  pass_on limiter (ok (some seconds), w) = (some (too_many_response limiter.message seconds), w)
  pass_on limiter (err e, w) = let (response, w') = error_handler F e w in (some response, w')

  abbrev pub through :
      RateLimitConfig → Option Route → Request → World F → Option Response × World F
  through limits (some route) request w =
      let (response, w') = serve limits route request w in (some response, w')
  through limits none request w =
      let limiter = api_rate_limiter limits in
      pass_on limiter (
        on_redis (L.hit (limiter.prefix ++ limiter.key_of request) limiter.window_ms limiter.max) w)

  -- The router of `createRouter`; no response where it calls the next handler of the application.
  unfoldable pub create_router :
      RateLimitConfig → Matching → Method → Text → Request → World F → Option Response × World F
  create_router limits matches method path =
      through limits (find_route matches method path (routes limits))
