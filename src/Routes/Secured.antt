-- ===== src/Routes/Secured.antt =====
-- The routes for which the description of the API asks for an access token.
use node_jwt_redis_session_a.Base.{
  Text, codes, ℕ, ◌≡◌, refl, ◌<◌, ◌≤◌, ap, subst, Bool, true, false, ◌++◌, Option, none, some, All,
  Exec, Result, ok, err, ◌>>=◌, bind-inv, Result-cases, inl, inr, arith,
}
use node_jwt_redis_session_a.Errors.{
  Failure, AppError, app, validation, unauthorized, forbidden, not_found, conflict,
  too_many_requests, redis_failure, postgres_failure, js_error, status_code,
}
use node_jwt_redis_session_a.Openapi.Value.{Json}
use node_jwt_redis_session_a.Openapi.{operation_at, is_secured}
use node_jwt_redis_session_a.Tokens.{AccessTokenPayload}
use node_jwt_redis_session_a.Platform.{Platform, World, on_redis}
use node_jwt_redis_session_a.Http.{
  Request, Response, authentication, async_handler, error_handler, post_logout, post_logout_all,
  get_users_me, get_admin_users, list_as,
}
use node_jwt_redis_session_a.Http.Access.{Authenticated, authentication-ok}
use node_jwt_redis_session_a.Routes.{
  create_redis_rate_limiter, RateLimit, RateLimitConfig, Matching, Method, Limiter, Handler, Route,
  routes, find_route, serve, create_router, through, admit, limited, api_rate_limiter,
}
use node_jwt_redis_session_a.Routes.Documented.{method_key, find_route-All}

abbrev secured : Option Json → Bool
secured none = false
secured (some operation) = is_secured operation

app-status : (e : AppError) → 400 ≤ status_code e
unfolding status_code
app-status (validation m) = ground arith
app-status (unauthorized m) = ground arith
app-status (forbidden m) = ground arith
app-status (not_found m) = ground arith
app-status (conflict m) = ground arith
app-status (too_many_requests m s) = ground arith

module _ (F : Platform) where
  error_handler-high : (e : Failure) (w : World F) → (error_handler F e w).0.status < 400 → ⊥
  unfolding error_handler
  error_handler-high (app e) w h = omega (arith, app-status e)
  error_handler-high (redis_failure m) w h = omega arith
  error_handler-high (postgres_failure code constraint) w h = omega arith
  error_handler-high (js_error m) w h = omega arith

  -- `authentication` lets the request through in a state, which means that its token verifies and
  -- that Redis, as it is there, holds its session.
  abbrev Admits : Request → World F → Type 0
  Admits request w =
      (p : AccessTokenPayload) × ((authentication F request w).0 ≡ ok p)
      × Authenticated F w request p

  abbrev Guarded : (Request → World F → Response × World F) → Type 0
  Guarded handler =
      (request : Request) (w : World F) → (handler request w).0.status < 400 → Admits request w

  async_handler-low :
      (m : Exec (World F) Response) (w : World F)
      → (async_handler F m w).0.status < 400
      → (r : Response) × ((m w).0 ≡ ok r)
  async_handler-low m w h = elim (Result-cases (m w).0) [
    | inl (r, e) ↦ (r, e)
    | inr (x, e) ↦ absurd (error_handler-high x (m w).1 (rw e at h))
  ]

  behind-Admits :
      (request : Request) (f : AccessTokenPayload → Exec (World F) Response) (w : World F)
      → (async_handler F (authentication F request >>= f) w).0.status < 400
      → Admits request w
  behind-Admits request f w h =
      let (r, e) = async_handler-low (authentication F request >>= f) w h in
      let (p, authenticated, rest) = bind-inv (authentication F request) f w e in
      (p, authenticated, authentication-ok F request w p authenticated)

  module _ (L : RateLimit F.redis) where
    -- The limiter of every route under /v1 counts the request by its client's address.
    abbrev pub counted : RateLimitConfig → Request → World F → Result (Option ℕ) × World F
    counted limits request =
        on_redis (L.hit (codes "rl:ip:api:" ++ request.ip) limits.api.window_ms limits.api.max)

    -- The limiter let the request through, and `authentication` lets it through in the state that
    -- the limiter left.
    abbrev pub Passed : RateLimitConfig → Request → World F → Type 0
    Passed limits request w =
        let (answer, w') = counted limits request w in (answer ≡ ok none) × Admits request w'

    admit-Admits :
        (limiter : Limiter) (handler : Handler F L) (request : Request) (r : Result (Option ℕ))
        (w : World F)
        → Guarded handler
        → (admit F L limiter handler request (r, w)).0.status < 400
        → (r ≡ ok none) × Admits request w
    admit-Admits limiter handler request (ok none) w g h = (refl, g request w h)
    admit-Admits limiter handler request (ok (some n)) w g h = absurd (omega arith)
    admit-Admits limiter handler request (err e) w g h = absurd (error_handler-high e w h)

    served-Passed :
        (limits : RateLimitConfig) (handler : Handler F L)
        → Guarded handler
        → (request : Request) (w : World F)
        → (limited F L (api_rate_limiter limits) handler request w).0.status < 400
        → Passed limits request w
    unfolding limited create_redis_rate_limiter
    served-Passed limits handler g request w h =
        let x = counted limits request w in
        admit-Admits (api_rate_limiter limits) handler request x.0 x.1 g h

    -- Whether the description asks for an access token on a route.
    abbrev pub is_secured_route : Route F L → Bool
    is_secured_route route =
        secured (operation_at (codes "/v1" ++ route.path) (method_key route.method))

    abbrev Kept : RateLimitConfig → Route F L → Type 0
    Kept limits route =
        is_secured_route route ≡ true
        → (request : Request) (w : World F) → (serve F L limits route request w).0.status < 400
        → Passed limits request w

    routes-Kept : (limits : RateLimitConfig) → All (Kept limits) (routes F L limits)
    unfolding routes serve post_logout post_logout_all get_users_me get_admin_users
    routes-Kept limits =
        let kept = λ (handler : Handler F L) (g : Guarded handler) (e : true ≡ true).
          served-Passed limits handler g in
        let out = kept (post_logout F) (λ request. behind-Admits request _) in
        let out_all = kept (post_logout_all F) (λ request. behind-Admits request _) in
        let me = kept (get_users_me F) (λ request. behind-Admits request _) in
        let users =
          kept (get_admin_users F) (λ request. behind-Admits request (list_as F request)) in
        (
          λ e. absurd (cc),
          (λ e. absurd (cc), (λ e. absurd (cc), (out, (out_all, (me, (users, tt)))))),
        )

    -- A route for which the description asks for an access token answers below 400 only to a
    -- request that the limiter of /v1, which counts it by the client's address, lets through, and
    -- that `authentication` lets through in the very state that the limiter left, whatever the
    -- faults: it presented a bearer token that verifies as of now, and Redis, as the limiter left
    -- it, holds the session that the token names, which belongs to the user that the token names.
    pub create_router-Passed :
        (limits : RateLimitConfig) (matches : Matching) (method : Method) (path : Text)
        (request : Request) (w : World F) (route : Route F L) (response : Response)
        → find_route F L matches method path (routes F L limits) ≡ some route
        → is_secured_route route ≡ true
        → (create_router F L limits matches method path request w).0 ≡ some response
        → response.status < 400
        → Passed limits request w
    unfolding create_router
    create_router-Passed limits matches method path request w route response found asked answered
          low =
        let taken : (create_router F L limits matches method path request w).0
            ≡ some (serve F L limits route request w).0 =
          ap (λ o. (through F L limits o request w).0) found in
        let same : response ≡ (serve F L limits route request w).0 = cc (taken, answered) in
        find_route-All F L (Kept limits) matches method path (routes F L limits) route
          (routes-Kept limits) found asked request w
          (subst (λ (r : Response). r.status < 400) same low)
