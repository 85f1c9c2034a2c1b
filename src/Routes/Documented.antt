-- ===== src/Routes/Documented.antt =====
-- The router and the description of the API.
use node_jwt_redis_session_a.Base.{
  Text, codes, ℕ, ◌≡◌, refl, true, List, [], ◌∷◌, ◌++◌, Option, none, some, All, Bool-cases, inl,
  inr, String, ◌&&◌, subst, err, ok, Result,
}
use node_jwt_redis_session_a.Openapi.Value.{Json}
use node_jwt_redis_session_a.Openapi.{operation_at, statuses}
use node_jwt_redis_session_a.Failing.{
  Foreign, ErrIs, status_of, on_redis-Fails, elem, subset, elem-subset,
}
use node_jwt_redis_session_a.Platform.{Platform, World, on_redis}
use node_jwt_redis_session_a.Http.{
  Request, Response, post_users, post_login, post_auth_refresh, post_logout, post_logout_all,
  get_users_me, get_admin_users,
}
use node_jwt_redis_session_a.Routes.{
  RateLimit, RateLimitConfig, Matching, Method, get_method, post_method, Route, routes, find_route,
  serve, create_router, through, api_rate_limiter, login_rate_limiter, refresh_rate_limiter,
  limited, serves, pass_on,
}
use node_jwt_redis_session_a.Routes.Statuses.{error_handler-elem, Statuses, limited-Statuses}
use node_jwt_redis_session_a.Routes.Handlers.{
  post_users-Statuses, post_login-Statuses, post_auth_refresh-Statuses, post_logout-Statuses,
  post_logout_all-Statuses, get_users_me-Statuses, get_admin_users-Statuses,
}

-- A method as a key of the description.
abbrev pub method_key : Method → Text
method_key get_method = codes "get"
method_key post_method = codes "post"
method_key _ = []

abbrev pub documented : Option Json → List ℕ
documented none = []
documented (some operation) = 500 ∷ statuses operation

module _ (F : Platform) (L : RateLimit F.redis) where
  -- The statuses that the description has for a route, and 500.
  abbrev pub documented_statuses : Route F L → List ℕ
  documented_statuses route =
      documented (operation_at (codes "/v1" ++ route.path) (method_key route.method))

  -- What the router answers: on a route, one of its documented statuses or 500; on none, nothing,
  -- or one of the statuses of the limiter.
  abbrev pub Described : Option (Route F L) → Option Response → Type 0
  Described (some route) none = ⊥
  Described (some route) (some response) = elem response.status (documented_statuses route) ≡ true
  Described none none = Unit
  Described none (some response) = elem response.status (429 ∷ 500 ∷ []) ≡ true

  weaken-Statuses :
      (xs ys : List ℕ) (handler : Request → World F → Response × World F)
      → subset xs ys ≡ true
      → Statuses F xs handler
      → Statuses F ys handler
  weaken-Statuses xs ys handler sub h request w = elem-subset _ xs ys sub (h request w)

  abbrev Kept : RateLimitConfig → Route F L → Type 0
  Kept limits route = Statuses F (documented_statuses route) (serve F L limits route)

  behind_api :
      (limits : RateLimitConfig) (ys : List ℕ) (handler : Request → World F → Response × World F)
      → elem 429 ys ≡ true
      → subset (500 ∷ []) ys ≡ true
      → Statuses F ys handler
      → Statuses F ys (limited F L (api_rate_limiter limits) handler)
  behind_api limits ys handler many sub h =
      limited-Statuses F ys L (api_rate_limiter limits) handler many sub h

  abbrev doc : String → String → List ℕ
  doc path method = documented (operation_at (codes path) (codes method))

  routes-Kept : (limits : RateLimitConfig) → All (Kept limits) (routes F L limits)
  unfolding routes serve
  routes-Kept limits = (
    behind_api limits (doc "/v1/users" "post") (post_users F) refl refl (
        weaken-Statuses (201 ∷ 400 ∷ 409 ∷ 500 ∷ []) (doc "/v1/users" "post") (post_users F) refl
          (post_users-Statuses F)),
    (
      behind_api limits (doc "/v1/login" "post")
          (limited F L (login_rate_limiter limits) (post_login F)) refl refl
          (limited-Statuses F (doc "/v1/login" "post") L (login_rate_limiter limits) (post_login F)
            refl refl
            (weaken-Statuses (200 ∷ 400 ∷ 401 ∷ 429 ∷ 500 ∷ []) (doc "/v1/login" "post")
              (post_login F) refl (post_login-Statuses F))),
      (
        behind_api limits (doc "/v1/auth/refresh" "post")
            (limited F L (refresh_rate_limiter limits) (post_auth_refresh F)) refl refl
            (limited-Statuses F (doc "/v1/auth/refresh" "post") L (refresh_rate_limiter limits)
              (post_auth_refresh F) refl refl
              (weaken-Statuses (200 ∷ 400 ∷ 401 ∷ 409 ∷ 500 ∷ []) (doc "/v1/auth/refresh" "post")
                (post_auth_refresh F) refl (post_auth_refresh-Statuses F))),
        (
          behind_api limits (doc "/v1/auth/logout" "post") (post_logout F) refl refl (
              weaken-Statuses (200 ∷ 401 ∷ 500 ∷ []) (doc "/v1/auth/logout" "post") (post_logout F)
                refl (post_logout-Statuses F)),
          (
            behind_api limits (doc "/v1/auth/logout-all" "post") (post_logout_all F) refl refl (
                weaken-Statuses (200 ∷ 401 ∷ 500 ∷ []) (doc "/v1/auth/logout-all" "post")
                  (post_logout_all F) refl (post_logout_all-Statuses F)),
            (
              behind_api limits (doc "/v1/users/me" "get") (get_users_me F) refl refl (
                  weaken-Statuses (200 ∷ 401 ∷ 404 ∷ 500 ∷ []) (doc "/v1/users/me" "get")
                    (get_users_me F) refl (get_users_me-Statuses F)),
              (
                behind_api limits (doc "/v1/admin/users" "get") (get_admin_users F) refl refl (
                    weaken-Statuses (200 ∷ 400 ∷ 401 ∷ 403 ∷ 500 ∷ []) (doc "/v1/admin/users" "get")
                      (get_admin_users F) refl (get_admin_users-Statuses F)),
                tt,
              ),
            ),
          ),
        ),
      ),
    ),
  )

  pub find_route-All :
      (P : Route F L → Type 0) (matches : Matching) (method : Method) (path : Text)
      (rs : List (Route F L)) (route : Route F L)
      → All P rs
      → find_route F L matches method path rs ≡ some route
      → P route
  unfolding find_route
  find_route-All P matches method path [] route h e = absurd (cc)
  find_route-All P matches method path (r ∷ rs) route (h, hs) e =
      elim (Bool-cases (serves r.method method && matches r.path path)) [
        | inl taken ↦ subst P (cc (rw taken at e)) h
        | inr other ↦ find_route-All P matches method path rs route hs (rw other at e)
      ]

  pass_on-Described :
      (limits : RateLimitConfig) (r : Result (Option ℕ)) (w : World F)
      → ErrIs Foreign r
      → Described none (pass_on F L (api_rate_limiter limits) (r, w)).0
  pass_on-Described limits (ok none) w h = tt
  pass_on-Described limits (ok (some n)) w h = refl
  pass_on-Described limits (err e) w h =
      error_handler-elem F (429 ∷ 500 ∷ []) e w
        (elem-subset (status_of e) (500 ∷ []) (429 ∷ 500 ∷ []) refl h)

  through-Described :
      (limits : RateLimitConfig) (found : Option (Route F L)) (request : Request) (w : World F)
      → ((route : Route F L) → found ≡ some route → Kept limits route)
      → Described found (through F L limits found request w).0
  through-Described limits (some route) request w h = h route refl request w
  through-Described limits none request w h =
      let limiter = api_rate_limiter limits in
      let count = L.hit (limiter.prefix ++ limiter.key_of request) limiter.window_ms limiter.max in
      pass_on-Described limits (on_redis count w).0 (on_redis count w).1
        (on_redis-Fails Foreign count (L.hit-Fails _ _ _) w)

  -- Whatever the request, the state of the process, the faults of Redis and PostgreSQL, and the
  -- answers of the limiters: on a route of /v1 the router responds with a status that the
  -- description of the API documents for that path and method, or with 500; on no route it leaves
  -- the request to Express, unless the limiter answers 429 or Redis fails, with 500.
  pub create_router-Described :
      (limits : RateLimitConfig) (matches : Matching) (method : Method) (path : Text)
      (request : Request) (w : World F)
      → Described
          (find_route F L matches method path (routes F L limits))
          (create_router F L limits matches method path request w).0
  unfolding create_router
  create_router-Described limits matches method path request w =
      through-Described limits (find_route F L matches method path (routes F L limits)) request w
        (λ route.
          find_route-All (Kept limits) matches method path (routes F L limits) route
            (routes-Kept limits))
