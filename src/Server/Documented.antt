-- ===== src/Server/Documented.antt =====
-- The application and the description of the API.
use node_jwt_redis_session_a.Base.{
  Text, codes, ℕ, ◌≡◌, refl, true, List, [], ◌∷◌, Option, none, some, ◌⊎◌, inl, inr, Bool-cases,
  some_text, ◌++◌, subst, sym,
}
use node_jwt_redis_session_a.Openapi.{operation_at}
use node_jwt_redis_session_a.Failing.{elem, elem-subset}
use node_jwt_redis_session_a.Platform.{Platform, World}
use node_jwt_redis_session_a.Tokens.{Crypto}
use node_jwt_redis_session_a.Errors.{js_error}
use node_jwt_redis_session_a.Guards.{
  Verdict, next, answered, metrics_guard, guard_by, is_production, same_digest, presented,
}
use node_jwt_redis_session_a.Http.{Request, Response}
use node_jwt_redis_session_a.Routes.{RateLimit, Method, find_route, routes}
use node_jwt_redis_session_a.Routes.Statuses.{Statuses, limited-Statuses, error_handler-elem}
use node_jwt_redis_session_a.Routes.Documented.{Described, create_router-Described, documented}
use node_jwt_redis_session_a.Server.Readiness.{readiness}
use node_jwt_redis_session_a.Server.Ready.{readiness-answers}
use node_jwt_redis_session_a.Server.Application.{
  Express, readable, AppOptions, Probes, Destination, to_root, to_health, to_ready, to_metrics,
  to_docs, to_nothing, to_router, destination, get_ready, get_metrics, answer_metrics,
  meta_rate_limiter, respond, create_app,
}

-- A response with a status that the description has for GET of a path, or 500.
abbrev Answered : Text → Option Response → Type 0
Answered path none = ⊥
Answered path (some response) =
    elem response.status (documented (operation_at path (codes "get"))) ≡ true

-- Another package's response.
abbrev PassedOn : Option Response → Type 0
PassedOn none = Unit
PassedOn (some response) = ⊥

-- The verdicts of the guard of /metrics.
abbrev OneOf : Verdict → Type 0
OneOf next = Unit
OneOf (answered status m) = elem status (401 ∷ 404 ∷ []) ≡ true

module _ (K : Crypto) where
  guard_by-OneOf : (token node_env auth : Option Text) → OneOf (guard_by K token node_env auth)
  guard_by-OneOf none node_env auth = elim (Bool-cases (is_production node_env)) [
    | inl hidden ↦ rw hidden refl
    | inr shown ↦ rw shown tt
  ]
  guard_by-OneOf (some token) node_env auth =
      elim (Bool-cases (same_digest K (presented auth) (codes "Bearer " ++ token))) [
        | inl same ↦ rw same tt
        | inr other ↦ rw other refl
      ]

  metrics_guard-OneOf :
      (token node_env auth : Option Text) → OneOf (metrics_guard K token node_env auth)
  unfolding metrics_guard
  metrics_guard-OneOf token node_env auth = guard_by-OneOf (some_text token) node_env auth

module _ (F : Platform) (L : RateLimit F.redis) (X : Express) (options : AppOptions)
    (probes : Probes) where
  -- What the application answers at a destination.
  abbrev pub DescribedAt : Destination → Method → Option Response → Type 0
  DescribedAt to_root method r = Answered (codes "/") r
  DescribedAt to_health method r = Answered (codes "/health") r
  DescribedAt to_ready method r = Answered (codes "/ready") r
  DescribedAt to_metrics method r = Answered (codes "/metrics") r
  DescribedAt to_docs method r = PassedOn r
  DescribedAt to_nothing method r = PassedOn r
  DescribedAt (to_router rest) method r =
      Described F L (find_route F L X.matches method rest (routes F L options.rate_limits)) r

  ready_codes : (n : ℕ) → (n ≡ 200) ⊎ (n ≡ 503) → elem n (500 ∷ 200 ∷ 429 ∷ 503 ∷ []) ≡ true
  ready_codes n (inl e) = subst (λ k. elem k (500 ∷ 200 ∷ 429 ∷ 503 ∷ []) ≡ true) (sym e) refl
  ready_codes n (inr e) = subst (λ k. elem k (500 ∷ 200 ∷ 429 ∷ 503 ∷ []) ≡ true) (sym e) refl

  ready-Statuses : Statuses F (500 ∷ 200 ∷ 429 ∷ 503 ∷ []) (get_ready F L X options probes)
  unfolding get_ready
  ready-Statuses =
      limited-Statuses F (500 ∷ 200 ∷ 429 ∷ 503 ∷ []) L (meta_rate_limiter F L X options probes)
        (λ request w. ((readiness probes.select_one probes.ping).1, w)) refl refl
        (λ request w. ready_codes _ (readiness-answers probes.select_one probes.ping).2)

  abbrev metrics_codes : List ℕ
  metrics_codes = 500 ∷ 200 ∷ 401 ∷ 404 ∷ 429 ∷ []

  answer-elem :
      (verdict : Verdict) (registry : Option Text) (w : World F)
      → OneOf verdict
      → elem (answer_metrics F L X options probes verdict registry w).0.status metrics_codes ≡ true
  answer-elem (answered status m) registry w h =
      elem-subset status (401 ∷ 404 ∷ []) metrics_codes refl h
  answer-elem next (some text) w h = refl
  answer-elem next none w h =
      error_handler-elem F metrics_codes (js_error "registry.metrics()") w refl

  metrics-Statuses : Statuses F metrics_codes (get_metrics F L X options probes)
  unfolding get_metrics
  metrics-Statuses =
      limited-Statuses F metrics_codes L (meta_rate_limiter F L X options probes) _ refl refl
        (λ request w.
          answer-elem
            (metrics_guard F.crypto options.metrics_token options.node_env request.authorization)
            probes.registry w
            (metrics_guard-OneOf F.crypto options.metrics_token options.node_env
              request.authorization))

  respond-DescribedAt :
      (d : Destination) (method : Method) (request : Request) (w : World F)
      → DescribedAt d method (respond F L X options probes d method request w).0
  respond-DescribedAt to_root method request w = refl
  respond-DescribedAt to_health method request w = refl
  respond-DescribedAt to_ready method request w = ready-Statuses request w
  respond-DescribedAt to_metrics method request w = metrics-Statuses request w
  respond-DescribedAt to_docs method request w = tt
  respond-DescribedAt to_nothing method request w = tt
  respond-DescribedAt (to_router rest) method request w =
      create_router-Described F L options.rate_limits X.matches method rest request w

  -- Whatever the request with a readable body, the faults of Redis and PostgreSQL and the limiters
  -- answer: at every destination of the application the status is one that the description of the
  -- API documents for the path and the method, or 500. (What lies outside the description is left to
  -- Express, but for a path under /v1 that no route has, which the limiter may answer with 429.)
  pub create_app-DescribedAt :
      (method : Method) (path : Text) (request : Request) (w : World F)
      → DescribedAt
          (destination X method path)
          method
          (create_app F L X options probes method path (readable request) w).0
  unfolding create_app
  create_app-DescribedAt method path request w =
      respond-DescribedAt (destination X method path) method request w
