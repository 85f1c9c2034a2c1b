-- ===== src/Server/Application.antt =====
-- src/server.ts, createApp: from a request to the handler that answers it. Helmet, the logger and the
-- metrics change neither the status nor the body, and the pages of /docs are swagger-ui-express's.
use node_jwt_redis_session_a.Base.{Text, codes, Bool, ◌&&◌, Option, none, some, Done, if◌then◌else◌}
use node_jwt_redis_session_a.Errors.{js_error}
use node_jwt_redis_session_a.Platform.{Platform, World}
use node_jwt_redis_session_a.Guards.{Verdict, next, answered, metrics_guard}
use node_jwt_redis_session_a.Http.{
  Request, Response, reply, error_payload, message_payload, health_payload, metrics_payload,
  error_handler,
}
use node_jwt_redis_session_a.Routes.{
  RateLimit, RateLimitConfig, Matching, Method, get_method, serves, Limiter, Handler,
  create_redis_rate_limiter, limited, create_router,
}
use node_jwt_redis_session_a.Server.Readiness.{Promise, readiness}

-- Express's matching of paths; `under prefix path` is the rest of a path that lies under a prefix.
pub record Express : Type 0 where
  pub matches : Matching
  pub under : Text → Text → Option Text

-- What `express.json()` makes of a request.
pub data Incoming : Type 0 where
  malformed : Incoming
  readable : Request → Incoming

pub record AppOptions : Type 0 where
  pub rate_limits : RateLimitConfig
  pub metrics_token : Option Text
  -- `process.env.NODE_ENV`
  pub node_env : Option Text

-- What the handlers of /ready and /metrics ask for: `SELECT 1`, PING, and `registry.metrics()`.
pub record Probes : Type 0 where
  pub select_one : Promise Done
  pub ping : Promise Done
  -- None where it throws.
  pub registry : Option Text

-- The calls of `app.get` and `app.use` that may take a request, in order.
pub data Destination : Type 0 where
  to_root to_health to_ready to_metrics to_docs to_nothing : Destination
  to_router : Text → Destination

abbrev when : Bool → Destination → Destination → Destination
when taken here later = if taken then here else later

abbrev mounted : Option Text → Option Text → Destination
mounted (some page) rest = to_docs
mounted none (some rest) = to_router rest
mounted none none = to_nothing

unfoldable pub destination : Express → Method → Text → Destination
destination X method path =
    let gets : Text → Bool = λ pattern. serves get_method method && X.matches pattern path in
    when (gets (codes "/")) to_root (
      when (gets (codes "/health")) to_health (
        when (gets (codes "/ready")) to_ready (
          when (gets (codes "/metrics")) to_metrics
            (mounted (X.under (codes "/docs") path) (X.under (codes "/v1") path)))))

module _ (F : Platform) (L : RateLimit F.redis) (X : Express) (options : AppOptions)
    (probes : Probes) where
  abbrev pub meta_rate_limiter : Limiter
  meta_rate_limiter =
      create_redis_rate_limiter
        (record { policy = some options.rate_limits.meta; key_generator = none; message = none })
        (codes "rl:ip:meta:")

  abbrev pub get_root : Handler F L
  get_root request w = (reply 200 (message_payload "Server is running!"), w)

  abbrev pub get_health : Handler F L
  get_health request w = (reply 200 (health_payload "ok"), w)

  unfoldable pub get_ready : Handler F L
  get_ready =
      limited F L meta_rate_limiter λ request w. ((readiness probes.select_one probes.ping).1, w)

  -- The handler of /metrics behind its guard.
  abbrev pub answer_metrics : Verdict → Option Text → World F → Response × World F
  answer_metrics (answered status message) registry w = (reply status (error_payload message), w)
  answer_metrics next (some text) w = (reply 200 (metrics_payload text), w)
  answer_metrics next none w = error_handler F (js_error "registry.metrics()") w

  unfoldable pub get_metrics : Handler F L
  get_metrics = limited F L meta_rate_limiter λ request.
      answer_metrics
        (metrics_guard F.crypto options.metrics_token options.node_env request.authorization)
        probes.registry

  abbrev answered_by : Response × World F → Option Response × World F
  answered_by (response, w) = (some response, w)

  abbrev pub respond : Destination → Method → Request → World F → Option Response × World F
  respond to_root method request w = answered_by (get_root request w)
  respond to_health method request w = answered_by (get_health request w)
  respond to_ready method request w = answered_by (get_ready request w)
  respond to_metrics method request w = answered_by (get_metrics request w)
  respond to_docs method request w = (none, w)
  respond (to_router rest) method request w =
      create_router F L options.rate_limits X.matches method rest request w
  respond to_nothing method request w = (none, w)

  -- The application: none where the response is another package's. What `express.json()` throws is
  -- no AppError.
  unfoldable pub create_app : Method → Text → Incoming → World F → Option Response × World F
  create_app method path malformed w =
      answered_by (error_handler F (js_error "SyntaxError: Unexpected token in JSON") w)
  create_app method path (readable request) w = respond (destination X method path) method request w
