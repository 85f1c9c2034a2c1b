-- ===== src/Routes/Limits.antt =====
-- src/middleware/rateLimiter.ts, and the policies that routes.ts gives it. The limiter itself is the
-- package express-rate-limit over rate-limit-redis.
use node_jwt_redis_session_a.Base.{
  Text, codes, ℕ, ◌*◌, ◌++◌, Option, none, some, String, Exec, Result, ok, err,
}
use node_jwt_redis_session_a.Redis.{Redis}
use node_jwt_redis_session_a.Redis.Client.{Client}
use node_jwt_redis_session_a.Validation.{Body, object, array_body, no_body, Value, member}
use node_jwt_redis_session_a.Guards.{refresh_token_session_key}
use node_jwt_redis_session_a.Platform.{Platform, World, on_redis}
use node_jwt_redis_session_a.Failing.{Fails, Foreign}
use node_jwt_redis_session_a.Http.{Request, Response, error_payload, error_handler}

pub record RateLimitPolicy : Type 0 where
  pub window_ms : ℕ
  pub max : ℕ

-- The options of the login throttle are the platform's.
pub record RateLimitConfig : Type 0 where
  pub api : RateLimitPolicy
  pub login : RateLimitPolicy
  pub refresh : RateLimitPolicy
  pub meta : RateLimitPolicy

abbrev pub default_rate_limits : RateLimitConfig
default_rate_limits = record {
  api = record { window_ms = 60 * 1000; max = 100 };
  login = record { window_ms = 15 * 60 * 1000; max = 20 };
  refresh = record { window_ms = 15 * 60 * 1000; max = 10 };
  meta = record { window_ms = 60 * 1000; max = 60 };
}

-- The package: a request is counted under its key. The answer is how many seconds the client has to
-- wait when that makes more requests than `max` in the window, and none otherwise; Redis may fail.
pub record RateLimit (R : Redis) : Type 0 where
  pub hit : Text → ℕ → ℕ → Exec (Client R) (Option ℕ)
  pub hit-Fails : (key : Text) (window_ms limit : ℕ) → Fails Foreign (hit key window_ms limit)

-- `Partial<Options>`, as far as the callers set it; the message is that of `handler`.
pub record Overrides : Type 0 where
  pub policy : Option RateLimitPolicy
  pub key_generator : Option (Request → Text)
  pub message : Option String

pub record Limiter : Type 0 where
  pub window_ms : ℕ
  pub max : ℕ
  pub key_of : Request → Text
  pub message : String
  pub prefix : Text

abbrev pub default_window_ms : ℕ
default_window_ms = 15 * 60 * 1000

abbrev pub default_max_attempts : ℕ
default_max_attempts = 10

abbrev or_default {ℓ} : {A : Type ℓ} → Option A → A → A
or_default none a = a
or_default (some b) a = b

abbrev default_policy : RateLimitPolicy
default_policy = record { window_ms = default_window_ms; max = default_max_attempts }

-- `createRedisRateLimiter`: the overrides take the place of the defaults.
unfoldable pub create_redis_rate_limiter : Overrides → Text → Limiter
create_redis_rate_limiter overrides prefix = record {
  window_ms = (or_default overrides.policy default_policy).window_ms;
  max = (or_default overrides.policy default_policy).max;
  key_of = or_default overrides.key_generator (λ request. request.ip);
  message = or_default overrides.message "Too many requests. Please try again later.";
  prefix = prefix;
}

-- `request.body?.refreshToken`
abbrev pub refresh_token_of : Body → Option Value
refresh_token_of (object fields) = member (codes "refreshToken") fields
refresh_token_of array_body = none
refresh_token_of no_body = none

-- `refreshTokenSessionKey`
abbrev pub session_key_of : Request → Text
session_key_of request = refresh_token_session_key (refresh_token_of request.body) request.ip

module _ (limits : RateLimitConfig) where
  abbrev pub login_rate_limiter : Limiter
  login_rate_limiter =
      create_redis_rate_limiter
        (record {
          policy = some limits.login;
          key_generator = none;
          message = some "Too many login attempts. Please try again later.";
        })
        (codes "rl:ip:login:")

  abbrev pub refresh_rate_limiter : Limiter
  refresh_rate_limiter =
      create_redis_rate_limiter
        (record {
          policy = some limits.refresh;
          key_generator = some session_key_of;
          message = some "Too many refresh attempts. Please try again later.";
        })
        (codes "rl:refresh:")

  abbrev pub api_rate_limiter : Limiter
  api_rate_limiter =
      create_redis_rate_limiter
        (record { policy = some limits.api; key_generator = none; message = none })
        (codes "rl:ip:api:")

abbrev pub too_many_response : String → ℕ → Response
too_many_response message seconds = record {
  status = 429;
  retry_after = some seconds;
  payload = error_payload message;
}

module _ (F : Platform) (L : RateLimit F.redis) where
  -- A handler, or the middleware before it, with its answer.
  abbrev pub Handler : Type 0
  Handler = Request → World F → Response × World F

  -- What a limiter does with a request when the package has counted it.
  abbrev pub admit : Limiter → Handler → Request → Result (Option ℕ) × World F → Response × World F
  admit limiter handler request (ok none, w) = handler request w
  admit limiter handler request (ok (some seconds), w) =
      (too_many_response limiter.message seconds, w)
  admit limiter handler request (err e, w) = error_handler F e w

  -- A limiter before a handler; what the package throws goes to the error handler.
  unfoldable pub limited : Limiter → Handler → Handler
  limited limiter handler request w =
      admit limiter handler request (
        on_redis (L.hit (limiter.prefix ++ limiter.key_of request) limiter.window_ms limiter.max) w)
