-- ===== src/Guards.antt =====
-- src/middleware/metricsGuard.ts, and the key of the refresh limiter of
-- src/middleware/rateLimiter.ts; the limiter itself is the package express-rate-limit.
pub mod Metrics
pub mod Keying
mod Tests
use node_jwt_redis_session_a.Base.{
  Text, codes, ℕ, Bool, true, false, Option, none, some, ◌++◌, take, leb, ltb, ◌&&◌, ◌===◌,
  if◌then◌else◌, index_of, some_text, String,
}
use node_jwt_redis_session_a.Tokens.{Crypto}
use node_jwt_redis_session_a.Validation.{Value, text}

-- What the guard of /metrics does with a request: `next()`, or an answer with a status.
pub data Verdict : Type 0 where
  next : Verdict
  answered : ℕ → String → Verdict

abbrev pub production : Text
production = codes "production"

abbrev pub is_production : Option Text → Bool
is_production none = false
is_production (some env) = env === production

-- `request.headers.authorization ?? ''`
abbrev pub presented : Option Text → Text
presented none = codes ""
presented (some header) = header

module _ (K : Crypto) where
  -- Two digests are equal as buffers when they are as hexadecimal texts.
  abbrev pub same_digest : Text → Text → Bool
  same_digest a b = K.sha256_hex a === K.sha256_hex b

  abbrev pub guard_by : Option Text → Option Text → Option Text → Verdict
  guard_by none node_env authorization =
      if is_production node_env then answered 404 "Not found." else next
  guard_by (some token) node_env authorization =
      if same_digest (presented authorization) (codes "Bearer " ++ token)
      then next
      else answered 401 "Invalid metrics token."

  -- `createMetricsGuard`; an empty token is `!token` too.
  unfoldable pub metrics_guard : Option Text → Option Text → Option Text → Verdict
  metrics_guard token node_env authorization = guard_by (some_text token) node_env authorization

abbrev pub max_session_id_length : ℕ
max_session_id_length = 64

abbrev pub ip_key : Text → Text
ip_key ip = codes "ip:" ++ ip

-- `separatorIndex > 0 && separatorIndex <= MAX_SESSION_ID_LENGTH`
abbrev pub key_at : Text → Text → Option ℕ → Text
key_at token ip none = ip_key ip
key_at token ip (some i) =
    if ltb 0 i && leb i max_session_id_length then codes "session:" ++ take i token else ip_key ip

-- `ip` is what `ipKeyGenerator(request.ip ?? '')` gives; the value is `request.body?.refreshToken`.
unfoldable pub refresh_token_session_key : Option Value → Text → Text
refresh_token_session_key (some (text token)) ip = key_at token ip (index_of b'.' token)
refresh_token_session_key _ ip = ip_key ip
