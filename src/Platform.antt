-- ===== src/Platform.antt =====
-- What the program runs on, and the state of a process: the services and packages behind it as
-- parameters, their clients, the clock, the random source, the environment and the log.
pub mod Sample
pub mod Scene
use node_jwt_redis_session_a.Base.{
  Text, ℕ, suc, ◌≡◌, Bool, true, Option, List, ◌∷◌, String, Exec, Result, ok, Done,
}
use node_jwt_redis_session_a.Redis.{Redis}
use node_jwt_redis_session_a.Redis.Client.{Client}
use node_jwt_redis_session_a.Postgres.{Postgres, Pool}
use node_jwt_redis_session_a.Sessions.{Codec}
use node_jwt_redis_session_a.Cache.{ProfileCodec}
use node_jwt_redis_session_a.Tokens.{Jwt, Crypto}
use node_jwt_redis_session_a.Throttle.{LoginThrottleOptions}
use node_jwt_redis_session_a.Validation.{Zod}

-- The package bcryptjs: a password matches the hashes that were made of it.
pub record Bcrypt : Type 0 where
  pub hash : Text → ℕ → List ℕ → Text
  pub compare : Text → Text → Bool
  pub compare-hash :
      (password : Text) (rounds : ℕ) (salt : List ℕ)
      → compare password (hash password rounds salt) ≡ true

pub record Platform : Type 1 where
  pub redis : Redis
  pub postgres : Postgres
  pub sessions : Codec
  pub profiles : ProfileCodec
  pub jwt : Jwt
  pub crypto : Crypto
  pub bcrypt : Bcrypt
  pub zod : Zod
  -- JavaScript's `toLowerCase`.
  pub to_lower : Text → Text
  pub throttle : LoginThrottleOptions

pub record World (F : Platform) : Type 0 where
  pub client : Client F.redis
  pub pool : Pool F.postgres
  -- `Date.now()`
  pub now : ℕ
  -- What `randomUUID` and `randomBytes` will give.
  pub uuids : ℕ → Text
  pub bytes : ℕ → List ℕ
  -- `process.env.JWT_SECRET`
  pub secret : Option Text
  pub log : List String

module _ {F : Platform} {A : Type 0} where
  abbrev keep_client : World F → Result A × Client F.redis → Result A × World F
  keep_client w (r, c) = (r, record w { client = c })

  abbrev keep_pool : World F → Result A × Pool F.postgres → Result A × World F
  keep_pool w (r, p) = (r, record w { pool = p })

  -- A call of a repository.
  unfoldable pub on_redis : Exec (Client F.redis) A → Exec (World F) A
  on_redis m w = keep_client w (m w.client)

  unfoldable pub on_postgres : Exec (Pool F.postgres) A → Exec (World F) A
  on_postgres m w = keep_pool w (m w.pool)

  abbrev pub gets : (World F → A) → Exec (World F) A
  gets f w = (ok (f w), w)

module _ {F : Platform} where
  unfoldable pub random_uuid : Exec (World F) Text
  random_uuid w = (ok (w.uuids 0), record w { uuids = λ n. w.uuids (suc n) })

  unfoldable pub random_bytes : Exec (World F) (List ℕ)
  random_bytes w = (ok (w.bytes 0), record w { bytes = λ n. w.bytes (suc n) })

  unfoldable pub write_log : String → Exec (World F) Done
  write_log line w = (ok tt, record w { log = line ∷ w.log })
