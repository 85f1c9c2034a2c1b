-- ===== src/Lib.antt =====
-- Verification of the JWT and Redis session API (TypeScript, under src/).
--
-- The program issues short-lived access tokens (JWT) and long-lived refresh tokens. A session
-- lives in Redis under session:<id> with the hash of the current refresh token, and an index
-- user_sessions:<user> names a user's sessions. AuthService reads users from PostgreSQL through
-- UserRepository, rotates sessions through SessionRepository, and slows down failed logins with
-- LoginThrottle; UserService creates users and reads profiles through a cache in Redis. The
-- router of routes.ts puts rate limiters and authentication before the controllers, and
-- server.ts puts the router into an application with /health, /ready and /metrics, which shuts
-- down on a signal.
--
-- Files, and the code that each one models:
--   Errors     src/errors/AppError.ts, and rejections of other kinds
--   Account    src/types/user.ts
--   Sessions   src/repositories/SessionRepository.ts, its Lua scripts included; Sessions/Ideal
--              is a specification of its methods as operations on a map
--   Tokens     src/services/TokenService.ts
--   Throttle   src/services/LoginThrottle.ts
--   Users      src/repositories/UserRepository.ts, over Postgres (the table users of migrations/)
--   Cache      src/repositories/CacheRepository.ts
--   Validation src/validation/parse.ts and the schemas of the services
--   Auth       src/services/AuthService.ts
--   Profiles   src/services/UserService.ts
--   Http       src/middleware/{auth,rbac,errorHandler,asyncHandler}.ts, src/controllers/
--   Guards     src/middleware/metricsGuard.ts, and the key of src/middleware/rateLimiter.ts
--   Routes     src/routes.ts, and the limiters of src/middleware/rateLimiter.ts
--   Openapi    src/docs/openapi.ts, the literal as a JSON value
--   Server     src/server.ts: Readiness (the checks of /ready), Application (createApp) and
--              Shutdown (the graceful shutdown)
--   Logging    src/logger.ts: the request identifier and the log level
--   Proxy      src/trustProxy.ts
--   Failing    which errors each method may throw
--   Platform   what a process runs on: clients, clock, random source, environment, log
--   Base       names, texts, effects and faults that the others share
-- A module's children prove what their names say; modules called Sample give concrete servers and
-- packages that meet the laws of the interfaces, and Tests apply the theorems to them.
--
-- How the code is modelled. A method that awaits is a function from a state to a result and a
-- state (Base.Effects); a rejected promise is a result with a Failure, and what was written
-- before it stays written. Texts are lists of UTF-16 code units, times are milliseconds and TTLs
-- seconds in natural numbers; where the source may subtract below zero the model says what
-- follows. Redis runs a command, a MULTI and a script as one step at its own clock, which need
-- not be that of the Node process. Each request takes a fault from a list: it is delivered, it is
-- refused before it ran, or it ran and the reply is lost. The shutdown is a machine whose events
-- (signals, closed connections, settled promises, passing time) come in any order.
--
-- Third-party code is a parameter with its documented behaviour as laws: Redis and ioredis
-- (Redis), PostgreSQL and pg (Postgres), jsonwebtoken and node:crypto (Tokens), bcryptjs
-- (Platform), zod (Validation), JSON and Lua's cjson (Sessions.Records.Codec, which prints 14 digits,
-- hence IsPrecise), express-rate-limit (Routes.Limits.RateLimit), and Express's matching of paths
-- (Routes.Matching, Server.Application.Express). Loops are structural recursion; there is no fuel.
--
-- Not modelled: the headers RateLimit-* and those of Helmet, the metrics and the timer of
-- requests, the wording of log lines, the start of the listener, the configuration of the clients
-- of PostgreSQL and Redis, which are calls of other packages; and the infrastructure.
pub mod Errors
pub mod Base
pub mod Redis
pub mod Account
pub mod Sessions
pub mod Tokens
pub mod Throttle
pub mod Postgres
pub mod Users
pub mod Cache
pub mod Validation
pub mod Platform
pub mod Failing
pub mod Openapi
pub mod Routes
pub mod Server
pub mod Logging
pub mod Proxy
pub mod Auth
pub mod Profiles
pub mod Http
pub mod Guards
