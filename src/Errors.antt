-- ===== src/Errors.antt =====
-- src/errors/AppError.ts: the domain errors, and what else a promise may be rejected with.
use Prim.Native.Nat.{ℕ}
use Prim.Native.String.{String}
use mathlib.Core.List.{List}
use mathlib.Core.Option.{Option}

-- The subclasses of `AppError`; each carries the message, the last one `retryAfterSeconds` too.
pub data AppError : Type 0 where
  validation unauthorized forbidden not_found conflict : String → AppError
  too_many_requests : String → ℕ → AppError

unfoldable pub status_code : AppError → ℕ
status_code (validation m) = 400
status_code (unauthorized m) = 401
status_code (forbidden m) = 403
status_code (not_found m) = 404
status_code (conflict m) = 409
status_code (too_many_requests m s) = 429

unfoldable pub message : AppError → String
message (validation m) = m
message (unauthorized m) = m
message (forbidden m) = m
message (not_found m) = m
message (conflict m) = m
message (too_many_requests m s) = m

-- A rejection: a domain error, an error of Redis or PostgreSQL, or another JavaScript error.
pub data Failure : Type 0 where
  app : AppError → Failure
  redis_failure : String → Failure
  -- The SQLSTATE of the error, and the constraint that it names.
  postgres_failure : List ℕ → Option (List ℕ) → Failure
  js_error : String → Failure
