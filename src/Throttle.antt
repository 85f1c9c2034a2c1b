-- ===== src/Throttle.antt =====
-- src/services/LoginThrottle.ts: the backoff after failed logins, counted in Redis.
pub mod Backoff
pub mod Streak
pub mod Guard
mod Tests
use node_jwt_redis_session_a.Base.{
  Text, codes, ℕ, zero, suc, ◌+◌, ◌-◌, ◌*◌, ◌^◌, ◌<◌, min, ◌≡◌, Bool, true, false, Option, none,
  some, List, [], ◌∷◌, ◌++◌, ltb, ◌==◌, if◌then◌else◌, Exec, Result, ok, err, Done, trim, ◌>>=◌,
  ◌>>◌, pure, throw,
}
use node_jwt_redis_session_a.Errors.{Failure, app, too_many_requests}
use node_jwt_redis_session_a.Redis.{Redis, count_of}
use node_jwt_redis_session_a.Redis.Client.{Client, Command, request}
use node_jwt_redis_session_a.Sessions.{set_command}

pub record LoginThrottleOptions : Type 0 where
  pub free_attempts : ℕ
  pub base_delay_seconds : ℕ
  pub max_delay_seconds : ℕ
  pub failure_window_seconds : ℕ

abbrev pub default_options : LoginThrottleOptions
default_options = record {
  free_attempts = 5;
  base_delay_seconds = 1;
  max_delay_seconds = 15 * 60;
  failure_window_seconds = 15 * 60;
}

-- `toLowerCase` follows the tables of Unicode, and is a parameter.
module _ (to_lower : Text → Text) where
  unfoldable pub normalize : Text → Text
  normalize username = to_lower (trim username)

  unfoldable pub failures_key : Text → Text
  failures_key username = codes "login:failures:" ++ normalize username

  unfoldable pub lock_key : Text → Text
  lock_key username = codes "login:lock:" ++ normalize username

-- `math.floor(math.min(base * 2 ^ (excess - 1), max))`, for a positive excess.
unfoldable pub delay : LoginThrottleOptions → ℕ → ℕ
delay o excess = min (o.base_delay_seconds * 2 ^ (excess - 1)) o.max_delay_seconds

module _ (R : Redis) (o : LoginThrottleOptions) where
  abbrev pub expire_first : Text → ℕ → Command R Done
  expire_first key failures t s =
      (ok tt, if failures == 1 then R.expire key o.failure_window_seconds t s else s)

  abbrev pub lock_excess : Text → ℕ → Command R Done
  lock_excess key zero t s = (ok tt, s)
  lock_excess key (suc n) t s = set_command R key (codes "1") (delay o (suc n)) t s

  -- RECORD_FAILURE_SCRIPT; INCR replies with the value that it leaves.
  unfoldable pub record_failure_script : Text → Text → Command R ℕ
  record_failure_script failures_key lock_key t s =
      let failures = count_of (R.live s t failures_key) + 1 in
      (expire_first failures_key failures t
          >> lock_excess lock_key (failures - o.free_attempts) t
          >> pure failures)
        (R.incr failures_key t s)

  abbrev pub ttl_command : Text → Command R ℕ
  ttl_command key t s = (ok (R.ttl key t s), s)

  abbrev pub too_many : ℕ → Failure
  too_many ttl = app (
      too_many_requests "Too many failed login attempts for this account. Please try again later."
        ttl)

  abbrev pub check_ttl : ℕ → Exec (Client R) Done
  check_ttl ttl = if ltb 0 ttl then throw (too_many ttl) else pure tt

module _ (R : Redis) (to_lower : Text → Text) (o : LoginThrottleOptions) where
  unfoldable pub assert_not_throttled : Text → Exec (Client R) Done
  assert_not_throttled username =
      request (ttl_command R o (lock_key to_lower username)) >>= check_ttl R o

  unfoldable pub record_failure : Text → Exec (Client R) Done
  record_failure username =
      request
        (record_failure_script R o (failures_key to_lower username) (lock_key to_lower username))
      >> pure tt

  -- `DEL` of both keys in one command.
  abbrev pub reset_command : Text → Command R Done
  reset_command username t s =
      (ok tt, R.del (lock_key to_lower username) t (R.del (failures_key to_lower username) t s))

  unfoldable pub reset : Text → Exec (Client R) Done
  reset username = request (reset_command username)
