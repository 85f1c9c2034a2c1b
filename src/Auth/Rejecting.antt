-- ===== src/Auth/Rejecting.antt =====
-- AuthService.login without faults: an attempt that the throttle refuses, and one with a username
-- that no row has or a password that does not match.
use node_jwt_redis_session_a.Base.{
  ℕ, ◌<◌, ◌≡◌, refl, ◌∙◌, bind-ok, bind-err, lift, ok, err, some, none, Option, false, arith, sym,
  [], throw,
}
use node_jwt_redis_session_a.Account.{UserRecord}
use node_jwt_redis_session_a.Validation.{Body}
use node_jwt_redis_session_a.Validation.Schemas.{LoginInput, parse_login}
use node_jwt_redis_session_a.Users
use node_jwt_redis_session_a.Users.{first_row, has_username, find_by_username, select}
use node_jwt_redis_session_a.Users.Queries.{query-calm}
use node_jwt_redis_session_a.Throttle.{lock_key, assert_not_throttled, record_failure, too_many}
use node_jwt_redis_session_a.Throttle.Backoff.{IsPositive}
use node_jwt_redis_session_a.Throttle.Streak.{record_failure-delivered, after_failure}
use node_jwt_redis_session_a.Throttle.Guard.{assert_not_throttled-delivered}
use node_jwt_redis_session_a.Platform.{Platform, World, on_redis, on_postgres}
use node_jwt_redis_session_a.Auth.{
  login, login_parsed, check_credentials, decide_login, reject_login, hash_or_dummy,
  invalid_credentials,
}

module _ (F : Platform) where
  -- No row has the username and a hash that the password matches.
  abbrev pub IsWrong : F.postgres.Db → LoginInput → Type 0
  IsWrong db input =
      (u : UserRecord)
      → first_row (has_username F.postgres input.username) (F.postgres.users db) ≡ some u
      → F.bcrypt.compare input.password u.password_hash ≡ false

  -- Redis and PostgreSQL answer.
  pub record IsCalm (w : World F) : Type 0 where
    pub redis : w.client.faults ≡ []
    pub postgres : w.pool.faults ≡ []

  login-parsed :
      (raw_input : Body) (input : LoginInput) (w : World F)
      → parse_login F.zod raw_input ≡ ok input
      → login F raw_input w ≡ login_parsed F input w
  unfolding login
  login-parsed raw_input input w parsed =
      bind-ok (lift (parse_login F.zod raw_input)) (login_parsed F) w (λ i. (parsed i, w))

module _ (F : Platform) (p : IsPositive F.throttle) (input : LoginInput) where
  abbrev pub seconds_locked : World F → ℕ
  seconds_locked w = F.redis.ttl (lock_key F.to_lower input.username) w.client.clock w.client.store

  refused :
      (w : World F)
      → w.client.faults ≡ []
      → 0 < seconds_locked w
      → assert_not_throttled F.redis F.to_lower F.throttle input.username w.client
        ≡ (err (too_many F.redis F.throttle (seconds_locked w)), w.client)
  refused w calm locked =
      assert_not_throttled-delivered F.redis F.to_lower F.throttle p input.username w.client calm
      ∙ ground arith

  -- Without faults, a login for an account that is locked: it is refused with a 429 whose Retry-After
  -- is what is left of the lock, whatever the password is, and nothing changes.
  pub login-locked :
      (raw_input : Body) (w : World F)
      → parse_login F.zod raw_input ≡ ok input
      → w.client.faults ≡ []
      → 0 < seconds_locked w
      → login F raw_input w ≡ (err (too_many F.redis F.throttle (seconds_locked w)), w)
  unfolding login_parsed on_redis
  login-locked raw_input w parsed calm locked =
      let no = refused w calm locked in
      login-parsed F raw_input input w parsed
      ∙ bind-err (on_redis (assert_not_throttled F.redis F.to_lower F.throttle input.username))
          (λ _. check_credentials F input) w (λ i. ((no i).0, record w { client = (no i).1 }))

  admitted :
      (w : World F)
      → w.client.faults ≡ []
      → seconds_locked w ≡ 0
      → assert_not_throttled F.redis F.to_lower F.throttle input.username w.client
        ≡ (ok tt, w.client)
  admitted w calm free =
      assert_not_throttled-delivered F.redis F.to_lower F.throttle p input.username w.client calm
      ∙ rw free

  rejected_lem :
      (w : World F)
      → w.client.faults ≡ []
      → reject_login F input.username w ≡ (
        err invalid_credentials,
        record w { client = after_failure F.redis F.to_lower F.throttle p input.username w.client },
      )
  unfolding reject_login on_redis
  rejected_lem w calm =
      let done =
        record_failure-delivered F.redis F.to_lower F.throttle p input.username w.client calm in
      bind-ok (on_redis (record_failure F.redis F.to_lower F.throttle input.username))
        (λ _. throw invalid_credentials) w (λ i. ((done i).0, record w { client = (done i).1 }))

  decide_login-rejected :
      (o : Option UserRecord) (w : World F)
      → ((u : UserRecord) → o ≡ some u → F.bcrypt.compare input.password u.password_hash ≡ false)
      → decide_login F input.username o (F.bcrypt.compare input.password (hash_or_dummy o)) w
        ≡ reject_login F input.username w
  unfolding decide_login
  decide_login-rejected none w wrong = refl
  decide_login-rejected (some u) w wrong = rw (wrong u refl)

  check_credentials-wrong :
      (w : World F)
      → IsCalm F w
      → IsWrong F w.pool.db input
      → check_credentials F input w ≡ reject_login F input.username w
  unfolding check_credentials on_postgres find_by_username
  check_credentials-wrong w calm wrong =
      let found =
        query-calm (select F.postgres (first_row (has_username F.postgres input.username))) w.pool
          calm.postgres in
      bind-ok (on_postgres (Users.find_by_username F.postgres input.username))
        (λ o. decide_login F input.username o (F.bcrypt.compare input.password (hash_or_dummy o))) w
        (λ i. ((found i).0, record w { pool = (found i).1 }))
      ∙ decide_login-rejected _ w wrong

  -- Such an attempt, as a call of `recordFailure`.
  pub login-rejected :
      (raw_input : Body) (w : World F)
      → parse_login F.zod raw_input ≡ ok input
      → IsCalm F w
      → seconds_locked w ≡ 0
      → IsWrong F w.pool.db input
      → login F raw_input w ≡ (
        err invalid_credentials,
        record w {
          client = (record_failure F.redis F.to_lower F.throttle input.username w.client).1;
        },
      )
  unfolding login_parsed on_redis
  login-rejected raw_input w parsed calm free wrong =
      let yes = admitted w calm.redis free in
      let done =
        record_failure-delivered F.redis F.to_lower F.throttle p input.username w.client
          calm.redis in
      login-parsed F raw_input input w parsed
      ∙ bind-ok (on_redis (assert_not_throttled F.redis F.to_lower F.throttle input.username))
          (λ _. check_credentials F input) w (λ i. ((yes i).0, record w { client = (yes i).1 }))
      ∙ check_credentials-wrong w calm wrong
      ∙ rejected_lem w calm.redis
      ∙ (λ i. (err invalid_credentials, record w { client = (sym done i).1 }))
