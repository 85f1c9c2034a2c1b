-- ===== src/Auth/Counting.antt =====
-- AuthService.login without faults: what a rejected login leaves in Redis.
use node_jwt_redis_session_a.Base.{
  Text, codes, ◌+◌, ◌*◌, ◌-◌, ◌≡◌, ◌≢◌, refl, ap, ◌∙◌, sym, subst, ok, err, some, [], ◌++◌, arith,
  ltb, ◌==◌, if◌then◌else◌, trim, ne→===, Result,
}
use node_jwt_redis_session_a.Errors.{app, unauthorized}
use node_jwt_redis_session_a.Redis.{Redis, num, str, count_of, deadline_of}
use node_jwt_redis_session_a.Redis.Client.{Client}
use node_jwt_redis_session_a.Validation.{Body}
use node_jwt_redis_session_a.Validation.Schemas.{LoginInput, parse_login}
use node_jwt_redis_session_a.Throttle.{
  LoginThrottleOptions, delay, failures_key, lock_key, normalize, record_failure,
}
use node_jwt_redis_session_a.Throttle.Backoff.{IsPositive, live-locked, live-counted, counted}
use node_jwt_redis_session_a.Throttle.Streak.{
  record_failure-delivered, counter-recorded, lock-recorded, after_failure,
}
use node_jwt_redis_session_a.Platform.{Platform, World}
use node_jwt_redis_session_a.Auth.{LoginResult, login}
use node_jwt_redis_session_a.Auth.Rejecting.{IsCalm, IsWrong, seconds_locked, login-rejected}

module _ (R : Redis) (o : LoginThrottleOptions) where
  -- One more failure of the account with this name, in lower case and without outer white space:
  -- the counter is one higher, and expires with the window if it is new; with more failures than
  -- are free the lock is there for the delay; and every other key is as before, as is the clock.
  pub record IsCounted (name : Text) (c c' : Client R) : Type 0 where
    pub clock : c'.clock ≡ c.clock
    pub faults : c'.faults ≡ c.faults
    pub counter :
        let before = R.live c.store c.clock (codes "login:failures:" ++ name) in
        R.live c'.store c.clock (codes "login:failures:" ++ name)
        ≡ some (record {
          value = num (count_of before + 1);
          deadline =
              if count_of before == 0
              then some (c.clock + o.failure_window_seconds * 1000)
              else deadline_of before;
        })
    pub lock :
        let failures = count_of (R.live c.store c.clock (codes "login:failures:" ++ name)) + 1 in
        R.live c'.store c.clock (codes "login:lock:" ++ name) ≡ (
          if ltb o.free_attempts failures
          then some (record {
            value = str (codes "1");
            deadline = some (c.clock + delay o (failures - o.free_attempts) * 1000);
          })
          else R.live c.store c.clock (codes "login:lock:" ++ name))
    pub others :
        (key : Text)
        → codes "login:failures:" ++ name ≢ key
        → codes "login:lock:" ++ name ≢ key
        → R.live c'.store c.clock key ≡ R.live c.store c.clock key

module _ (R : Redis) (to_lower : Text → Text) (o : LoginThrottleOptions) (p : IsPositive o)
    (username : Text) where
  after_failure-IsCounted :
      (c : Client R)
      → IsCounted R o (to_lower (trim username)) c (after_failure R to_lower o p username c)
  unfolding failures_key lock_key normalize
  after_failure-IsCounted c =
      let f = failures_key to_lower username in
      let l = lock_key to_lower username in
      record {
        clock = refl;
        faults = refl;
        counter = counter-recorded R to_lower o p username c.clock c.store;
        lock = lock-recorded R to_lower o p username c.clock c.store;
        others = λ key not_f not_l.
            live-locked R o p l (count_of (R.live c.store c.clock f) + 1 - o.free_attempts) c.clock
              (counted R o p f c.clock c.store) key
            ∙ ground (arith, ne→=== not_f, ne→=== not_l, live-counted R o p f c.clock c.store key);
      }

  record_failure-IsCounted :
      (c : Client R)
      → c.faults ≡ []
      → IsCounted R o (to_lower (trim username)) c (record_failure R to_lower o username c).1
  record_failure-IsCounted c calm =
      subst (IsCounted R o (to_lower (trim username)) c)
        (sym (ap (λ x. x.1) (record_failure-delivered R to_lower o p username c calm)))
        (after_failure-IsCounted c)

module _ (F : Platform) (p : IsPositive F.throttle) (input : LoginInput) where
  -- The answer, and a state that differs from the one before in Redis only, by one failure.
  abbrev pub Rejected : World F → Result LoginResult × World F → Type 0
  Rejected w x =
      (x.0 ≡ err (app (unauthorized "Invalid credentials.")))
      × (c : Client F.redis) × (x.1 ≡ record w { client = c })
      × IsCounted F.redis F.throttle (F.to_lower (trim input.username)) w.client c

  -- With positive options and no faults, a login that the throttle lets through, with a username
  -- that no row has or with a password that does not match: both are answered alike, and nothing
  -- changes but Redis. There the account, by its name in lower case, has one more failure on record,
  -- which the window ends if it is the first, and is locked for the delay if that is more than
  -- `free_attempts`; and every other key is as before.
  pub login-wrong :
      (raw_input : Body) (w : World F)
      → parse_login F.zod raw_input ≡ ok input
      → IsCalm F w
      → seconds_locked F p input w ≡ 0
      → IsWrong F w.pool.db input
      → Rejected w (login F raw_input w)
  login-wrong raw_input w parsed calm free wrong =
      subst (Rejected w) (sym (login-rejected F p input raw_input w parsed calm free wrong)) (
        refl,
        _,
        refl,
        record_failure-IsCounted F.redis F.to_lower F.throttle p input.username w.client calm.redis,
      )
