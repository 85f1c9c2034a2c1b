-- ===== src/Auth/Guessing.antt =====
-- AuthService.login against someone who guesses passwords: one attempt after the other at the same
-- account, spread over time.
use node_jwt_redis_session_a.Base.{
  Text, ℕ, suc, ◌+◌, ◌*◌, ◌<◌, ◌≤◌, ◌≡◌, ap, ◌∙◌, sym, subst, none, ok, err, List, [], ◌∷◌, length,
  arith, All,
}
use node_jwt_redis_session_a.Validation.{Body}
use node_jwt_redis_session_a.Validation.Schemas.{LoginInput, parse_login}
use node_jwt_redis_session_a.Throttle.{lock_key, too_many, delay}
use node_jwt_redis_session_a.Throttle.Backoff.{IsPositive, delay-pos}
use node_jwt_redis_session_a.Throttle.Streak.{
  fail, fail-clock, IsFresh, Streak, Streak-fail, Streak-first, lock,
}
use node_jwt_redis_session_a.Throttle.Guard.{ttl-lock}
use node_jwt_redis_session_a.Platform.{Platform, World}
use node_jwt_redis_session_a.Auth.{login, invalid_credentials}
use node_jwt_redis_session_a.Auth.Rejecting.{
  IsWrong, IsCalm, seconds_locked, login-locked, login-rejected,
}

-- An attempt: how long after the one before, the body, and the password in it.
pub record Guess : Type 0 where
  pub gap : ℕ
  pub body : Body
  pub password : Text

abbrev pub elapsed : List Guess → ℕ
elapsed [] = 0
elapsed (g ∷ gs) = g.gap + elapsed gs

module _ (F : Platform) where
  -- Time passes in Redis.
  abbrev pub wait : ℕ → World F → World F
  wait ms w = record w { client = record w.client { clock = w.client.clock + ms } }

  abbrev pub attempt : Guess → World F → World F
  attempt g w = (login F g.body (wait g.gap w)).1

  abbrev pub guess_each : List Guess → World F → World F
  guess_each [] w = w
  guess_each (g ∷ gs) w = guess_each gs (attempt g w)

module _ (F : Platform) (p : IsPositive F.throttle) (username : Text) where
  abbrev pub credentials : Text → LoginInput
  credentials password = record { username = username; password = password }

  -- A well-formed attempt at the account that does not know its password.
  pub record IsGuess (db : F.postgres.Db) (g : Guess) : Type 0 where
    pub parsed : parse_login F.zod g.body ≡ ok (credentials g.password)
    pub wrong : IsWrong F db (credentials g.password)

  -- An attempt at an account without a lock is one more failure.
  pub attempt-fail :
      (g : Guess) (w : World F)
      → IsCalm F w
      → lock F.redis F.to_lower F.throttle p username w.client ≡ none
      → IsGuess w.pool.db g
      → login F g.body (wait F g.gap w) ≡ (
        err invalid_credentials,
        record w { client = fail F.redis F.to_lower F.throttle p username g.gap w.client },
      )
  attempt-fail g w calm free guess =
      let t = w.client.clock + g.gap in
      let l = lock_key F.to_lower username in
      let still : F.redis.live w.client.store t l ≡ none =
        ground (arith, F.redis.live-later w.client.store w.client.clock t l (omega arith), free) in
      login-rejected F p (credentials g.password) g.body (wait F g.gap w) guess.parsed
        (record { redis = calm.redis; postgres = calm.postgres })
        (F.redis.ttl-none l t w.client.store still) guess.wrong

  -- As long as the attempts are not too many, each of them counts.
  guess_each-Streak :
      (gs : List Guess) (n d : ℕ) (w : World F)
      → IsCalm F w
      → Streak F.redis F.to_lower F.throttle p username (suc n) d w.client
      → All (IsGuess w.pool.db) gs
      → w.client.clock + elapsed gs < d
      → n + length gs ≤ F.throttle.free_attempts
      → Streak F.redis F.to_lower F.throttle p username
          (suc (n + length gs))
          d
          (guess_each F gs w).client
  guess_each-Streak [] n d w calm s guesses short few =
      subst (λ k. Streak F.redis F.to_lower F.throttle p username (suc k) d w.client) (omega arith)
        s
  guess_each-Streak (g ∷ gs) n d w calm s (guess, guesses) short few =
      let c = fail F.redis F.to_lower F.throttle p username g.gap w.client in
      let w1 : World F = record w { client = c } in
      let next =
        Streak-fail F.redis F.to_lower F.throttle p username n d g.gap w.client s (omega arith) in
      let clock = fail-clock F.redis F.to_lower F.throttle p username g.gap w.client calm.redis in
      let rest =
        guess_each-Streak gs (suc n) d w1 (record { redis = next.calm; postgres = calm.postgres })
          next guesses (rw clock (omega arith)) (omega arith) in
      subst
        (λ x.
          Streak F.redis F.to_lower F.throttle p username (suc (n + length (g ∷ gs))) d
            (guess_each F gs x).client)
        (ap (λ x. x.1) (sym (attempt-fail g w calm (s.free (omega arith)) guess)))
        (subst
          (λ k.
            Streak F.redis F.to_lower F.throttle p username (suc k) d (guess_each F gs w1).client)
          (omega arith) rest)

  guesses-Streak :
      (w : World F) (g : Guess) (gs : List Guess)
      → IsCalm F w
      → IsFresh F.redis F.to_lower F.throttle p username w.client
      → All (IsGuess w.pool.db) (g ∷ gs)
      → elapsed gs < F.throttle.failure_window_seconds * 1000
      → length gs ≤ F.throttle.free_attempts
      → Streak F.redis F.to_lower F.throttle p username
          (suc (length gs))
          (w.client.clock + g.gap + F.throttle.failure_window_seconds * 1000)
          (guess_each F (g ∷ gs) w).client
  guesses-Streak w g gs calm fresh (guess, guesses) short few =
      let c = fail F.redis F.to_lower F.throttle p username g.gap w.client in
      let w1 : World F = record w { client = c } in
      let d = w.client.clock + g.gap + F.throttle.failure_window_seconds * 1000 in
      let first = Streak-first F.redis F.to_lower F.throttle p username g.gap w.client fresh in
      let clock = fail-clock F.redis F.to_lower F.throttle p username g.gap w.client calm.redis in
      let rest =
        guess_each-Streak gs 0 d w1 (record { redis = first.calm; postgres = calm.postgres }) first
          guesses (rw clock (omega arith)) (omega arith) in
      subst
        (λ x.
          Streak F.redis F.to_lower F.throttle p username (suc (length gs)) d
            (guess_each F gs x).client)
        (ap (λ x. x.1) (sym (attempt-fail g w calm fresh.unlocked guess)))
        (subst
          (λ k.
            Streak F.redis F.to_lower F.throttle p username (suc k) d (guess_each F gs w1).client)
          (omega arith) rest)

  -- With positive options and no faults, an account with no failure on record locks after
  -- `free_attempts` + 1 wrong passwords within the failure window, whatever time passes between
  -- them: the next login is refused with a 429, even with the right password, its Retry-After is
  -- the first delay, and it changes nothing.
  pub login-guessed :
      (w : World F) (g : Guess) (gs : List Guess) (raw_input : Body) (password : Text)
      → IsCalm F w
      → IsFresh F.redis F.to_lower F.throttle p username w.client
      → All (IsGuess w.pool.db) (g ∷ gs)
      → elapsed gs < F.throttle.failure_window_seconds * 1000
      → length gs ≡ F.throttle.free_attempts
      → parse_login F.zod raw_input ≡ ok (credentials password)
      → login F raw_input (guess_each F (g ∷ gs) w)
        ≡ (err (too_many F.redis F.throttle (delay F.throttle 1)), guess_each F (g ∷ gs) w)
  login-guessed w g gs raw_input password calm fresh guesses short many parsed =
      let w' = guess_each F (g ∷ gs) w in
      let s = guesses-Streak w g gs calm fresh guesses short (omega arith) in
      let left : seconds_locked F p (credentials password) w' ≡ delay F.throttle 1 =
        ttl-lock F.redis F.to_lower F.throttle p username w'.client (suc (length gs))
          (s.barred (omega arith))
        ∙ ap (delay F.throttle) (omega arith) in
      login-locked F p (credentials password) raw_input w' parsed s.calm
        (subst (λ n. 0 < n) (sym left) (delay-pos F.throttle 1 p))
      ∙ ap (λ n. (err (too_many F.redis F.throttle n), w')) left
