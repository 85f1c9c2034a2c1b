-- ===== src/Auth/Pacing.antt =====
-- AuthService.login against someone who guesses passwords: how fast passwords are checked.
use node_jwt_redis_session_a.Base.{
  Text, ℕ, suc, ◌+◌, ◌*◌, ◌-◌, ◌<◌, ◌≤◌, ◌≡◌, sym, subst, err, List, [], ◌∷◌, arith, All, Result,
}
use native.Mathlib.Decide.{dec_lt}
use node_jwt_redis_session_a.Errors.{app, unauthorized}
use node_jwt_redis_session_a.Throttle.Backoff.{IsPositive}
use node_jwt_redis_session_a.Throttle.Streak.{fail, fail-clock, IsFresh, Streak, Streak-first}
use node_jwt_redis_session_a.Platform.{Platform, World}
use node_jwt_redis_session_a.Auth.{LoginResult, login}
use node_jwt_redis_session_a.Auth.Rejecting.{IsCalm, seconds_locked, login-locked, login-rejected}
use node_jwt_redis_session_a.Auth.Guessing.{
  Guess, elapsed, wait, attempt, credentials, IsGuess, attempt-fail,
}
use node_jwt_redis_session_a.Auth.Pace.{waits, Pace, Pace-wait, Pace-fail, fail_now, fail_now-clock}

-- 1 for an answer that a password did not match.
abbrev told : Result LoginResult → ℕ
told (err (app (unauthorized m))) = 1
told _ = 0

-- How many of the attempts are told that the password did not match.
abbrev pub checked : (F : Platform) → List Guess → World F → ℕ
checked F [] w = 0
checked F (g ∷ gs) w = told (login F g.body (wait F g.gap w)).0 + checked F gs (attempt F g w)

module _ (F : Platform) (p : IsPositive F.throttle) (username : Text) where
  checked-Pace :
      (gs : List Guess) (n d start last : ℕ) (w : World F)
      → Pace F p username n d start last w
      → All (IsGuess F p username w.pool.db) gs
      → w.client.clock + elapsed gs < d
      → start + waits F.throttle (suc n + checked F gs w - F.throttle.free_attempts - 1)
        ≤ w.client.clock + elapsed gs
  checked-Pace [] n d start last w s guesses short =
      let same : suc n - F.throttle.free_attempts - 1 ≡ suc n + 0 - F.throttle.free_attempts - 1 =
        omega arith in
      let spent = s.spent in
      let later = s.later in
      subst (λ k. start + waits F.throttle k ≤ w.client.clock + 0) same
        (omega (arith, spent, later))
  checked-Pace (g ∷ gs) n d start last w s (guess, guesses) short =
      let input = credentials F p username g.password in
      let w1 = wait F g.gap w in
      let s1 = Pace-wait F p username n d start last g.gap w s in
      let now = w.client.clock + (g.gap + elapsed gs) in
      let Spent : Result LoginResult × World F → Type 0 = λ x.
        start
          + waits F.throttle (suc n + (told x.0 + checked F gs x.1) - F.throttle.free_attempts - 1)
        ≤ now in
      elim (dec_lt 0 (seconds_locked F p input w1)) [
        | yes locked ↦
            let rest = checked-Pace gs n d start last w1 s1 guesses (omega arith) in
            let count : suc n + checked F gs w1 - F.throttle.free_attempts - 1
                ≡ suc n + (0 + checked F gs w1) - F.throttle.free_attempts - 1 =
              omega arith in
            subst Spent (sym (login-locked F p input g.body w1 guess.parsed s1.calm.redis locked))
              (subst (λ k. start + waits F.throttle k ≤ now) count (omega (arith, rest)))
        | no unlocked ↦
            let none_left : seconds_locked F p input w1 ≡ 0 = omega arith in
            let w2 = fail_now F p username w1 in
            let clock = fail_now-clock F p username w1 s1.calm.redis in
            let s2 = Pace-fail F p username n d start last w1 s1 (omega arith) none_left in
            let rest =
              checked-Pace gs (suc n) d start w1.client.clock w2 s2 guesses
                (omega (arith, clock)) in
            let count : suc (suc n) + checked F gs w2 - F.throttle.free_attempts - 1
                ≡ suc n + (1 + checked F gs w2) - F.throttle.free_attempts - 1 =
              omega arith in
            subst Spent
              (sym (login-rejected F p input g.body w1 guess.parsed s1.calm none_left guess.wrong))
              (subst (λ k. start + waits F.throttle k ≤ now) count (omega (arith, clock, rest)))
      ]

  -- With positive options and no faults, from an account with no failure on record, of any sequence
  -- of attempts with wrong passwords, with whatever time between them as long as the first still
  -- counts: of those that are answered with 401, all but the first `free_attempts` + 1 had to wait,
  -- so that the time from the first attempt to the last is at least as many of the delays, from the
  -- first delay on, each less a second.
  pub checked-waits :
      (g : Guess) (gs : List Guess) (w : World F)
      → IsCalm F w
      → IsFresh F.redis F.to_lower F.throttle p username w.client
      → All (IsGuess F p username w.pool.db) (g ∷ gs)
      → elapsed gs < F.throttle.failure_window_seconds * 1000
      → waits F.throttle (checked F (g ∷ gs) w - (F.throttle.free_attempts + 1)) ≤ elapsed gs
  checked-waits g gs w calm fresh (guess, guesses) short =
      let c = fail F.redis F.to_lower F.throttle p username g.gap w.client in
      let start = w.client.clock + g.gap in
      let d = start + F.throttle.failure_window_seconds * 1000 in
      let w1 : World F = record w { client = c } in
      let first = Streak-first F.redis F.to_lower F.throttle p username g.gap w.client fresh in
      let clock = fail-clock F.redis F.to_lower F.throttle p username g.gap w.client calm.redis in
      let none_yet : 0 ≡ 1 - F.throttle.free_attempts - 1 = omega arith in
      let rest =
        checked-Pace gs 0 d start start w1
          (record {
            calm = record { redis = first.calm; postgres = calm.postgres };
            failed =
                subst
                  (λ u.
                    Streak F.redis F.to_lower F.throttle p username 1 d (record c { clock = u }))
                  clock first;
            later = omega (arith, clock);
            spent = subst (λ k. start + waits F.throttle k ≤ start) none_yet (omega arith);
          })
          guesses (omega (arith, clock)) in
      let count : 1 + checked F gs w1 - F.throttle.free_attempts - 1
          ≡ 1 + checked F gs w1 - (F.throttle.free_attempts + 1) =
        omega arith in
      let paced : start + waits F.throttle (1 + checked F gs w1 - (F.throttle.free_attempts + 1))
          ≤ c.clock + elapsed gs =
        subst (λ k. start + waits F.throttle k ≤ c.clock + elapsed gs) count rest in
      subst
        (λ (x : Result LoginResult × World F).
          waits F.throttle (told x.0 + checked F gs x.1 - (F.throttle.free_attempts + 1))
          ≤ elapsed gs)
        (sym (attempt-fail F p username g w calm fresh.unlocked guess))
        (omega (arith, clock, paced))
