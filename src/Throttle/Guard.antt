-- ===== src/Throttle/Guard.antt =====
-- LoginThrottle.assertNotThrottled and LoginThrottle.reset: who may try to log in.
use node_jwt_redis_session_a.Base.{
  Text, ℕ, suc, ◌+◌, ◌-◌, ◌*◌, ◌<◌, ◌≡◌, refl, ap, ◌∙◌, sym, subst, none, some, bind-ok, List, [],
  ◌∷◌, length, ltb, if◌then◌else◌, ok, err, arith, ===-refl,
}
use native.Mathlib.Decide.{dec_lt}
use native.Mathlib.Nat.{zero-add}
use node_jwt_redis_session_a.Redis.{Redis}
use node_jwt_redis_session_a.Redis.Client.{Client, next_fault, request, request-delivered}
use node_jwt_redis_session_a.Throttle.{
  LoginThrottleOptions, failures_key, lock_key, delay, assert_not_throttled, reset, reset_command,
  check_ttl, too_many, ttl_command,
}
use node_jwt_redis_session_a.Throttle.Backoff.{IsPositive, delay-pos}
use node_jwt_redis_session_a.Throttle.Streak.{
  sum, lock_key-ne-failures_key, lock, lock_entry, faults_nil, Streak-first, fail-clock,
  fail_each-Streak, Streak, IsFresh, fail_each, fail,
}

module _ (R : Redis) (to_lower : Text → Text) (o : LoginThrottleOptions) (p : IsPositive o)
    (username : Text) where
  pub ttl-lock :
      (c : Client R) (n : ℕ)
      → lock R to_lower o p username c ≡ some (lock_entry R to_lower o p username c.clock n)
      → R.ttl (lock_key to_lower username) c.clock c.store ≡ delay o (n - o.free_attempts)
  ttl-lock c n h =
      let near =
        R.ttl-near (lock_key to_lower username) c.clock c.store
          (lock_entry R to_lower o p username c.clock n)
          (c.clock + delay o (n - o.free_attempts) * 1000) h refl in
      omega (arith, near.0, near.1)

  pub assert_not_throttled-delivered :
      (c : Client R)
      → c.faults ≡ []
      → assert_not_throttled R to_lower o username c
        ≡ check_ttl R o (R.ttl (lock_key to_lower username) c.clock c.store) c
  unfolding assert_not_throttled
  assert_not_throttled-delivered c h =
      bind-ok (request (ttl_command R o (lock_key to_lower username))) (check_ttl R o) c (
        request-delivered (ttl_command R o (lock_key to_lower username)) c (ap next_fault h) ∙ (λ i.
          (
            ok (R.ttl (lock_key to_lower username) c.clock c.store),
            record c { faults = faults_nil R to_lower o p username c h i },
          )))

  -- An account without a lock may log in.
  pub assert_not_throttled-unlocked :
      (c : Client R)
      → c.faults ≡ []
      → lock R to_lower o p username c ≡ none
      → (assert_not_throttled R to_lower o username c).0 ≡ ok tt
  assert_not_throttled-unlocked c h free =
      ap (λ x. x.0) (assert_not_throttled-delivered c h)
      ∙ rw (R.ttl-none (lock_key to_lower username) c.clock c.store free)

  assert_not_throttled-Streak :
      (c : Client R) (n d : ℕ)
      → Streak R to_lower o p username n d c
      → (assert_not_throttled R to_lower o username c).0 ≡ (
          if ltb o.free_attempts n
          then err (too_many R o (delay o (n - o.free_attempts)))
          else ok tt)
  assert_not_throttled-Streak c n d s = elim (dec_lt o.free_attempts n) [
    | no few ↦ assert_not_throttled-unlocked c s.calm (s.free (omega arith)) ∙ ground arith
    | yes many ↦
        ap (λ x. x.0) (assert_not_throttled-delivered c s.calm)
        ∙ rw (ttl-lock c n (s.barred many)) (ground (arith, delay-pos o (n - o.free_attempts) p))
  ]

  -- With positive options and no faults, from an account with no failure on record, after any
  -- number of failed logins in a row, with whatever time between them as long as the first still
  -- counts: if there were at most `free_attempts` of them the next attempt is let through, and
  -- otherwise it is refused with a 429 whose Retry-After is the delay of the failures in excess.
  pub assert_not_throttled-fail_each :
      (c : Client R) (gap : ℕ) (gaps : List ℕ)
      → IsFresh R to_lower o p username c
      → sum gaps < o.failure_window_seconds * 1000
      → (assert_not_throttled R to_lower o username
          (fail_each R to_lower o p username (gap ∷ gaps) c)).0
        ≡ (if ltb o.free_attempts (length (gap ∷ gaps))
            then err (too_many R o (delay o (length (gap ∷ gaps) - o.free_attempts)))
            else ok tt)
  unfolding fail_each
  assert_not_throttled-fail_each c gap gaps fresh short =
      assert_not_throttled-Streak
        (fail_each R to_lower o p username gaps (fail R to_lower o p username gap c))
        (suc (length gaps)) (c.clock + gap + o.failure_window_seconds * 1000)
        (subst
          (λ k.
            Streak R to_lower o p username (suc k) (c.clock + gap + o.failure_window_seconds * 1000)
              (fail_each R to_lower o p username gaps (fail R to_lower o p username gap c)))
          (zero-add (length gaps))
          (fail_each-Streak R to_lower o p username gaps 0
            (c.clock + gap + o.failure_window_seconds * 1000) (fail R to_lower o p username gap c)
            (Streak-first R to_lower o p username gap c fresh)
            (rw (fail-clock R to_lower o p username gap c fresh.calm) (omega arith))))

  reset-delivered :
      (c : Client R)
      → c.faults ≡ []
      → reset R to_lower o username c ≡ (
        ok tt,
        record c {
          store =
              R.del
                (lock_key to_lower username)
                c.clock
                (R.del (failures_key to_lower username) c.clock c.store);
        },
      )
  unfolding reset
  reset-delivered c h =
      request-delivered (reset_command R to_lower o username) c (ap next_fault h) ∙ (λ i. (
        ok tt,
        record c {
          faults = faults_nil R to_lower o p username c h i;
          store =
              R.del (lock_key to_lower username) c.clock
                (R.del (failures_key to_lower username) c.clock c.store);
        },
      ))

  -- With positive options and no faults, a reset succeeds and clears the account, whatever was
  -- counted before: no failure is on record, there is no lock, and the next attempt is let through.
  pub reset-IsFresh :
      (c : Client R)
      → c.faults ≡ []
      → let c' = (reset R to_lower o username c).1 in
        ((reset R to_lower o username c).0 ≡ ok tt)
        × IsFresh R to_lower o p username c'
        × ((assert_not_throttled R to_lower o username c').0 ≡ ok tt)
  reset-IsFresh c h =
      let f = failures_key to_lower username in
      let l = lock_key to_lower username in
      let cleared = R.del f c.clock c.store in
      let e = reset-delivered c h in
      let unlocked : R.live (R.del l c.clock cleared) c.clock l ≡ none =
        R.live-del l c.clock cleared l ∙ rw (===-refl l) in
      let uncounted : R.live (R.del l c.clock cleared) c.clock f ≡ none =
        R.live-del l c.clock cleared f
        ∙ rw (lock_key-ne-failures_key to_lower username username)
            (R.live-del f c.clock c.store f ∙ rw (===-refl f)) in
      let c' = record c { store = R.del l c.clock cleared } in
      let still = assert_not_throttled-unlocked c' h unlocked in
      (
        ap (λ x. x.0) e,
        subst (IsFresh R to_lower o p username) (sym (ap (λ x. x.1) e))
            (record { calm = h; uncounted = uncounted; unlocked = unlocked }),
        subst (λ (x : Client R). (assert_not_throttled R to_lower o username x).0 ≡ ok tt)
            (sym (ap (λ x. x.1) e)) still,
      )
