-- ===== src/Throttle/Streak.antt =====
-- Failed logins in a row, spread over time.
use node_jwt_redis_session_a.Base.{
  Text, codes, ℕ, suc, ◌+◌, ◌-◌, ◌*◌, ◌<◌, ◌≤◌, ◌≡◌, refl, ap, ◌∙◌, sym, subst, false, Option, none,
  some, bind-ok, pure, List, [], ◌∷◌, length, ltb, ◌===◌, if◌then◌else◌, ok, arith, ===-refl,
}
use node_jwt_redis_session_a.Redis.{Redis, Entry, str, num, count_of}
use node_jwt_redis_session_a.Redis.Client.{
  Client, next_fault, later_faults, request, request-delivered,
}
use node_jwt_redis_session_a.Throttle.{
  LoginThrottleOptions, failures_key, lock_key, delay, record_failure_script, record_failure,
}
use node_jwt_redis_session_a.Throttle.Backoff.{
  IsPositive, recorded, record_failure_script_lem, live-locked, live-counted, counted,
  counter_entry,
}

abbrev pub sum : List ℕ → ℕ
sum [] = 0
sum (x ∷ xs) = x + sum xs

-- The two kinds of keys never collide.
pub lock_key-ne-failures_key :
    (to_lower : Text → Text) (a b : Text)
    → (lock_key to_lower a === failures_key to_lower b) ≡ false
unfolding lock_key failures_key
lock_key-ne-failures_key to_lower a b = refl

failures_key-ne-lock_key :
    (to_lower : Text → Text) (a b : Text)
    → (failures_key to_lower a === lock_key to_lower b) ≡ false
unfolding lock_key failures_key
failures_key-ne-lock_key to_lower a b = refl

module _ (R : Redis) (to_lower : Text → Text) (o : LoginThrottleOptions) (p : IsPositive o)
    (username : Text) where
  -- What Redis shows of the account's counter and of its lock.
  abbrev pub counter : Client R → Option Entry
  counter c = R.live c.store c.clock (failures_key to_lower username)

  abbrev pub lock : Client R → Option Entry
  lock c = R.live c.store c.clock (lock_key to_lower username)

  abbrev pub lock_entry : ℕ → ℕ → Entry
  lock_entry t n = record {
    value = str (codes "1");
    deadline = some (t + delay o (n - o.free_attempts) * 1000);
  }

  abbrev pub after_failure : Client R → Client R
  after_failure c = record c {
    store =
        recorded R o p (failures_key to_lower username) (lock_key to_lower username) c.clock
          c.store;
  }

  pub faults_nil : (c : Client R) → c.faults ≡ [] → later_faults c.faults ≡ c.faults
  faults_nil c h = ap later_faults h ∙ sym h

  pub record_failure-delivered :
      (c : Client R)
      → c.faults ≡ []
      → record_failure R to_lower o username c ≡ (ok tt, after_failure c)
  unfolding record_failure
  record_failure-delivered c h =
      let f = failures_key to_lower username in
      let l = lock_key to_lower username in
      let ran = record_failure_script_lem R o p f l c.clock c.store in
      bind-ok (request (record_failure_script R o f l)) (λ _. pure tt) c
        (request-delivered (record_failure_script R o f l) c (ap next_fault h)
          ∙ (λ i. ((ran i).0, record c { faults = faults_nil c h i; store = (ran i).1 })))

  -- One more failure, after a while.
  abbrev pub fail : ℕ → Client R → Client R
  fail gap c = (record_failure R to_lower o username (record c { clock = c.clock + gap })).1

  unfoldable pub fail_each : List ℕ → Client R → Client R
  fail_each [] c = c
  fail_each (gap ∷ gaps) c = fail_each gaps (fail gap c)

  -- After `n` failures, the first of which expires at `d`.
  pub record Streak (n d : ℕ) (c : Client R) : Type 0 where
    pub calm : c.faults ≡ []
    pub before : c.clock < d
    pub counted : counter c ≡ some (record { value = num n; deadline = some d })
    pub free : n ≤ o.free_attempts → lock c ≡ none
    pub barred : o.free_attempts < n → lock c ≡ some (lock_entry c.clock n)

  pub counter-recorded :
      (t : ℕ) (s : R.Store)
      → R.live
          (recorded R o p (failures_key to_lower username) (lock_key to_lower username) t s)
          t
          (failures_key to_lower username)
        ≡ some (counter_entry R o p t (R.live s t (failures_key to_lower username)))
  counter-recorded t s =
      let f = failures_key to_lower username in
      let l = lock_key to_lower username in
      live-locked R o p l (count_of (R.live s t f) + 1 - o.free_attempts) t (counted R o p f t s) f
      ∙ rw (lock_key-ne-failures_key to_lower username username)
          (ground (arith, live-counted R o p f t s f, ===-refl f))

  pub lock-recorded :
      (t : ℕ) (s : R.Store)
      → R.live
          (recorded R o p (failures_key to_lower username) (lock_key to_lower username) t s)
          t
          (lock_key to_lower username)
        ≡ (if ltb o.free_attempts (count_of (R.live s t (failures_key to_lower username)) + 1)
            then some (lock_entry t (count_of (R.live s t (failures_key to_lower username)) + 1))
            else R.live s t (lock_key to_lower username))
  lock-recorded t s =
      let f = failures_key to_lower username in
      let l = lock_key to_lower username in
      live-locked R o p l (count_of (R.live s t f) + 1 - o.free_attempts) t (counted R o p f t s) l
      ∙ ground (
        arith,
        live-counted R o p f t s l,
        ===-refl l,
        failures_key-ne-lock_key to_lower username username,
      )

  pub Streak-fail :
      (n d gap : ℕ) (c : Client R)
      → Streak (suc n) d c
      → c.clock + gap < d
      → Streak (suc (suc n)) d (fail gap c)
  Streak-fail n d gap c s h =
      let t = c.clock + gap in
      let f = failures_key to_lower username in
      let l = lock_key to_lower username in
      let then_counter : R.live c.store t f
          ≡ some (record { value = num (suc n); deadline = some d }) =
        ground (arith, R.live-later c.store c.clock t f (omega arith), s.counted) in
      let new_counter = counter-recorded t c.store in
      let new_lock = lock-recorded t c.store in
      subst (Streak (suc (suc n)) d)
        (sym (ap (λ x. x.1) (record_failure-delivered (record c { clock = t }) s.calm)))
        (record {
          calm = s.calm;
          before = h;
          counted = ground (arith, new_counter, then_counter);
          free = λ few. ground (
            arith,
            new_lock,
            then_counter,
            R.live-later c.store c.clock t l (omega arith),
            s.free (omega arith),
          );
          barred = λ many. ground (arith, new_lock, then_counter);
        })

  -- No failure on record, no lock, and Redis answers.
  pub record IsFresh (c : Client R) : Type 0 where
    pub calm : c.faults ≡ []
    pub uncounted : counter c ≡ none
    pub unlocked : lock c ≡ none

  pub Streak-first :
      (gap : ℕ) (c : Client R)
      → IsFresh c
      → Streak 1 (c.clock + gap + o.failure_window_seconds * 1000) (fail gap c)
  Streak-first gap c s =
      let t = c.clock + gap in
      let f = failures_key to_lower username in
      let l = lock_key to_lower username in
      let then_counter : R.live c.store t f ≡ none =
        ground (arith, R.live-later c.store c.clock t f (omega arith), s.uncounted) in
      let new_counter = counter-recorded t c.store in
      let new_lock = lock-recorded t c.store in
      subst (Streak 1 (t + o.failure_window_seconds * 1000))
        (sym (ap (λ x. x.1) (record_failure-delivered (record c { clock = t }) s.calm)))
        (record {
          calm = s.calm;
          before = omega (arith, p.window);
          counted = ground (arith, new_counter, then_counter);
          free = λ few. ground (
            arith,
            new_lock,
            then_counter,
            R.live-later c.store c.clock t l (omega arith),
            s.unlocked,
          );
          barred = λ many. ground (arith, new_lock, then_counter);
        })

  pub fail-clock : (gap : ℕ) (c : Client R) → c.faults ≡ [] → (fail gap c).clock ≡ c.clock + gap
  fail-clock gap c h =
      ap (λ x. x.1.clock) (record_failure-delivered (record c { clock = c.clock + gap }) h)

  pub fail_each-Streak :
      (gaps : List ℕ) (n d : ℕ) (c : Client R)
      → Streak (suc n) d c
      → c.clock + sum gaps < d
      → Streak (suc (n + length gaps)) d (fail_each gaps c)
  unfolding fail_each
  fail_each-Streak [] n d c s h = subst (λ k. Streak (suc k) d c) (omega arith) s
  fail_each-Streak (gap ∷ gaps) n d c s h =
      subst (λ k. Streak (suc k) d (fail_each gaps (fail gap c))) (omega arith)
        (fail_each-Streak gaps (suc n) d (fail gap c) (Streak-fail n d gap c s (omega arith))
          (rw (fail-clock gap c s.calm) (omega arith)))
