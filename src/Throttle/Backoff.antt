-- ===== src/Throttle/Backoff.antt =====
-- RECORD_FAILURE_SCRIPT: counting, locking and the length of the delay.
use native.Mathlib.Nat.{pow-suc}
use node_jwt_redis_session_a.Base.{
  Text, codes, ℕ, zero, suc, ◌+◌, ◌-◌, ◌*◌, ◌^◌, ◌<◌, ◌≡◌, refl, ◌∙◌, Option, some, ltb, ◌==◌,
  ◌===◌, if◌then◌else◌, ok, arith,
}
use node_jwt_redis_session_a.Redis.{Redis, Entry, str, num, count_of, deadline_of}
use node_jwt_redis_session_a.Sessions.{set_command_positive}
use node_jwt_redis_session_a.Throttle.{
  LoginThrottleOptions, delay, lock_excess, record_failure_script,
}

-- Every delay and the window are at least a second.
pub record IsPositive (o : LoginThrottleOptions) : Type 0 where
  pub base : 0 < o.base_delay_seconds
  pub most : 0 < o.max_delay_seconds
  pub window : 0 < o.failure_window_seconds

pow-pos : (n : ℕ) → 0 < 2 ^ n
pow-pos zero = omega arith
pow-pos (suc n) = rw (pow-suc 2 n) (omega (arith, pow-pos n))

pub delay-pos : (o : LoginThrottleOptions) (n : ℕ) → IsPositive o → 0 < delay o n
unfolding delay
delay-pos o n p =
    let b : 0 < o.base_delay_seconds * 2 ^ (n - 1) = grind (arith, p.base, pow-pos (n - 1)) in
    omega (arith, p.most)

module _ (R : Redis) (o : LoginThrottleOptions) (p : IsPositive o) where
  -- The store after the lock of the script.
  abbrev pub locked : Text → ℕ → ℕ → R.Store → R.Store
  locked key zero t s = s
  locked key (suc n) t s = R.set_ex key (codes "1") (delay o (suc n)) t s

  lock_excess_lem :
      (key : Text) (n t : ℕ) (s : R.Store) → lock_excess R o key n t s ≡ (ok tt, locked key n t s)
  lock_excess_lem key zero t s = refl
  lock_excess_lem key (suc n) t s =
      set_command_positive R key (codes "1") (delay o (suc n)) t s (delay-pos o (suc n) p)

  pub live-locked :
      (key : Text) (n t : ℕ) (s : R.Store) (j : Text)
      → R.live (locked key n t s) t j ≡ (
          if ltb 0 n
          then (if key === j
              then some (record { value = str (codes "1"); deadline = some (t + delay o n * 1000) })
              else R.live s t j)
          else R.live s t j)
  live-locked key zero t s j = refl
  live-locked key (suc n) t s j =
      R.live-set_ex key (codes "1") (delay o (suc n)) t s j (delay-pos o (suc n) p) ∙ ground arith

  -- The counter after INCR, and after EXPIRE if it is the first failure.
  abbrev pub counted : Text → ℕ → R.Store → R.Store
  counted key t s =
      if count_of (R.live s t key) + 1 == 1
      then R.expire key o.failure_window_seconds t (R.incr key t s)
      else R.incr key t s

  abbrev pub counter_entry : ℕ → Option Entry → Entry
  counter_entry t before = record {
    value = num (count_of before + 1);
    deadline =
        if count_of before == 0
        then some (t + o.failure_window_seconds * 1000)
        else deadline_of before;
  }

  pub live-counted :
      (key : Text) (t : ℕ) (s : R.Store) (j : Text)
      → R.live (counted key t s) t j
        ≡ (if key === j then some (counter_entry t (R.live s t key)) else R.live s t j)
  live-counted key t s j = ground (
    arith,
    R.live-expire key o.failure_window_seconds t (R.incr key t s) j p.window,
    R.live-incr key t s j,
  )

  -- The script, as the counter's step followed by the lock's.
  abbrev pub recorded : Text → Text → ℕ → R.Store → R.Store
  recorded f l t s = locked l (count_of (R.live s t f) + 1 - o.free_attempts) t (counted f t s)

  pub record_failure_script_lem :
      (f l : Text) (t : ℕ) (s : R.Store)
      → record_failure_script R o f l t s ≡ (ok (count_of (R.live s t f) + 1), recorded f l t s)
  unfolding record_failure_script
  record_failure_script_lem f l t s =
      rw (lock_excess_lem l (count_of (R.live s t f) + 1 - o.free_attempts) t (counted f t s))
