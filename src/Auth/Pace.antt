-- ===== src/Auth/Pace.antt =====
-- What holds of an account after some failed logins, and how much time they took.
use node_jwt_redis_session_a.Base.{
  Text, ℕ, zero, suc, ◌+◌, ◌*◌, ◌-◌, ◌<◌, ◌≤◌, ◌≡◌, refl, ap, ◌∙◌, subst, some, [], arith,
  Bool-cases, inl, inr,
}
use native.Mathlib.Decide.{dec_lt}
use node_jwt_redis_session_a.Redis.{is_due}
use node_jwt_redis_session_a.Redis.Client.{Client}
use node_jwt_redis_session_a.Throttle.{LoginThrottleOptions, lock_key, delay, record_failure}
use node_jwt_redis_session_a.Throttle.Backoff.{IsPositive, delay-pos}
use node_jwt_redis_session_a.Throttle.Streak.{Streak, Streak-fail, lock_entry}
use node_jwt_redis_session_a.Platform.{Platform, World}
use node_jwt_redis_session_a.Auth.Rejecting.{IsCalm}
use node_jwt_redis_session_a.Auth.Guessing.{wait}
use node_jwt_redis_session_a.Throttle.Streak.{record_failure-delivered}

-- The milliseconds that `k` delays take at least; Redis rounds the seconds that are left, so that a
-- lock may let an attempt through within its last second.
abbrev pub waits : LoginThrottleOptions → ℕ → ℕ
waits o zero = 0
waits o (suc k) = waits o k + (delay o (suc k) - 1) * 1000

module _ (F : Platform) (p : IsPositive F.throttle) (username : Text) where
  abbrev free : ℕ
  free = F.throttle.free_attempts

  abbrev Failed : ℕ → ℕ → Client F.redis → Type 0
  Failed = Streak F.redis F.to_lower F.throttle p username

  -- A lock that was set at time `last` has less than a second left when TTL replies 0.
  lock-over :
      (c : Client F.redis) (m d t : ℕ)
      → Failed m d c
      → free < m
      → c.clock ≤ t
      → F.redis.ttl (lock_key F.to_lower username) t c.store ≡ 0
      → c.clock + delay F.throttle (m - free) * 1000 < t + 1000
  lock-over c m d t s many later none_left =
      let l = lock_key F.to_lower username in
      let e = lock_entry F.redis F.to_lower F.throttle p username c.clock m in
      let end = c.clock + delay F.throttle (m - free) * 1000 in
      let now = F.redis.live-later c.store c.clock t l later in
      elim (Bool-cases (is_due t (some end))) [
        | inl due ↦ ground (arith, due)
        | inr not_due ↦
            let held : F.redis.live c.store t l ≡ some e =
              now ∙ rw (s.barred many) (rw not_due refl) in
            let near = F.redis.ttl-near l t c.store e end held refl in
            omega (arith, near.1, none_left)
      ]

  waits-next :
      (m start last t : ℕ)
      → start + waits F.throttle (m - free - 1) ≤ last
      → last ≤ t
      → (free < m → last + delay F.throttle (m - free) * 1000 < t + 1000)
      → start + waits F.throttle (suc m - free - 1) ≤ t
  waits-next m start last t spent later over = elim (dec_lt free m) [
    | no few ↦
        let none_yet : 0 ≡ suc m - free - 1 = omega arith in
        subst (λ k. start + waits F.throttle k ≤ t) none_yet (omega arith)
    | yes many ↦
        let k = m - free - 1 in
        let e : m - free ≡ suc k = omega arith in
        let e' : suc k ≡ suc m - free - 1 = omega arith in
        let pos = delay-pos F.throttle (suc k) p in
        let over' : last + delay F.throttle (suc k) * 1000 < t + 1000 =
          subst (λ j. last + delay F.throttle j * 1000 < t + 1000) e (over many) in
        subst (λ j. start + waits F.throttle j ≤ t) e' (omega (arith, pos, over', spent))
  ]

  -- After `suc n` failures, the last of which was at time `last`.
  pub record Pace (n d start last : ℕ) (w : World F) : Type 0 where
    pub calm : IsCalm F w
    pub failed : Failed (suc n) d (record w.client { clock = last })
    pub later : last ≤ w.client.clock
    pub spent : start + waits F.throttle (suc n - free - 1) ≤ last

  pub Pace-wait :
      (n d start last gap : ℕ) (w : World F)
      → Pace n d start last w
      → Pace n d start last (wait F gap w)
  Pace-wait n d start last gap w s =
      let later = s.later in
      record {
        calm = record { redis = s.calm.redis; postgres = s.calm.postgres };
        failed = s.failed;
        later = omega (arith, later);
        spent = s.spent;
      }

  abbrev pub fail_now : World F → World F
  fail_now w = record w {
    client = (record_failure F.redis F.to_lower F.throttle username w.client).1;
  }

  pub fail_now-clock :
      (w : World F) → w.client.faults ≡ [] → (fail_now w).client.clock ≡ w.client.clock
  fail_now-clock w calm =
      ap (λ x. x.1.clock)
        (record_failure-delivered F.redis F.to_lower F.throttle p username w.client calm)

  -- A failure that the throttle lets through now.
  pub Pace-fail :
      (n d start last : ℕ) (w : World F)
      → Pace n d start last w
      → w.client.clock < d
      → F.redis.ttl (lock_key F.to_lower username) w.client.clock w.client.store ≡ 0
      → Pace (suc n) d start w.client.clock (fail_now w)
  Pace-fail n d start last w s short none_left =
      let t = w.client.clock in
      let c = record w.client { clock = last } in
      let later = s.later in
      let gap : last + (t - last) ≡ t = omega (arith, later) in
      let failed : Failed (suc (suc n)) d (fail_now w).client =
        subst
          (λ u.
            Failed (suc (suc n)) d
              (record_failure F.redis F.to_lower F.throttle username
                (record w.client { clock = u })).1)
          gap
          (Streak-fail F.redis F.to_lower F.throttle p username n d (t - last) c s.failed
            (omega (arith, gap))) in
      let clock = fail_now-clock w s.calm.redis in
      record {
        calm = record { redis = failed.calm; postgres = s.calm.postgres };
        failed =
            subst (λ u. Failed (suc (suc n)) d (record (fail_now w).client { clock = u })) clock
              failed;
        later = omega (arith, clock);
        spent =
            waits-next (suc n) start last t s.spent later
              (λ many. lock-over c (suc n) d t s.failed many later none_left);
      }
