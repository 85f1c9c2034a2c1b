-- ===== src/Sessions/Rotation.antt =====
-- ROTATE_SCRIPT, branch by branch.
use node_jwt_redis_session_a.Base.{
  Text, ℕ, ◌+◌, ◌*◌, ◌≤◌, ◌<◌, ◌^◌, ◌≡◌, ap, ◌∙◌, false, none, some, Result, ok, err, ◌===◌,
  ===-refl, ===-of_eq, lt→leb_false, le→leb, if◌then◌else◌, arith,
}
use node_jwt_redis_session_a.Redis.{Redis}
use node_jwt_redis_session_a.Sessions.{
  undecodable, on_stored, set_command_positive, Codec, IsPrecise, RotateParams, RotateOutcome,
  rotated, concurrent, reused, missing, SessionRecord, session_key, user_sessions_key,
  rotate_script, rotate_session, rotated_ttl, rotated_record, within_grace,
  session_idle_ttl_seconds, refresh_grace_period_ms,
}
use node_jwt_redis_session_a.Sessions.Views.{
  raw_at, raw_at-set_ex, raw_at-del, raw_at-srem, Holds, Lacks, Holds-of_raw,
}

-- With a positive idle lifetime, before the absolute lifetime is over: the rotated session lives
-- for at least a second and at most the idle lifetime, and less than a second longer than the
-- absolute lifetime.
pub rotated_ttl_bounds :
    (r : SessionRecord) (p : RotateParams) (idle : ℕ)
    → 0 < idle
    → p.now < r.absolute_expires_at
    → (1 ≤ rotated_ttl r p idle)
      × (rotated_ttl r p idle ≤ idle)
      × (p.now + rotated_ttl r p idle * 1000 < r.absolute_expires_at + 1000)
rotated_ttl_bounds r p idle h k = omega arith

pub rotated_record-IsPrecise :
    (r : SessionRecord) (p : RotateParams)
    → IsPrecise r
    → p.now < 9 * 10 ^ 13
    → IsPrecise (rotated_record r p session_idle_ttl_seconds)
rotated_record-IsPrecise r p h k = ground (arith, h)

module _ (R : Redis) (C : Codec) where
  module _ (id user_id : Text) (p : RotateParams) (t : ℕ) (s : R.Store) where
    abbrev pub run : Result RotateOutcome × R.Store
    run =
        rotate_script R C (session_key id) (user_sessions_key user_id) p refresh_grace_period_ms
          session_idle_ttl_seconds id t s

    pub rotate_script-missing : Lacks R s t id → run ≡ (ok missing, s)
    unfolding rotate_script
    rotate_script-missing h = rw h

    pub rotate_script-garbled :
        (raw : Text)
        → raw_at R s t id ≡ some raw
        → C.cjson_decode raw ≡ none
        → run ≡ (err undecodable, s)
    unfolding rotate_script
    rotate_script-garbled raw e d = rw (e, d)

    module _ (r : SessionRecord) where
      abbrev pub script : Result RotateOutcome × R.Store
      script =
          rotate_session R C (session_key id) (user_sessions_key user_id) p refresh_grace_period_ms
            session_idle_ttl_seconds id r t s

      pub rotate_script-decoded :
          (raw : Text) → raw_at R s t id ≡ some raw → C.cjson_decode raw ≡ some r → run ≡ script
      unfolding rotate_script
      rotate_script-decoded raw e d = rw (e, d)

      pub rotate_script-Holds : Holds R C s t id r → run ≡ script
      rotate_script-Holds h = rotate_script-decoded h.raw h.stored h.decoded

      abbrev pub next : SessionRecord
      next = rotated_record r p session_idle_ttl_seconds

      abbrev pub revoked : R.Store
      revoked = R.srem (user_sessions_key user_id) id t (R.del (session_key id) t s)

      -- The current hash, before the absolute lifetime ends: the session is stored anew.
      pub rotate_session-current :
          r.refresh_token_hash ≡ p.presented_hash
          → p.now < r.absolute_expires_at
          → script ≡ (
            ok rotated,
            R.set_ex
                (session_key id)
                (C.cjson_encode next)
                (rotated_ttl r p session_idle_ttl_seconds)
                t
                s,
          )
      unfolding rotate_session
      rotate_session-current same fresh =
          rw (===-of_eq same, lt→leb_false _ _ fresh)
            (ap (on_stored R C) (set_command_positive R _ _ _ t s (omega arith)))

      pub rotate_session-over :
          r.refresh_token_hash ≡ p.presented_hash
          → r.absolute_expires_at ≤ p.now
          → script ≡ (ok missing, revoked)
      unfolding rotate_session
      rotate_session-over same over = rw (===-of_eq same, le→leb _ _ over)

      pub rotate_session-stale :
          (r.refresh_token_hash === p.presented_hash) ≡ false
          → script ≡ (
              if within_grace r p refresh_grace_period_ms
              then (ok concurrent, s)
              else (ok reused, revoked))
      unfolding rotate_session
      rotate_session-stale other = rw other (ground arith)

      -- A revoked session is gone, and the others are as they were.
      pub raw_at-revoked :
          (j : Text) → raw_at R revoked t j ≡ (if id === j then none else raw_at R s t j)
      raw_at-revoked j =
          raw_at-srem R user_id id t (R.del (session_key id) t s) j ∙ raw_at-del R id t s j

      -- What a rotation writes is read back by Node and by Lua.
      pub Holds-rotated :
          (n : ℕ)
          → 0 < n
          → IsPrecise r
          → p.now < 9 * 10 ^ 13
          → Holds R C (R.set_ex (session_key id) (C.cjson_encode next) n t s) t id next
      Holds-rotated n pos precise small =
          let fine : IsPrecise next = rotated_record-IsPrecise r p precise small in
          Holds-of_raw R C _ t id next (C.cjson_encode next)
            (raw_at-set_ex R id (C.cjson_encode next) n t s id pos ∙ rw (===-refl id))
            (C.cjson_decode-cjson_encode next fine) (C.parse-cjson_encode next fine)
