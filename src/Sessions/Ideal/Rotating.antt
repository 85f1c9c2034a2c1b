-- ===== src/Sessions/Ideal/Rotating.antt =====
-- A rotation, with a reply from Redis, and its ideal.
use node_jwt_redis_session_a.Base.{
  Text, ℕ, ◌<◌, ◌^◌, ◌*◌, ◌≡◌, refl, sym, ap, ◌∙◌, subst, Option, none, some, [], ◌===◌, ===_iff,
  Bool-cases, inl, inr, arith, Result, ok, leb, next_fault, later_faults,
}
use node_jwt_redis_session_a.Redis.{Redis}
use node_jwt_redis_session_a.Redis.Client.{Client, request-clock, request-faults}
use node_jwt_redis_session_a.Sessions
use node_jwt_redis_session_a.Sessions.{
  Codec, SessionRecord, RotateParams, RotateOutcome, rotated, concurrent, reused, missing,
  IsPrecise, session_key, user_sessions_key, session_idle_ttl_seconds, refresh_grace_period_ms,
  within_grace, rotated_record, rotated_ttl,
}
use node_jwt_redis_session_a.Sessions.Rotation.{
  run, rotate_script-missing, rotate_script-Holds, rotate_session-current, rotate_session-over,
  rotate_session-stale, rotated_ttl_bounds, rotated_record-IsPrecise, script,
}
use node_jwt_redis_session_a.Sessions.Rotate.{rotate-delivered}
use node_jwt_redis_session_a.Sessions.Ideal.{
  Ideal, remove_session, remove_from_index, rotate_call, Reply, outcome, rotate_ideal, rotate_found,
  ideal, perform, Shows, Represents,
}
use node_jwt_redis_session_a.Sessions.Ideal.Commands.{
  set_ex-Represents, del-Represents, srem-Represents,
}
use node_jwt_redis_session_a.Sessions.Ideal.Calls.{Meets, mapped-Meets}

module _ (R : Redis) (C : Codec) (id uid : Text) (p : RotateParams) where
  -- The script's result and what it leaves.
  abbrev Agrees : ℕ → Reply × Ideal → Result RotateOutcome × R.Store → Type 0
  Agrees t (reply, a) (r, s) =
      (o : RotateOutcome) × (r ≡ ok o) × (reply ≡ outcome o) × Represents R C s t a

  module _ (t : ℕ) (s : R.Store) (a : Ideal) (h : Represents R C s t a) where
    revoked-Represents :
        Represents R C
          (R.srem (user_sessions_key uid) id t (R.del (session_key id) t s))
          t
          (remove_from_index uid id (remove_session id a))
    revoked-Represents = srem-Represents R C t uid id _ _ (del-Represents R C t id s a h)

    ideal-Agrees :
        (r : SessionRecord)
        → IsPrecise r
        → p.now < 9 * 10 ^ 13
        → Agrees t (rotate_ideal id uid p r a) (script R C id uid p t s r)
    ideal-Agrees r precise small = elim (Bool-cases (r.refresh_token_hash === p.presented_hash)) [
      | inl same ↦ elim (Bool-cases (leb r.absolute_expires_at p.now)) [
        | inl over ↦
            rw
              (
                same,
                over,
                rotate_session-over R C id uid p t s r ((===_iff _ _).0 same) (ground arith),
              )
              (missing, refl, refl, revoked-Represents)
        | inr fresh ↦
            let later : p.now < r.absolute_expires_at = ground arith in
            let fine = rotated_record-IsPrecise r p precise small in
            rw (same, fresh, rotate_session-current R C id uid p t s r ((===_iff _ _).0 same) later)
              (
                rotated,
                refl,
                refl,
                set_ex-Represents R C t id _ _ s (rotated_record r p session_idle_ttl_seconds) a
                    (rotated_ttl_bounds r p session_idle_ttl_seconds (omega arith) later).0
                    (C.cjson_decode-cjson_encode _ fine) (C.parse-cjson_encode _ fine) fine h,
              )
      ]
      | inr other ↦ elim (Bool-cases (within_grace r p refresh_grace_period_ms)) [
        | inl within ↦
            rw (other, rotate_session-stale R C id uid p t s r other, within)
              (concurrent, refl, refl, h)
        | inr late ↦
            rw (other, rotate_session-stale R C id uid p t s r other, late)
              (reused, refl, refl, revoked-Represents)
      ]
    ]

    found-Agrees :
        (o : Option SessionRecord)
        → Shows R C s t id o
        → p.now < 9 * 10 ^ 13
        → Agrees t (rotate_found id uid p o a) (run R C id uid p t s)
    found-Agrees none l small =
        rw (rotate_script-missing R C id uid p t s l) (missing, refl, refl, h)
    found-Agrees (some r) (held, precise) small =
        rw (rotate_script-Holds R C id uid p t s r held) (ideal-Agrees r precise small)

  pub rotate-Meets :
      (c : Client R) (a : Ideal)
      → c.faults ≡ []
      → Represents R C c.store c.clock a
      → p.now < 9 * 10 ^ 13
      → Meets R C c (ideal (rotate_call id uid p) a) (perform R C (rotate_call id uid p) c)
  unfolding Sessions.rotate
  rotate-Meets c a calm h small =
      let (out, after) = rotate-delivered R C id uid p c (ap next_fault calm) in
      let (o, replied, same, kept) =
        found-Agrees c.clock c.store a h (a.sessions id) (h.shown id) small in
      subst
        (λ reply.
          Meets R C c (reply, (ideal (rotate_call id uid p) a).1)
            (perform R C (rotate_call id uid p) c))
        (sym same)
        (mapped-Meets R C (Sessions.rotate R C id uid p) outcome c o _ (out ∙ replied)
          (subst (λ s. Represents R C s c.clock (ideal (rotate_call id uid p) a).1) (sym after)
            kept)
          (request-faults _ c ∙ ap later_faults calm) (request-clock _ c))
