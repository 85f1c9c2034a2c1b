-- ===== src/Sessions/Schedule/Turns.antt =====
-- What one rotation does to a session and to the count of the wins.
use node_jwt_redis_session_a.Base.{
  Text, ◌*◌, ◌≤◌, ◌<◌, ◌^◌, ◌≡◌, ◌≢◌, ◌⊎◌, ap, ◌∙◌, false, some, err, ◌===◌, ne→===, arith, inl,
  inr, ===-refl,
}
use node_jwt_redis_session_a.Redis.{Redis}
use node_jwt_redis_session_a.Redis.Client.{Client, request-clock, no_reply}
use node_jwt_redis_session_a.Sessions.{
  Codec, IsPrecise, RotateParams, SessionRecord, rotate, rotated_record, session_idle_ttl_seconds,
}
use node_jwt_redis_session_a.Sessions.Views.{raw_at, raw_at-set_ex}
use node_jwt_redis_session_a.Sessions.Rotation.{run, rotated_record-IsPrecise}
use node_jwt_redis_session_a.Sessions.Effect.{
  Swapped-ttl, rotate-cases, Swapped, Quiet, rotate_script-cases,
}
use node_jwt_redis_session_a.Sessions.Schedule.{
  rotating, is_rotated, is_rotated-refused, won, IsFresh, Reads, Precise, Turn, still, swap,
  Advance-same_clock,
}

module _ (R : Redis) (C : Codec) where
  module _ (j user_id : Text) (p : RotateParams) (c : Client R) (id h : Text) where
    after : Client R
    after = (rotate R C j user_id p c).1

    lost_turn :
        is_rotated (rotate R C j user_id p c).0 ≡ false → won R C id h (rotating j user_id p) c ≡ 0
    unfolding won
    lost_turn e = rw e (ground arith)

    won_le : won R C id h (rotating j user_id p) c ≤ 1
    unfolding won
    won_le = ground arith

    won_other : (j === id) ≡ false → won R C id h (rotating j user_id p) c ≡ 0
    unfolding won
    won_other e = rw e

    won_unpresented : p.presented_hash ≢ h → won R C id h (rotating j user_id p) c ≡ 0
    unfolding won
    won_unpresented e = rw (ne→=== e) (ground arith)

    after-clock : after.clock ≡ c.clock
    unfolding after rotate
    after-clock = request-clock _ c

    rejected-Turn :
        (rotate R C j user_id p c).0 ≡ err no_reply
        → after.store ≡ c.store
        → Turn R C id h c after (won R C id h (rotating j user_id p) c)
    rejected-Turn e same =
        still
          (Advance-same_clock R C id c after after-clock
            (inl (ap (λ s. raw_at R s c.clock id) same)))
          (lost_turn (rw e))

    quiet-Turn :
        Quiet R C j user_id p c.clock c.store
        → ((rotate R C j user_id p c).0 ≡ (run R C j user_id p c.clock c.store).0)
          ⊎ ((rotate R C j user_id p c).0 ≡ err no_reply)
        → after.store ≡ (run R C j user_id p c.clock c.store).1
        → Turn R C id h c after (won R C id h (rotating j user_id p) c)
    quiet-Turn q (inl e) ran =
        still (Advance-same_clock R C id c after after-clock (rw ran (q.kept id)))
          (lost_turn (rw e (is_rotated-refused _ q.refused)))
    quiet-Turn q (inr e) ran =
        still (Advance-same_clock R C id c after after-clock (rw ran (q.kept id)))
          (lost_turn (rw e))

    other-Turn :
        (j === id) ≡ false
        → Swapped R C j user_id p c.clock c.store
        → after.store ≡ (run R C j user_id p c.clock c.store).1
        → Turn R C id h c after (won R C id h (rotating j user_id p) c)
    other-Turn apart w ran =
        still
          (Advance-same_clock R C id c after after-clock (
            inl (
              ap (λ s. raw_at R s c.clock id) (ran ∙ ap (λ x. x.1) w.result)
              ∙ raw_at-set_ex R j _ _ c.clock c.store id
                  (Swapped-ttl R C j user_id p c.clock c.store w)
              ∙ rw apart)))
          (won_other apart)

  module _ (user_id : Text) (p : RotateParams) (c : Client R) (id h : Text) where
    own_after : Client R
    own_after = (rotate R C id user_id p c).1

    own_clock : own_after.clock ≡ c.clock
    unfolding own_after rotate
    own_clock = request-clock _ c

    module _ (w : Swapped R C id user_id p c.clock c.store)
        (ran : own_after.store ≡ (run R C id user_id p c.clock c.store).1)
        (precise : Precise R C id c) (new : p.new_hash ≢ h) (small : p.now < 9 * 10 ^ 13) where
      own_next : SessionRecord
      own_next = rotated_record w.session p session_idle_ttl_seconds

      own_next-IsPrecise : IsPrecise own_next
      unfolding own_next
      own_next-IsPrecise =
          rotated_record-IsPrecise w.session p
            (precise.precise w.session (w.raw, w.stored, w.decoded)) small

      own_raw : raw_at R own_after.store own_after.clock id ≡ some (C.cjson_encode own_next)
      unfolding own_next
      own_raw = rw (own_clock) (
          ap (λ s. raw_at R s c.clock id) (ran ∙ ap (λ x. x.1) w.result)
          ∙ raw_at-set_ex R id _ _ c.clock c.store id
              (Swapped-ttl R C id user_id p c.clock c.store w)
          ∙ rw (===-refl id))

      own_Reads : (r : SessionRecord) → Reads R C own_after id r → r ≡ own_next
      own_Reads r (raw, e, d) =
          let same : raw ≡ C.cjson_encode own_next = cc (e, own_raw) in
          cc (d, same, C.cjson_decode-cjson_encode own_next own_next-IsPrecise)

      own-Turn : Turn R C id h c own_after (won R C id h (rotating id user_id p) c)
      unfolding own_next
      own-Turn =
          swap (record { precise = λ r reads. rw (own_Reads r reads) own_next-IsPrecise })
            (record { other = λ r reads. rw (own_Reads r reads) new }) (won_le id user_id p c id h)
            (λ ret.
              won_unpresented id user_id p c id h
                (λ e. ret.other w.session (w.raw, w.stored, w.decoded) (w.same ∙ e)))

  pub own_rotation :
      (user_id : Text) (p : RotateParams) (c : Client R) (id h : Text)
      → Precise R C id c
      → IsFresh R C id h (rotating id user_id p)
      → Turn R C id h c (rotate R C id user_id p c).1 (won R C id h (rotating id user_id p) c)
  unfolding after own_after rotate
  own_rotation user_id p c id h precise (new, small) = elim (rotate-cases R C id user_id p c) [
    | inl (refused, same) ↦ rejected-Turn id user_id p c id h refused same
    | inr (reply, ran) ↦ elim (rotate_script-cases R C id user_id p c.clock c.store) [
      | inl w ↦ own-Turn user_id p c id h w ran precise new small
      | inr q ↦ quiet-Turn id user_id p c id h q reply ran
    ]
  ]

  pub other_rotation :
      (j user_id : Text) (p : RotateParams) (c : Client R) (id h : Text)
      → (j === id) ≡ false
      → Turn R C id h c (rotate R C j user_id p c).1 (won R C id h (rotating j user_id p) c)
  unfolding after rotate
  other_rotation j user_id p c id h apart = elim (rotate-cases R C j user_id p c) [
    | inl (refused, same) ↦ rejected-Turn j user_id p c id h refused same
    | inr (reply, ran) ↦ elim (rotate_script-cases R C j user_id p c.clock c.store) [
      | inl w ↦ other-Turn j user_id p c id h apart w ran
      | inr q ↦ quiet-Turn j user_id p c id h q reply ran
    ]
  ]
