-- ===== src/Sessions/Effect.antt =====
-- What each operation of SessionRepository may do to the text under a session's key.
use node_jwt_redis_session_a.Base.{
  Text, ℕ, ◌<◌, ◌≡◌, ◌≢◌, ◌⊎◌, sym, ap, ◌∙◌, Bool, true, false, Option, none, some, Result, ok, err,
  ◌===◌, if◌then◌else◌, arith, ===_iff, Bool-cases, Option-cases, inl, inr,
}
use native.Mathlib.Decide.{dec_lt}
use node_jwt_redis_session_a.Redis.{Redis}
use node_jwt_redis_session_a.Redis.Client.{Client, request-cases, no_reply, request-clock}
use node_jwt_redis_session_a.Sessions.{
  Codec, RotateParams, RotateOutcome, rotated, SessionRecord, session_key, user_sessions_key,
  rotate_script, rotated_ttl, rotated_record, within_grace, session_idle_ttl_seconds,
  refresh_grace_period_ms, rotate, concurrent, missing, reused, undecodable,
}
use node_jwt_redis_session_a.Sessions.Views.{raw_at}
use node_jwt_redis_session_a.Sessions.Rotation.{
  rotated_ttl_bounds, run, rotate_script-missing, rotate_script-decoded, rotate_session-current,
  rotate_session-over, rotate_session-stale, raw_at-revoked, script, revoked, rotate_script-garbled,
}

-- A session's text is left alone, or it is deleted.
abbrev pub KeptOrGone : Option Text → Option Text → Type 0
KeptOrGone before after = (after ≡ before) ⊎ (after ≡ none)

pub KeptOrGone-if :
    (b : Bool) {before after : Option Text}
    → after ≡ (if b then none else before)
    → KeptOrGone before after
KeptOrGone-if true h = inr h
KeptOrGone-if false h = inl h

pub KeptOrGone-trans : {a b d : Option Text} → KeptOrGone a b → KeptOrGone b d → KeptOrGone a d
KeptOrGone-trans (inl e) (inl f) = inl (f ∙ e)
KeptOrGone-trans (inr e) (inl f) = inr (f ∙ e)
KeptOrGone-trans _ (inr f) = inr f

module _ (R : Redis) (C : Codec) (id user_id : Text) (p : RotateParams) (t : ℕ) (s : R.Store) where
  -- The rotation took place: the current hash was presented in time.
  pub record Swapped : Type 0 where
    pub raw : Text
    pub session : SessionRecord
    pub stored : raw_at R s t id ≡ some raw
    pub decoded : C.cjson_decode raw ≡ some session
    pub same : session.refresh_token_hash ≡ p.presented_hash
    pub fresh : p.now < session.absolute_expires_at
    pub result : run R C id user_id p t s ≡ (
      ok rotated,
      R.set_ex
          (session_key id)
          (C.cjson_encode (rotated_record session p session_idle_ttl_seconds))
          (rotated_ttl session p session_idle_ttl_seconds)
          t
          s,
    )

  -- It did not: the session is as it was or gone, and the answer is not 'rotated'.
  pub record Quiet : Type 0 where
    pub kept : (j : Text) → KeptOrGone (raw_at R s t j) (raw_at R (run R C id user_id p t s).1 t j)
    pub refused : (run R C id user_id p t s).0 ≢ ok rotated

  Quiet-of_same :
      {o : Result RotateOutcome} → o ≢ ok rotated → run R C id user_id p t s ≡ (o, s) → Quiet
  Quiet-of_same h e = record {
    kept = λ j. inl (ap (λ x. raw_at R x.1 t j) e);
    refused = λ k. h (sym (ap (λ x. x.0) e) ∙ k);
  }

  Quiet-revoked :
      (r : SessionRecord) {o : Result RotateOutcome}
      → o ≢ ok rotated
      → run R C id user_id p t s ≡ (o, revoked R C id user_id p t s r)
      → Quiet
  Quiet-revoked r h e = record {
    kept = λ j.
        KeptOrGone-if (id === j)
          (ap (λ x. raw_at R x.1 t j) e ∙ raw_at-revoked R C id user_id p t s r j);
    refused = λ k. h (sym (ap (λ x. x.0) e) ∙ k);
  }

  Quiet-stale :
      (r : SessionRecord)
      → run R C id user_id p t s ≡ script R C id user_id p t s r
      → (r.refresh_token_hash === p.presented_hash) ≡ false
      → Quiet
  Quiet-stale r e other =
      let e' = e ∙ rotate_session-stale R C id user_id p t s r other in
      elim (Bool-cases (within_grace r p refresh_grace_period_ms)) [
        | inl graced ↦ Quiet-of_same {o = ok concurrent} (λ k. cc) (e' ∙ rw graced)
        | inr late ↦ Quiet-revoked r {o = ok reused} (λ k. cc) (e' ∙ rw late)
      ]

  decoded-cases :
      (raw : Text) (r : SessionRecord)
      → raw_at R s t id ≡ some raw
      → C.cjson_decode raw ≡ some r
      → Swapped ⊎ Quiet
  decoded-cases raw r e d =
      let ran = rotate_script-decoded R C id user_id p t s r raw e d in
      elim (Bool-cases (r.refresh_token_hash === p.presented_hash)) [
        | inr other ↦ inr (Quiet-stale r ran other)
        | inl same ↦
            let same' = (===_iff _ _).0 same in
            elim (dec_lt p.now r.absolute_expires_at) [
              | yes fresh ↦ inl (record {
                raw = raw;
                session = r;
                stored = e;
                decoded = d;
                same = same';
                fresh = fresh;
                result = ran ∙ rotate_session-current R C id user_id p t s r same' fresh;
              })
              | no over ↦ inr (
                  Quiet-revoked r {o = ok missing} (λ k. cc)
                    (ran ∙ rotate_session-over R C id user_id p t s r same' (omega arith)))
            ]
      ]

  -- Every run of ROTATE_SCRIPT is one or the other.
  pub rotate_script-cases : Swapped ⊎ Quiet
  rotate_script-cases = elim (Option-cases (raw_at R s t id)) [
    | inl absent ↦ inr (
        Quiet-of_same {o = ok missing} (λ k. cc)
          (rotate_script-missing R C id user_id p t s absent))
    | inr (raw, e) ↦ elim (Option-cases (C.cjson_decode raw)) [
      | inl bad ↦ inr (
          Quiet-of_same {o = err undecodable} (λ k. cc)
            (rotate_script-garbled R C id user_id p t s raw e bad))
      | inr (r, d) ↦ decoded-cases raw r e d
    ]
  ]

  pub Swapped-ttl : (w : Swapped) → 0 < rotated_ttl w.session p session_idle_ttl_seconds
  Swapped-ttl w = (rotated_ttl_bounds w.session p session_idle_ttl_seconds (omega arith) w.fresh).0

module _ (R : Redis) (C : Codec) (id user_id : Text) (p : RotateParams) (c : Client R) where
  pub rotate-cases :
      (((rotate R C id user_id p c).0 ≡ err no_reply)
        × ((rotate R C id user_id p c).1.store ≡ c.store))
      ⊎ ((((rotate R C id user_id p c).0 ≡ (run R C id user_id p c.clock c.store).0)
            ⊎ ((rotate R C id user_id p c).0 ≡ err no_reply))
          × ((rotate R C id user_id p c).1.store ≡ (run R C id user_id p c.clock c.store).1))
  unfolding rotate
  rotate-cases =
      request-cases
        (rotate_script R C (session_key id) (user_sessions_key user_id) p refresh_grace_period_ms
          session_idle_ttl_seconds id)
        c

  -- An answer 'rotated' comes only from a rotation that took place.
  pub rotate-rotated :
      (rotate R C id user_id p c).0 ≡ ok rotated
      → Swapped R C id user_id p c.clock c.store
        × ((rotate R C id user_id p c).1.store ≡ (run R C id user_id p c.clock c.store).1)
  rotate-rotated h = elim rotate-cases [
    | inl (refused, same) ↦ absurd (cc (refused, h))
    | inr (inr silent, ran) ↦ absurd (cc (silent, h))
    | inr (inl replied, ran) ↦ elim (rotate_script-cases R C id user_id p c.clock c.store) [
      | inl w ↦ (w, ran)
      | inr q ↦ absurd (q.refused (sym replied ∙ h))
    ]
  ]

  pub rotate-clock : (rotate R C id user_id p c).1.clock ≡ c.clock
  unfolding rotate
  rotate-clock = request-clock _ c
