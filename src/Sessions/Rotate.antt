-- ===== src/Sessions/Rotate.antt =====
-- What SessionRepository.rotate promises its callers.
use node_jwt_redis_session_a.Base.{
  Text, ℕ, ◌+◌, ◌*◌, ◌≤◌, ◌<◌, ◌^◌, ◌≡◌, ◌≢◌, refl, ap, ◌∙◌, true, none, some, ok, ◌===◌, ===_iff,
  ===-refl, ne→===, sym, if◌then◌else◌, arith, inl, inr, Option-cases, not_true,
}
use node_jwt_redis_session_a.Redis.{Redis}
use node_jwt_redis_session_a.Redis.Client.{Client, delivered, next_fault, request-delivered}
use node_jwt_redis_session_a.Sessions.{
  Codec, IsPrecise, RotateParams, rotated, concurrent, reused, missing, SessionRecord, session_key,
  rotated_record, within_grace, session_idle_ttl_seconds, refresh_grace_period_ms, rotate,
}
use node_jwt_redis_session_a.Sessions.Views.{raw_at, raw_at-set_ex, Holds, Lacks}
use node_jwt_redis_session_a.Sessions.Rotation.{
  run, rotate_script-missing, rotate_script-Holds, rotate_session-current, rotate_session-over,
  rotate_session-stale, raw_at-revoked, Holds-rotated, rotated_ttl_bounds,
}

-- The presented hash is the one that was rotated away last, at most the grace period ago.
pub record IsInGrace (r : SessionRecord) (p : RotateParams) : Type 0 where
  pub at : ℕ
  pub previous : r.previous_refresh_token_hash ≡ some p.presented_hash
  pub rotated_at : r.rotated_at ≡ some at
  pub recent : p.now ≤ at + 30000

-- What a rotation makes of a session.
pub record IsRenewed (r : SessionRecord) (p : RotateParams) (r' : SessionRecord) : Type 0 where
  pub user : r'.user_id ≡ r.user_id
  pub role : r'.role ≡ p.role
  pub hash : r'.refresh_token_hash ≡ p.new_hash
  pub previous : r'.previous_refresh_token_hash ≡ some p.presented_hash
  pub at : r'.rotated_at ≡ some p.now
  pub created : r'.created_at ≡ r.created_at
  pub absolute : r'.absolute_expires_at ≡ r.absolute_expires_at
  pub alive : p.now < r'.expires_at
  pub idle : r'.expires_at ≤ p.now + 7 * 24 * 60 * 60 * 1000
  pub bounded : r'.expires_at < r.absolute_expires_at + 1000

renewed :
    (r : SessionRecord) (p : RotateParams)
    → p.now < r.absolute_expires_at
    → IsRenewed r p (rotated_record r p session_idle_ttl_seconds)
renewed r p fresh =
    let (least, most, close) =
      rotated_ttl_bounds r p session_idle_ttl_seconds (omega arith) fresh in
    record {
      user = refl;
      role = refl;
      hash = refl;
      previous = refl;
      at = refl;
      created = refl;
      absolute = refl;
      alive = omega arith;
      idle = omega arith;
      bounded = omega arith;
    }

within_grace_sound :
    (r : SessionRecord) (p : RotateParams)
    → within_grace r p refresh_grace_period_ms ≡ true
    → IsInGrace r p
within_grace_sound r p h = elim (Option-cases r.rotated_at) [
  | inl never ↦ absurd (ground arith)
  | inr (at, e) ↦ elim (Option-cases r.previous_refresh_token_hash) [
    | inl first ↦ absurd (ground arith)
    | inr (q, e') ↦ record {
      at = at;
      previous = ground (arith, ===_iff q p.presented_hash);
      rotated_at = e;
      recent = ground arith;
    }
  ]
]

within_grace_complete :
    (r : SessionRecord) (p : RotateParams)
    → IsInGrace r p
    → within_grace r p refresh_grace_period_ms ≡ true
within_grace_complete r p g = ground (arith, g.previous, g.rotated_at, ===-refl p.presented_hash)

set_ex-other :
    (R : Redis) (id v : Text) (n t : ℕ) (s : R.Store) (j : Text)
    → 0 < n
    → raw_at R (R.set_ex (session_key id) v n t s) t j
      ≡ (if id === j then raw_at R (R.set_ex (session_key id) v n t s) t id else raw_at R s t j)
set_ex-other R id v n t s j h =
    raw_at-set_ex R id v n t s j h
    ∙ ap (λ o. if id === j then o else raw_at R s t j)
        (sym (raw_at-set_ex R id v n t s id h ∙ rw (===-refl id)))

module _ (R : Redis) (C : Codec) (id user_id : Text) (p : RotateParams) (c : Client R) where
  pub rotate-delivered :
      next_fault c.faults ≡ delivered
      → ((rotate R C id user_id p c).0 ≡ (run R C id user_id p c.clock c.store).0)
        × ((rotate R C id user_id p c).1.store ≡ (run R C id user_id p c.clock c.store).1)
  unfolding rotate
  rotate-delivered h = let e = request-delivered _ c h in (ap (λ x. x.0) e, ap (λ x. x.1.store) e)

  -- A presented hash that is current, before the absolute lifetime is over, with a reply from Redis
  -- and times that Lua prints exactly: the outcome is 'rotated', Redis then holds the renewed
  -- session, with the new hash, the old one as the previous, the role of the request, the same user
  -- and absolute lifetime, and an expiry that is not past and not beyond the idle lifetime or, by a
  -- second or more, the absolute lifetime; and no other session changes.
  pub rotate-current :
      (r : SessionRecord)
      → next_fault c.faults ≡ delivered
      → Holds R C c.store c.clock id r
      → IsPrecise r
      → p.now < 9 * 10 ^ 13
      → r.refresh_token_hash ≡ p.presented_hash
      → p.now < r.absolute_expires_at
      → ((rotate R C id user_id p c).0 ≡ ok rotated)
        × ((r' : SessionRecord) × Holds R C (rotate R C id user_id p c).1.store c.clock id r'
            × IsRenewed r p r')
        × ((j : Text)
            → raw_at R (rotate R C id user_id p c).1.store c.clock j ≡ (
                if id === j
                then raw_at R (rotate R C id user_id p c).1.store c.clock id
                else raw_at R c.store c.clock j))
  rotate-current r f h pr n same fresh =
      let (out, after) = rotate-delivered f in
      let e =
        rotate_script-Holds R C id user_id p c.clock c.store r h
        ∙ rotate_session-current R C id user_id p c.clock c.store r same fresh in
      let bounds = rotated_ttl_bounds r p session_idle_ttl_seconds (omega arith) fresh in
      (
        out ∙ ap (λ x. x.0) e,
        (
          rotated_record r p session_idle_ttl_seconds,
          rw (after ∙ ap (λ x. x.1) e)
              (Holds-rotated R C id user_id p c.clock c.store r _ bounds.0 pr n),
          renewed r p fresh,
        ),
        λ j. rw (after ∙ ap (λ x. x.1) e) (set_ex-other R id _ _ c.clock c.store j bounds.0),
      )

  -- The hash that was rotated away last, at most 30 s ago, so that exactly 30 s ago, where the
  -- documentation says less than 30 s, still counts, with a reply from Redis: the outcome is
  -- 'concurrent' and the store stays as it is.
  pub rotate-concurrent :
      (r : SessionRecord)
      → next_fault c.faults ≡ delivered
      → Holds R C c.store c.clock id r
      → r.refresh_token_hash ≢ p.presented_hash
      → IsInGrace r p
      → ((rotate R C id user_id p c).0 ≡ ok concurrent)
        × ((rotate R C id user_id p c).1.store ≡ c.store)
  rotate-concurrent r f h other g =
      let (out, after) = rotate-delivered f in
      let e =
        rotate_script-Holds R C id user_id p c.clock c.store r h
        ∙ rotate_session-stale R C id user_id p c.clock c.store r (ne→=== other)
        ∙ rw (within_grace_complete r p g) in
      (out ∙ ap (λ x. x.0) e, after ∙ ap (λ x. x.1) e)

  -- Any other hash than the current one and the one in its grace period, with a reply from Redis:
  -- the outcome is 'reused', and the session is gone, but no other.
  pub rotate-reused :
      (r : SessionRecord)
      → next_fault c.faults ≡ delivered
      → Holds R C c.store c.clock id r
      → r.refresh_token_hash ≢ p.presented_hash
      → ¬ IsInGrace r p
      → ((rotate R C id user_id p c).0 ≡ ok reused)
        × ((j : Text)
            → raw_at R (rotate R C id user_id p c).1.store c.clock j
              ≡ (if id === j then none else raw_at R c.store c.clock j))
  rotate-reused r f h other late =
      let (out, after) = rotate-delivered f in
      let e =
        rotate_script-Holds R C id user_id p c.clock c.store r h
        ∙ rotate_session-stale R C id user_id p c.clock c.store r (ne→=== other)
        ∙ rw (not_true (λ g. late (within_grace_sound r p g))) in
      (
        out ∙ ap (λ x. x.0) e,
        λ j. rw (after ∙ ap (λ x. x.1) e) (raw_at-revoked R C id user_id p c.clock c.store r j),
      )

  -- The current hash when the absolute lifetime is over, with a reply from Redis: the outcome is
  -- 'missing', and the session is gone.
  pub rotate-over :
      (r : SessionRecord)
      → next_fault c.faults ≡ delivered
      → Holds R C c.store c.clock id r
      → r.refresh_token_hash ≡ p.presented_hash
      → r.absolute_expires_at ≤ p.now
      → ((rotate R C id user_id p c).0 ≡ ok missing)
        × Lacks R (rotate R C id user_id p c).1.store c.clock id
  rotate-over r f h same over =
      let (out, after) = rotate-delivered f in
      let e =
        rotate_script-Holds R C id user_id p c.clock c.store r h
        ∙ rotate_session-over R C id user_id p c.clock c.store r same over in
      (
        out ∙ ap (λ x. x.0) e,
        rw (after ∙ ap (λ x. x.1) e)
            (raw_at-revoked R C id user_id p c.clock c.store r id ∙ rw (===-refl id)),
      )

  pub rotate-missing :
      next_fault c.faults ≡ delivered
      → Lacks R c.store c.clock id
      → ((rotate R C id user_id p c).0 ≡ ok missing)
        × ((rotate R C id user_id p c).1.store ≡ c.store)
  rotate-missing f l =
      let (out, after) = rotate-delivered f in
      let e = rotate_script-missing R C id user_id p c.clock c.store l in
      (out ∙ ap (λ x. x.0) e, after ∙ ap (λ x. x.1) e)
