-- ===== src/Sessions/Revocation.antt =====
-- SessionRepository.delete and SessionRepository.deleteAllForUser: what a logout leaves.
use node_jwt_redis_session_a.Base.{
  Text, ℕ, ◌-◌, ◌<◌, min, ◌≡◌, ap, ◌∙◌, not, ◌&&◌, none, [], ok, ◌===◌, if◌then◌else◌, length,
  ===-refl, arith,
}
use node_jwt_redis_session_a.Redis.{Redis, has}
use node_jwt_redis_session_a.Redis.Client.{
  Client, delivered, next_fault, request-delivered, request, exec, run_queue,
}
use node_jwt_redis_session_a.Sessions.{
  Codec, SessionRecord, user_sessions_key, session_prefix, session_key, delete, delete_all_for_user,
  delete_all_script, create, exec_or_throw, first_error, ceil_seconds, session_idle_ttl_seconds,
  set_command_positive,
}
use node_jwt_redis_session_a.Sessions.Views.{
  raw_at, raw_at-del, raw_at-srem, index_at, index_at-del, index_at-del_index,
}
use node_jwt_redis_session_a.Sessions.Operations.{raw_at-delete_all}
use node_jwt_redis_session_a.Sessions.Transactions.{exec_or_throw-Ran}

module _ (R : Redis) where
  -- A logout that reports success, under any faults: its session is gone, no other session has
  -- changed, and the user's index has lost that session and no other.
  pub delete-ok :
      (id user_id : Text) (c : Client R)
      → (delete R id user_id c).0 ≡ ok tt
      → let s = (delete R id user_id c).1.store in
        ((j : Text)
          → raw_at R s c.clock j ≡ (if id === j then none else raw_at R c.store c.clock j))
        × ((m : Text)
            → has (index_at R s c.clock user_id) m
              ≡ (not (id === m) && has (index_at R c.store c.clock user_id) m))
  unfolding delete
  delete-ok id user_id c h =
      let ran = exec_or_throw-Ran R _ c h in
      let t = c.clock in
      let gone = R.del (session_key id) t c.store in
      let same = ran.1.1 in
      (
        λ j.
            ap (λ s. raw_at R s t j) same
            ∙ raw_at-srem R user_id id t gone j
            ∙ raw_at-del R id t c.store j,
        λ m.
            ap (λ s. has (index_at R s t user_id) m) same
            ∙ R.has-srem (user_sessions_key user_id) id t gone m
            ∙ ap (λ o. not (id === m) && has o m) (index_at-del R id t c.store user_id),
      )

  -- Without faults a logout reports success.
  pub delete-reply :
      (id user_id : Text) (c : Client R) → c.faults ≡ [] → (delete R id user_id c).0 ≡ ok tt
  unfolding delete exec_or_throw exec request run_queue first_error
  delete-reply id user_id c h = rw h

  -- A logout from everywhere, with a reply from Redis: it answers with the number of the user's
  -- indexed sessions; each of them is gone, no other session has changed, and the user's index is
  -- gone.
  pub delete_all_for_user-delivered :
      (user_id : Text) (c : Client R)
      → next_fault c.faults ≡ delivered
      → let s = (delete_all_for_user R user_id c).1.store in
        ((delete_all_for_user R user_id c).0
          ≡ ok (length (R.smembers (user_sessions_key user_id) c.clock c.store)))
        × ((j : Text)
            → raw_at R s c.clock j ≡ (
                if has (index_at R c.store c.clock user_id) j
                then none
                else raw_at R c.store c.clock j))
        × (index_at R s c.clock user_id ≡ none)
  unfolding delete_all_for_user delete_all_script
  delete_all_for_user-delivered user_id c f =
      let e =
        request-delivered (delete_all_script R (user_sessions_key user_id) session_prefix) c f in
      (
        ap (λ x. x.0) e,
        λ j.
            ap (λ x. raw_at R x.1.store c.clock j) e
            ∙ raw_at-delete_all R user_id c.clock c.store j,
        ap (λ x. index_at R x.1.store c.clock user_id) e
            ∙ index_at-del_index R user_id c.clock _ user_id
            ∙ rw (===-refl user_id),
      )

module _ (R : Redis) (C : Codec) where
  -- Without faults a session whose absolute lifetime is not over is stored.
  pub create-reply :
      (date_now : ℕ) (id : Text) (r : SessionRecord) (c : Client R)
      → c.faults ≡ []
      → date_now < r.absolute_expires_at
      → (create R C date_now id r c).0 ≡ ok tt
  unfolding create exec_or_throw exec request run_queue first_error
  create-reply date_now id r c h fresh =
      let n = min session_idle_ttl_seconds (ceil_seconds (r.absolute_expires_at - date_now)) in
      rw
        (h, set_command_positive R (session_key id) (C.stringify r) n c.clock c.store (omega arith))
