-- ===== src/Auth/Starting.antt =====
-- The session that AuthService.login opens once the credentials are accepted.
use node_jwt_redis_session_a.Base.{
  Text, ℕ, ◌+◌, ◌*◌, ◌++◌, ◌∷◌, ◌≡◌, sym, ap, ◌∙◌, subst, none, Result, ok, bind-inv,
}
use node_jwt_redis_session_a.Account.{UserRecord}
use node_jwt_redis_session_a.Redis.Client.{request-clock}
use node_jwt_redis_session_a.Sessions.Views.{Holds}
use node_jwt_redis_session_a.Throttle.{reset, reset_command}
use node_jwt_redis_session_a.Platform.{Platform, World, on_redis}
use node_jwt_redis_session_a.Auth.{LoginResult, start_session, open_session, new_session}
use node_jwt_redis_session_a.Tokens.{generate_refresh_token, hash_refresh_validator, refresh_token}
use node_jwt_redis_session_a.Auth.Opening.{Granted, fresh_pair, open_session-ok}
use node_jwt_redis_session_a.Sessions.{SessionRecord}

-- A session that is opened at a time: not rotated so far, for seven days without a refresh, and for
-- thirty days at most.
abbrev pub opened : UserRecord → Text → ℕ → SessionRecord
opened u hash now = record {
  user_id = u.id;
  role = u.role;
  refresh_token_hash = hash;
  previous_refresh_token_hash = none;
  rotated_at = none;
  created_at = now;
  expires_at = now + 7 * 24 * 60 * 60 * 1000;
  absolute_expires_at = now + 30 * 24 * 60 * 60 * 1000;
}

module _ (F : Platform) where
  -- The secret half of the new refresh token, and what Redis holds of it.
  abbrev pub validator_of : World F → Text
  validator_of w = F.crypto.base64url (w.bytes 0)

  abbrev pub stored_hash : World F → Text
  stored_hash w = F.crypto.sha256_hex (validator_of w)

  pub start_session-ok :
      (username : Text) (u : UserRecord) (w : World F) (res : LoginResult)
      → (start_session F username u w).0 ≡ ok res
      → Granted F w (w.uuids 0) (fresh_pair F w) u res
        × Holds F.redis F.sessions
            (start_session F username u w).1.client.store
            w.client.clock
            (w.uuids 0)
            (opened u (stored_hash w) w.now)
  unfolding start_session on_redis reset new_session generate_refresh_token hash_refresh_validator
  start_session-ok username u w res h =
      let clear = reset F.redis F.to_lower F.throttle username in
      let (done, cleared, rest) = bind-inv (on_redis clear) (λ _. open_session F u) w h in
      let w1 = (on_redis clear w).1 in
      let (granted, stored) = open_session-ok F u w1 res (sym (ap (λ x. x.0) rest) ∙ h) in
      (
        record { signed = granted.signed; named = granted.named; shown = granted.shown },
        subst
            (λ t.
              Holds F.redis F.sessions (start_session F username u w).1.client.store t (w.uuids 0)
                (opened u (stored_hash w) w.now))
            (request-clock (reset_command F.redis F.to_lower F.throttle username) w.client)
            (subst
              (λ (x : Result LoginResult × World F).
                Holds F.redis F.sessions x.1.client.store w1.client.clock (w.uuids 0)
                  (opened u (stored_hash w) w.now))
              (sym rest) stored),
      )

  pub handed_out-named :
      {u : UserRecord} {res : LoginResult} (w : World F)
      → Granted F w (w.uuids 0) (fresh_pair F w) u res
      → res.refresh ≡ w.uuids 0 ++ b'.' ∷ validator_of w
  unfolding refresh_token generate_refresh_token
  handed_out-named w granted = granted.named
