-- ===== src/Auth/Opening.antt =====
-- The end of AuthService.login: a session is stored, its tokens are answered.
use node_jwt_redis_session_a.Base.{
  Text, ℕ, ◌≡◌, refl, sym, ap, ◌∙◌, subst, zero, suc, ◌∷◌, Result, ok, ◌>>=◌, inl, inr, arith,
  bind-inv, lift, pure, Exec, Result-cases,
}
use node_jwt_redis_session_a.Account.{UserRecord, to_public_user}
use node_jwt_redis_session_a.Redis.{Redis, text_of}
use node_jwt_redis_session_a.Redis.Client.{Client, request-store}
use node_jwt_redis_session_a.Sessions
use node_jwt_redis_session_a.Sessions.{session_key, set_command}
use node_jwt_redis_session_a.Sessions.Views.{raw_at, Holds, Holds-same}
use node_jwt_redis_session_a.Sessions.Operations.{create-clock}
use node_jwt_redis_session_a.Sessions.Success.{create-Holds}
use node_jwt_redis_session_a.Cache.{
  profile_key, set_user_profile, default_ttl_seconds, ProfileCodec,
}
use node_jwt_redis_session_a.Tokens.{
  RefreshTokenPair, generate_refresh_token, sign_access_token, refresh_token,
}
use node_jwt_redis_session_a.Platform.{
  Platform, World, on_redis, random_uuid, random_bytes, write_log,
}
use node_jwt_redis_session_a.Auth.{LoginResult, open_session, finish_login, new_session}

profile_key-ne-session_key :
    (R : Redis) (u id : Text) (v : Text) (n t : ℕ) (s : R.Store)
    → raw_at R (set_command R (profile_key u) v n t s).1 t id ≡ raw_at R s t id
unfolding profile_key session_key
profile_key-ne-session_key R u id v zero t s = refl
profile_key-ne-session_key R u id v (suc n) t s =
    ap text_of (R.live-set_ex (profile_key u) v (suc n) t s (session_key id) (omega arith))

-- Caching a profile leaves the sessions alone, whatever the faults.
raw_at-set_user_profile :
    (R : Redis) (D : ProfileCodec) (u : UserRecord) (n : ℕ) (c : Client R) (id : Text)
    → raw_at R (set_user_profile R D u.id (to_public_user u) n c).1.store c.clock id
      ≡ raw_at R c.store c.clock id
unfolding set_user_profile
raw_at-set_user_profile R D u n c id =
    elim (request-store (set_command R (profile_key u.id) (D.stringify (to_public_user u)) n) c) [
      | inl same ↦ ap (λ s. raw_at R s c.clock id) same
      | inr ran ↦
          ap (λ s. raw_at R s c.clock id) ran
          ∙ profile_key-ne-session_key R u.id id (D.stringify (to_public_user u)) n c.clock c.store
    ]

module _ (F : Platform) where
  -- The answer is the account's, and its tokens are for the session.
  pub record Granted (w : World F) (session_id : Text) (pair : RefreshTokenPair) (u : UserRecord)
      (res : LoginResult) : Type 0 where
    pub signed : sign_access_token F.jwt w.secret w.now u.id session_id u.role ≡ ok res.access_token
    pub named : res.refresh ≡ refresh_token session_id pair.validator
    pub shown : res.account ≡ to_public_user u

  abbrev cache_profile : UserRecord → Exec (Client F.redis) Unit
  cache_profile u = set_user_profile F.redis F.profiles u.id (to_public_user u) default_ttl_seconds

  module _ (session_id : Text) (pair : RefreshTokenPair) (u : UserRecord) (w : World F) where
    abbrev grant : Exec (World F) LoginResult
    grant w' =
        (lift (sign_access_token F.jwt w.secret w.now u.id session_id u.role) >>= λ token.
        pure (record {
          access_token = token;
          refresh = refresh_token session_id pair.validator;
          account = to_public_user u;
        }))
          w'

    grant-ok :
        (w' : World F) (res : LoginResult) → (grant w').0 ≡ ok res → Granted w session_id pair u res
    grant-ok w' res h =
        elim (Result-cases (sign_access_token F.jwt w.secret w.now u.id session_id u.role)) [
          | inl (token, e) ↦
              let h' = rw e at h in
              record {
                signed = ground (arith, e, h');
                named = ground (arith, h');
                shown = ground (arith, h');
              }
          | inr (e', e) ↦ absurd (cc (rw e at h))
        ]

    grant-state : (w' : World F) → (grant w').1 ≡ w'
    grant-state w' =
        elim (Result-cases (sign_access_token F.jwt w.secret w.now u.id session_id u.role)) [
          | inl (token, e) ↦ rw e
          | inr (e', e) ↦ rw e
        ]

    -- The cache may fail; the answer is given all the same.
    finish_login-grant :
        (w' : World F) × ((finish_login F session_id pair u w) ≡ grant w')
        × (w'.client ≡ (cache_profile u w.client).1)
    unfolding finish_login on_redis write_log
    finish_login-grant =
        let w1 : World F = record w { client = (cache_profile u w.client).1 } in
        elim (Result-cases (cache_profile u w.client).0) [
          | inl (done, e) ↦ (w1, rw e, refl)
          | inr (e', e) ↦
              (record w1 { log = "Failed to cache user profile after login" ∷ w.log }, rw e, refl)
        ]

    -- Sessions are as they were when the profile was cached.
    finish_login-raw :
        (t : ℕ) (id : Text)
        → w.client.clock ≡ t
        → raw_at F.redis (finish_login F session_id pair u w).1.client.store t id
          ≡ raw_at F.redis w.client.store t id
    finish_login-raw t id at =
        let (w', e, c') = finish_login-grant in
        let same =
          ap (λ (x : Result LoginResult × World F). x.1.client) e
          ∙ ap (λ (x : World F). x.client) (grant-state w')
          ∙ c' in
        subst
          (λ t.
            raw_at F.redis (finish_login F session_id pair u w).1.client.store t id
            ≡ raw_at F.redis w.client.store t id)
          at
          (ap (λ (c : Client F.redis). raw_at F.redis c.store w.client.clock id) same
            ∙ raw_at-set_user_profile F.redis F.profiles u default_ttl_seconds w.client id)

    finish_login-ok :
        (res : LoginResult)
        → (finish_login F session_id pair u w).0 ≡ ok res
        → Granted w session_id pair u res
    finish_login-ok res h =
        let (w', e, c') = finish_login-grant in grant-ok w' res (sym (ap (λ x. x.0) e) ∙ h)

  -- The new session's identifier and the halves of its refresh token.
  abbrev pub fresh_pair : World F → RefreshTokenPair
  fresh_pair w = generate_refresh_token F.crypto (w.bytes 0)

  pub open_session-ok :
      (u : UserRecord) (w : World F) (res : LoginResult)
      → (open_session F u w).0 ≡ ok res
      → Granted w (w.uuids 0) (fresh_pair w) u res
        × Holds F.redis F.sessions
            (open_session F u w).1.client.store
            w.client.clock
            (w.uuids 0)
            (new_session u (fresh_pair w).hash w.now)
  unfolding open_session random_uuid random_bytes on_redis
  open_session-ok u w res h =
      let id = w.uuids 0 in
      let pair = fresh_pair w in
      let r = new_session u pair.hash w.now in
      let w1 : World F = record w { uuids = λ n. w.uuids (suc n); bytes = λ n. w.bytes (suc n) } in
      let store = Sessions.create F.redis F.sessions w.now id r in
      let (done, created, rest) = bind-inv (on_redis store) (λ _. finish_login F id pair u) w1 h in
      let w2 = (on_redis store w1).1 in
      let granted = finish_login-ok id pair u w2 res (sym (ap (λ x. x.0) rest) ∙ h) in
      (
        record { signed = granted.signed; named = granted.named; shown = granted.shown },
        Holds-same F.redis F.sessions (store w.client).1.store _ w.client.clock w.client.clock id
            (ap
                (λ (x : Result LoginResult × World F).
                  raw_at F.redis x.1.client.store w.client.clock id)
                rest
              ∙ finish_login-raw id pair u w2 w.client.clock id
                  (create-clock F.redis F.sessions w.now id r w.client))
            (create-Holds F.redis F.sessions w.now id r w.client created),
      )
