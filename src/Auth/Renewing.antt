-- ===== src/Auth/Renewing.antt =====
-- The end of AuthService.refresh: the rotation, and the tokens that are answered.
use node_jwt_redis_session_a.Base.{
  Text, ◌≡◌, refl, sym, ap, ◌∙◌, some, Result, ok, err, ◌>>=◌, inl, inr, arith, bind-inv, suc, lift,
  pure, Result-cases,
}
use node_jwt_redis_session_a.Account.{UserRecord}
use node_jwt_redis_session_a.Redis.Client.{Client}
use node_jwt_redis_session_a.Sessions
use node_jwt_redis_session_a.Sessions.{
  SessionRecord, RotateOutcome, RotateParams, rotated, concurrent, reused, missing, get_command,
}
use node_jwt_redis_session_a.Sessions.Views.{raw_at}
use node_jwt_redis_session_a.Sessions.Effect.{Swapped, rotate-rotated}
use node_jwt_redis_session_a.Tokens.{
  SplitRefreshToken, RefreshTokenPair, split_refresh_token, hash_refresh_validator,
  generate_refresh_token, sign_access_token, refresh_token,
}
use node_jwt_redis_session_a.Users.{first_row, has_id}
use node_jwt_redis_session_a.Platform.{Platform, World, on_redis, random_bytes, write_log}
use node_jwt_redis_session_a.Sessions.Rotation.{run}
use node_jwt_redis_session_a.Auth.{RefreshResult, refresh_user, refresh_outcome, write_log}

module _ (F : Platform) where
  -- The request that a refresh makes of ROTATE_SCRIPT.
  abbrev pub rotate_params : World F → SplitRefreshToken → UserRecord → RotateParams
  rotate_params w split u = record {
    presented_hash = hash_refresh_validator F.crypto split.validator;
    new_hash = (generate_refresh_token F.crypto (w.bytes 0)).hash;
    role = u.role;
    now = w.now;
  }

  -- The answer's tokens are for the session and the user.
  pub record Answer (w : World F) (split : SplitRefreshToken) (u : UserRecord)
      (next : RefreshTokenPair) (res : RefreshResult) : Type 0 where
    pub signed :
        sign_access_token F.jwt w.secret w.now u.id split.session_id u.role ≡ ok res.access_token
    pub renewed : res.refresh ≡ refresh_token split.session_id next.validator

  sign_ok :
      (split : SplitRefreshToken) (next : RefreshTokenPair) (r : Result Text) (w : World F)
      (res : RefreshResult)
      → ((lift r >>= λ token. pure (record {
        access_token = token;
        refresh = refresh_token split.session_id next.validator;
      }))
          w).0
        ≡ ok res
      → (r ≡ ok res.access_token) × (res.refresh ≡ refresh_token split.session_id next.validator)
  sign_ok split next (ok token) w res h = ground arith
  sign_ok split next (err e) w res h = absurd (cc)

  refresh_outcome-ok :
      (split : SplitRefreshToken) (session : SessionRecord) (u : UserRecord)
      (next : RefreshTokenPair) (o : RotateOutcome) (w : World F) (res : RefreshResult)
      → (refresh_outcome F split session u next o w).0 ≡ ok res
      → (o ≡ rotated) × Answer w split u next res
  unfolding refresh_outcome write_log
  refresh_outcome-ok split session u next rotated w res h =
      let (signed, renewed) =
        sign_ok split next (sign_access_token F.jwt w.secret w.now u.id split.session_id u.role) w
          res h in
      (refl, record { signed = signed; renewed = renewed })
  refresh_outcome-ok split session u next concurrent w res h = absurd (cc)
  refresh_outcome-ok split session u next reused w res h = absurd (cc)
  refresh_outcome-ok split session u next missing w res h = absurd (cc)

  -- Why new tokens were given: to whom, for which session, and what changed in Redis.
  pub record Refreshed (w : World F) (raw : Text) (w' : World F) (res : RefreshResult)
      : Type 0 where
    pub split : SplitRefreshToken
    pub session : SessionRecord
    pub account : UserRecord
    pub token : split_refresh_token raw ≡ some split
    pub text : Text
    pub stored : raw_at F.redis w.client.store w.client.clock split.session_id ≡ some text
    pub parsed : F.sessions.parse text ≡ some session
    pub found :
        first_row (has_id F.postgres session.user_id) (F.postgres.users w.pool.db) ≡ some account
    pub swapped :
        Swapped F.redis F.sessions split.session_id session.user_id
          (rotate_params w split account)
          w.client.clock
          w.client.store
    pub replaced :
        w'.client.store
        ≡ (run F.redis F.sessions split.session_id session.user_id
            (rotate_params w split account)
            w.client.clock
            w.client.store).1
    pub answer : Answer w split account (generate_refresh_token F.crypto (w.bytes 0)) res

  refresh_outcome-client :
      (split : SplitRefreshToken) (session : SessionRecord) (u : UserRecord)
      (next : RefreshTokenPair) (w : World F)
      → (refresh_outcome F split session u next rotated w).1.client ≡ w.client
  unfolding refresh_outcome
  refresh_outcome-client split session u next w =
      elim (Result-cases (sign_access_token F.jwt w.secret w.now u.id split.session_id u.role)) [
        | inl (token, e) ↦ rw e
        | inr (e', e) ↦ rw e
      ]

  pub refresh_user-ok :
      (split : SplitRefreshToken) (session : SessionRecord) (u : UserRecord) (w : World F)
      (res : RefreshResult)
      → (refresh_user F split session (some u) w).0 ≡ ok res
      → Swapped F.redis F.sessions split.session_id session.user_id
          (rotate_params w split u)
          w.client.clock
          w.client.store
        × ((refresh_user F split session (some u) w).1.client.store
            ≡ (run F.redis F.sessions split.session_id session.user_id
                (rotate_params w split u)
                w.client.clock
                w.client.store).1)
        × Answer w split u (generate_refresh_token F.crypto (w.bytes 0)) res
  unfolding refresh_user random_bytes on_redis
  refresh_user-ok split session u w res h =
      let next = generate_refresh_token F.crypto (w.bytes 0) in
      let w1 : World F = record w { bytes = λ n. w.bytes (suc n) } in
      let p = rotate_params w split u in
      let rotate = Sessions.rotate F.redis F.sessions split.session_id session.user_id p in
      let (o, replied, rest) =
        bind-inv (on_redis rotate) (refresh_outcome F split session u next) w1 h in
      let w2 = (on_redis rotate w1).1 in
      let (same, answer) =
        refresh_outcome-ok split session u next o w2 res (sym (ap (λ x. x.0) rest) ∙ h) in
      let (swapped, ran) =
        rotate-rotated F.redis F.sessions split.session_id session.user_id p w.client
          (replied ∙ ap ok same) in
      (
        swapped,
        ap (λ (x : Result RefreshResult × World F). x.1.client.store) rest
            ∙ ap (λ o. (refresh_outcome F split session u next o w2).1.client.store) same
            ∙ ap (λ (x : Client F.redis). x.store) (refresh_outcome-client split session u next w2)
            ∙ ran,
        record { signed = answer.signed; renewed = answer.renewed },
      )
