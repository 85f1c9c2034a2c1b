-- ===== src/Failing/Auth.antt =====
-- Which errors AuthService throws.
use node_jwt_redis_session_a.Base.{
  Text, ℕ, ◌≡◌, refl, Bool, true, false, Option, none, some, List, [], ◌∷◌, suc, lift, pure, throw,
  ◌>>=◌, catch, some_text,
}
use node_jwt_redis_session_a.Errors.{status_code}
use node_jwt_redis_session_a.Failing.{
  Fails, In, ErrIs, subset, Fails-bind, Fails-catch, Fails-subset, on_redis-Fails, redis-In,
  postgres-In, lift-In,
}
use node_jwt_redis_session_a.Failing.Sessions.{
  get-Fails, create-Fails, delete-Fails, delete_all_for_user-Fails, rotate-Fails,
}
use node_jwt_redis_session_a.Failing.Repositories.{
  assert_not_throttled-Fails, record_failure-Fails, reset-Fails, find_by_id-Fails,
  find_by_username-Fails, sign_access_token-ErrIs,
}
use node_jwt_redis_session_a.Validation.{Body}
use node_jwt_redis_session_a.Validation.Schemas.{parse_login, LoginInput}
use node_jwt_redis_session_a.Platform.{
  Platform, World, on_redis, on_postgres, random_uuid, random_bytes, write_log,
}
use node_jwt_redis_session_a.Users
use node_jwt_redis_session_a.Sessions
use node_jwt_redis_session_a.Auth.{
  login, login_parsed, check_credentials, decide_login, reject_login, start_session, open_session,
  finish_login, refresh, refresh_text, refresh_split, refresh_session, refresh_user,
  refresh_outcome, logout, logout_session, logout_all, logout_user, new_session,
  invalid_credentials, invalid_refresh_token,
}
use node_jwt_redis_session_a.Cache.{set_user_profile, default_ttl_seconds}
use node_jwt_redis_session_a.Account.{UserRecord, to_public_user, UserRole}
use node_jwt_redis_session_a.Tokens.{
  sign_access_token, RefreshTokenPair, SplitRefreshToken, generate_refresh_token,
  hash_refresh_validator, split_refresh_token,
}
use node_jwt_redis_session_a.Sessions.{
  SessionRecord, RotateParams, RotateOutcome, rotated, concurrent, reused, missing,
}
use node_jwt_redis_session_a.Throttle.{record_failure, reset, assert_not_throttled}
use node_jwt_redis_session_a.Failing.Schemas.{parse_login-ErrIs}

abbrev logging_in : List ℕ
logging_in = 400 ∷ 401 ∷ 429 ∷ 500 ∷ []

abbrev rotating : List ℕ
rotating = 400 ∷ 401 ∷ 409 ∷ 500 ∷ []

abbrev leaving : List ℕ
leaving = 401 ∷ 500 ∷ []

module _ (F : Platform) where
  -- An access token, and what is made of it.
  signed-In :
      {A : Type 0} (xs : List ℕ) (uid sid : Text) (role : UserRole) (f : Text → A)
      → subset (500 ∷ []) xs ≡ true
      → (w : World F)
      → ErrIs
          (In xs)
          ((lift (sign_access_token F.jwt w.secret w.now uid sid role) >>= λ t. pure (f t)) w).0
  signed-In xs uid sid role f sub w =
      Fails-bind (In xs) (lift (sign_access_token F.jwt w.secret w.now uid sid role))
        (λ t. pure (f t))
        (lift-In xs (500 ∷ []) _ sub (sign_access_token-ErrIs F.jwt w.secret w.now uid sid role))
        (λ token w. tt) w

  finish_login-Fails :
      (sid : Text) (pair : RefreshTokenPair) (u : UserRecord)
      → Fails {S = World F} (In logging_in) (finish_login F sid pair u)
  unfolding finish_login write_log
  finish_login-Fails sid pair u =
      let store =
        on_redis
          (set_user_profile F.redis F.profiles u.id (to_public_user u) default_ttl_seconds) in
      Fails-bind (In logging_in)
        (catch store (λ _. write_log "Failed to cache user profile after login")) _
        (Fails-catch (In logging_in) store
          (λ _. write_log "Failed to cache user profile after login") (λ e w. tt))
        (λ _ w. signed-In logging_in u.id sid u.role _ refl w)

  open_session-Fails : (u : UserRecord) → Fails {S = World F} (In logging_in) (open_session F u)
  unfolding open_session random_uuid random_bytes
  open_session-Fails u w =
      let pair = generate_refresh_token F.crypto (w.bytes 0) in
      let store =
        Sessions.create F.redis F.sessions w.now (w.uuids 0) (new_session u pair.hash w.now) in
      Fails-bind (In logging_in) (on_redis store) (λ _. finish_login F (w.uuids 0) pair u)
        (redis-In logging_in store refl (create-Fails F.redis F.sessions w.now (w.uuids 0) _))
        (λ _. finish_login-Fails (w.uuids 0) pair u)
        (record w { bytes = λ n. w.bytes (suc n); uuids = λ n. w.uuids (suc n) })

  reject_login-Fails :
      (username : Text) → Fails {S = World F} (In logging_in) (reject_login F username)
  unfolding reject_login status_code
  reject_login-Fails username =
      let count = record_failure F.redis F.to_lower F.throttle username in
      Fails-bind (In logging_in) (on_redis count) (λ _. throw invalid_credentials)
        (redis-In logging_in count refl
          (record_failure-Fails F.redis F.to_lower F.throttle username))
        (λ _ w. refl)

  decide_login-Fails :
      (username : Text) (o : Option UserRecord) (match : Bool)
      → Fails {S = World F} (In logging_in) (decide_login F username o match)
  unfolding decide_login start_session
  decide_login-Fails username none match w = reject_login-Fails username w
  decide_login-Fails username (some u) false w = reject_login-Fails username w
  decide_login-Fails username (some u) true w =
      let forget = reset F.redis F.to_lower F.throttle username in
      Fails-bind (In logging_in) (on_redis forget) (λ _. open_session F u)
        (redis-In logging_in forget refl (reset-Fails F.redis F.to_lower F.throttle username))
        (λ _. open_session-Fails u) w

  check_credentials-Fails :
      (input : LoginInput) → Fails {S = World F} (In logging_in) (check_credentials F input)
  unfolding check_credentials
  check_credentials-Fails input =
      let find = Users.find_by_username F.postgres input.username in
      Fails-bind (In logging_in) (on_postgres find) _
        (postgres-In logging_in find refl (find_by_username-Fails F.postgres input.username))
        (λ found. decide_login-Fails input.username found _)

  pub login-Fails : (body : Body) → Fails {S = World F} (In logging_in) (login F body)
  unfolding login login_parsed
  login-Fails body =
      Fails-bind (In logging_in) (lift (parse_login F.zod body)) (login_parsed F)
        (lift-In logging_in (400 ∷ 500 ∷ []) _ refl (parse_login-ErrIs F.zod body)) parsed
    where
      parsed : (input : LoginInput) → Fails (In logging_in) (login_parsed F input)
      parsed input w =
          let check = assert_not_throttled F.redis F.to_lower F.throttle input.username in
          Fails-bind (In logging_in) (on_redis check) (λ _. check_credentials F input)
            (on_redis-Fails (In logging_in) check (
              Fails-subset (429 ∷ 500 ∷ []) logging_in check refl
                (assert_not_throttled-Fails F.redis F.to_lower F.throttle input.username)))
            (λ _. check_credentials-Fails input) w

  refresh_outcome-Fails :
      (split : SplitRefreshToken) (session : SessionRecord) (u : UserRecord)
      (next : RefreshTokenPair) (outcome : RotateOutcome)
      → Fails {S = World F} (In rotating) (refresh_outcome F split session u next outcome)
  unfolding refresh_outcome write_log status_code
  refresh_outcome-Fails split session u next rotated w =
      signed-In rotating u.id split.session_id u.role _ refl w
  refresh_outcome-Fails split session u next concurrent w = refl
  refresh_outcome-Fails split session u next reused w = refl
  refresh_outcome-Fails split session u next missing w = refl

  refresh_user-Fails :
      (split : SplitRefreshToken) (session : SessionRecord) (o : Option UserRecord)
      → Fails {S = World F} (In rotating) (refresh_user F split session o)
  unfolding refresh_user random_bytes status_code
  refresh_user-Fails split session none w =
      let revoke = Sessions.delete_all_for_user F.redis session.user_id in
      Fails-bind (In rotating) (on_redis revoke) (λ _. throw invalid_refresh_token)
        (redis-In rotating revoke refl (delete_all_for_user-Fails F.redis session.user_id))
        (λ _ w. refl) w
  refresh_user-Fails split session (some u) w =
      let next = generate_refresh_token F.crypto (w.bytes 0) in
      let p : RotateParams = record {
        presented_hash = hash_refresh_validator F.crypto split.validator;
        new_hash = next.hash;
        role = u.role;
        now = w.now;
      } in
      let rotate = Sessions.rotate F.redis F.sessions split.session_id session.user_id p in
      Fails-bind (In rotating) (on_redis rotate) (refresh_outcome F split session u next)
        (redis-In rotating rotate refl (rotate-Fails F.redis F.sessions _ _ p))
        (refresh_outcome-Fails split session u next) (record w { bytes = λ n. w.bytes (suc n) })

  refresh_session-Fails :
      (split : SplitRefreshToken) (o : Option SessionRecord)
      → Fails {S = World F} (In rotating) (refresh_session F split o)
  unfolding refresh_session status_code
  refresh_session-Fails split none w = refl
  refresh_session-Fails split (some session) w =
      let find = Users.find_by_id F.postgres session.user_id in
      Fails-bind (In rotating) (on_postgres find) (refresh_user F split session)
        (postgres-In rotating find refl (find_by_id-Fails F.postgres session.user_id))
        (refresh_user-Fails split session) w

  refresh_split-Fails :
      (o : Option SplitRefreshToken) → Fails {S = World F} (In rotating) (refresh_split F o)
  unfolding refresh_split status_code
  refresh_split-Fails none w = refl
  refresh_split-Fails (some split) w =
      let read = Sessions.get F.redis F.sessions split.session_id in
      Fails-bind (In rotating) (on_redis read) (refresh_session F split)
        (redis-In rotating read refl (get-Fails F.redis F.sessions split.session_id))
        (refresh_session-Fails split) w

  pub refresh-Fails : (raw : Option Text) → Fails {S = World F} (In rotating) (refresh F raw)
  unfolding refresh refresh_text status_code
  refresh-Fails raw = given (some_text raw)
    where
      given : (o : Option Text) → Fails (In rotating) (refresh_text F o)
      given none w = refl
      given (some raw) w = refresh_split-Fails (split_refresh_token raw) w

  pub logout-Fails : (sid uid : Option Text) → Fails {S = World F} (In leaving) (logout F sid uid)
  unfolding logout logout_session status_code
  logout-Fails sid uid = out (some_text sid) (some_text uid)
    where
      out : (sid uid : Option Text) → Fails (In leaving) (logout_session F sid uid)
      out (some sid) (some uid) w =
          redis-In leaving (Sessions.delete F.redis sid uid) refl (delete-Fails F.redis sid uid) w
      out (some sid) none w = refl
      out none (some uid) w = refl
      out none none w = refl

  pub logout_all-Fails : (uid : Option Text) → Fails {S = World F} (In leaving) (logout_all F uid)
  unfolding logout_all logout_user status_code
  logout_all-Fails uid = out (some_text uid)
    where
      out : (uid : Option Text) → Fails (In leaving) (logout_user F uid)
      out (some uid) w =
          redis-In leaving (Sessions.delete_all_for_user F.redis uid) refl
            (delete_all_for_user-Fails F.redis uid) w
      out none w = refl
