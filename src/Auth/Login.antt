-- ===== src/Auth/Login.antt =====
-- Who gets a session from AuthService.login.
use node_jwt_redis_session_a.Base.{
  Text, ℕ, ◌++◌, ◌∷◌, ◌≡◌, refl, sym, ap, ◌∙◌, subst, Bool, true, false, Option, none, some, Result,
  ok, inl, inr, arith, bind-inv, bind-throw, lift, Exec, Result-cases,
}
use node_jwt_redis_session_a.Account.{UserRecord}
use node_jwt_redis_session_a.Redis.Client.{Client, request, request-clock}
use node_jwt_redis_session_a.Sessions.Views.{Holds}
use node_jwt_redis_session_a.Throttle.{assert_not_throttled, check_ttl, ttl_command, lock_key}
use node_jwt_redis_session_a.Validation.{Body}
use node_jwt_redis_session_a.Validation.Schemas.{LoginInput, parse_login}
use node_jwt_redis_session_a.Users
use node_jwt_redis_session_a.Users.{first_row, has_username, find_by_username}
use node_jwt_redis_session_a.Users.Queries.{find_by_username-ok, select-db}
use node_jwt_redis_session_a.Platform.{Platform, World, on_redis, on_postgres}
use node_jwt_redis_session_a.Auth.{
  LoginResult, login, login_parsed, check_credentials, decide_login, reject_login, hash_or_dummy,
  invalid_credentials, record_failure,
}
use node_jwt_redis_session_a.Auth.Opening.{Granted, fresh_pair}
use node_jwt_redis_session_a.Auth.Starting.{
  opened, validator_of, stored_hash, start_session-ok, handed_out-named,
}

module _ (F : Platform) where
  -- Why a session was opened: for whom, and what Redis holds of it.
  pub record LoggedIn (w : World F) (input : LoginInput) (w' : World F) (res : LoginResult)
      : Type 0 where
    pub account : UserRecord
    pub found :
        first_row (has_username F.postgres input.username) (F.postgres.users w.pool.db)
        ≡ some account
    pub matched : F.bcrypt.compare input.password account.password_hash ≡ true
    pub granted : Granted F w (w.uuids 0) (fresh_pair F w) account res
    pub handed_out : res.refresh ≡ w.uuids 0 ++ b'.' ∷ validator_of F w
    pub stored :
        Holds F.redis F.sessions w'.client.store w.client.clock
          (w.uuids 0)
          (opened account (stored_hash F w) w.now)

  no_login :
      (username : Text) (w : World F) {res : LoginResult}
      → (reject_login F username w).0 ≡ ok res
      → ⊥
  unfolding reject_login
  no_login username w h =
      bind-throw (on_redis (record_failure F.redis F.to_lower F.throttle username))
        invalid_credentials w h

  decide_login-ok :
      (input : LoginInput) (o : Option UserRecord) (b : Bool) (w : World F) (res : LoginResult)
      → first_row (has_username F.postgres input.username) (F.postgres.users w.pool.db) ≡ o
      → F.bcrypt.compare input.password (hash_or_dummy o) ≡ b
      → (decide_login F input.username o b w).0 ≡ ok res
      → LoggedIn w input (decide_login F input.username o b w).1 res
  unfolding decide_login
  decide_login-ok input none b w res row match h = absurd (no_login input.username w h)
  decide_login-ok input (some u) false w res row match h = absurd (no_login input.username w h)
  decide_login-ok input (some u) true w res row match h =
      let (granted, stored) = start_session-ok F input.username u w res h in
      record {
        account = u;
        found = row;
        matched = match;
        granted = granted;
        handed_out = handed_out-named F w granted;
        stored = stored;
      }

  check_credentials-ok :
      (input : LoginInput) (w : World F) (res : LoginResult)
      → (check_credentials F input w).0 ≡ ok res
      → LoggedIn w input (check_credentials F input w).1 res
  unfolding check_credentials on_postgres find_by_username
  check_credentials-ok input w res h =
      let find = Users.find_by_username F.postgres input.username in
      let decide : Option UserRecord → Exec (World F) LoginResult =
        λ o. decide_login F input.username o (F.bcrypt.compare input.password (hash_or_dummy o)) in
      let (o, found, rest) = bind-inv (on_postgres find) decide w h in
      let w1 = (on_postgres find w).1 in
      let row = find_by_username-ok F.postgres input.username w.pool o found in
      let same = select-db F.postgres (first_row (has_username F.postgres input.username)) w.pool in
      let in' =
        decide_login-ok input o (F.bcrypt.compare input.password (hash_or_dummy o)) w1 res
          (ap (λ db. first_row (has_username F.postgres input.username) (F.postgres.users db)) same
            ∙ row)
          refl (sym (ap (λ x. x.0) rest) ∙ h) in
      record {
        account = in'.account;
        found =
            sym (
              ap (λ db. first_row (has_username F.postgres input.username) (F.postgres.users db))
                same)
            ∙ in'.found;
        matched = in'.matched;
        granted = record {
          signed = in'.granted.signed;
          named = in'.granted.named;
          shown = in'.granted.shown;
        };
        handed_out = in'.handed_out;
        stored =
            subst
              (λ (x : Result LoginResult × World F).
                Holds F.redis F.sessions x.1.client.store w.client.clock (w.uuids 0)
                  (opened in'.account (stored_hash F w) w.now))
              (sym rest) in'.stored;
      }

  check_ttl-state : (ttl : ℕ) (c : Client F.redis) → (check_ttl F.redis F.throttle ttl c).1 ≡ c
  check_ttl-state ttl c = ground arith

  assert_not_throttled-clock :
      (username : Text) (c : Client F.redis)
      → (assert_not_throttled F.redis F.to_lower F.throttle username c).1.clock ≡ c.clock
  unfolding assert_not_throttled
  assert_not_throttled-clock username c =
      let ask = ttl_command F.redis F.throttle (lock_key F.to_lower username) in
      elim (Result-cases (request ask c).0) [
        | inl (ttl, e) ↦ rw e (
            ap (λ (x : Client F.redis). x.clock) (check_ttl-state ttl (request ask c).1)
            ∙ request-clock ask c)
        | inr (e', e) ↦ rw e (request-clock ask c)
      ]

  login_parsed-ok :
      (input : LoginInput) (w : World F) (res : LoginResult)
      → (login_parsed F input w).0 ≡ ok res
      → LoggedIn w input (login_parsed F input w).1 res
  unfolding login_parsed on_redis
  login_parsed-ok input w res h =
      let check = assert_not_throttled F.redis F.to_lower F.throttle input.username in
      let (done, allowed, rest) = bind-inv (on_redis check) (λ _. check_credentials F input) w h in
      let w1 = (on_redis check w).1 in
      let in' = check_credentials-ok input w1 res (sym (ap (λ x. x.0) rest) ∙ h) in
      record {
        account = in'.account;
        found = in'.found;
        matched = in'.matched;
        granted = record {
          signed = in'.granted.signed;
          named = in'.granted.named;
          shown = in'.granted.shown;
        };
        handed_out = in'.handed_out;
        stored =
            subst
              (λ t.
                Holds F.redis F.sessions (login_parsed F input w).1.client.store t (w.uuids 0)
                  (opened in'.account (stored_hash F w) w.now))
              (assert_not_throttled-clock input.username w.client)
              (subst
                (λ (x : Result LoginResult × World F).
                  Holds F.redis F.sessions x.1.client.store w1.client.clock (w.uuids 0)
                    (opened in'.account (stored_hash F w) w.now))
                (sym rest) in'.stored);
      }

  -- Whenever a login succeeds, whatever faults Redis and PostgreSQL have: the body was valid; a row
  -- of the table has its username and its password matches that row's hash; Redis holds a session
  -- for that user and with the row's role, with the SHA-256 hash of a fresh validator, made now, not
  -- rotated, which expires in 7 days and absolutely in 30; the access token is signed for that user,
  -- with the row's role, and for that session; the refresh token is the session's identifier, a dot
  -- and the validator; and the answer shows the user.
  pub login-ok :
      (raw_input : Body) (w : World F) (res : LoginResult)
      → (login F raw_input w).0 ≡ ok res
      → (input : LoginInput) × (parse_login F.zod raw_input ≡ ok input)
        × LoggedIn w input (login F raw_input w).1 res
  unfolding login
  login-ok raw_input w res h =
      let (input, parsed, rest) =
        bind-inv (lift (parse_login F.zod raw_input)) (login_parsed F) w h in
      (
        input,
        parsed,
        subst (λ (x : Result LoginResult × World F). LoggedIn w input x.1 res) (sym rest)
            (login_parsed-ok input w res (sym (ap (λ x. x.0) rest) ∙ h)),
      )
