-- ===== src/Routes/Handlers.antt =====
-- The statuses with which each handler answers.
use node_jwt_redis_session_a.Base.{
  ◌≡◌, refl, List, [], ◌∷◌, ℕ, none, some, true, Exec, ◌>>=◌, lift, Option, pure, some_text, ◌===◌,
  Bool-cases, inl, inr, Text, codes,
}
use node_jwt_redis_session_a.Errors.{status_code}
use node_jwt_redis_session_a.Account.{UserRole, admin}
use node_jwt_redis_session_a.Failing.{
  Fails, In, Foreign, ErrIs, elem, subset, Fails-bind, redis-In, lift-In,
}
use node_jwt_redis_session_a.Failing.Sessions.{get-Fails}
use node_jwt_redis_session_a.Failing.Repositories.{verify_access_token-ErrIs}
use node_jwt_redis_session_a.Failing.Auth.{
  login-Fails, refresh-Fails, logout-Fails, logout_all-Fails,
}
use node_jwt_redis_session_a.Failing.Profiles.{
  create_user_body-Fails, get_user_profile_of-Fails, list_users-Fails,
}
use node_jwt_redis_session_a.Sessions
use node_jwt_redis_session_a.Sessions.{SessionRecord}
use node_jwt_redis_session_a.Tokens.{role_text, AccessTokenPayload, verify_access_token}
use node_jwt_redis_session_a.Platform.{Platform, World, on_redis}
use node_jwt_redis_session_a.Validation.{
  Body, object, array_body, no_body, Value, text, falsy, truthy, member,
}
use node_jwt_redis_session_a.Auth.{login, refresh, logout, logout_all}
use node_jwt_redis_session_a.Profiles.{create_user, get_user_profile_of, list_users}
use node_jwt_redis_session_a.Http.{
  reply, created_payload, login_payload, refresh_payload, Request, Response, async_handler,
  authentication, authenticate_header, authenticate_token, find_session, check_session,
  bearer_token, split_spaces, list_as, require_role, refresh_member, raw_refresh_token, post_users,
  post_login, post_auth_refresh, post_logout, post_logout_all, get_users_me, get_admin_users,
}
use node_jwt_redis_session_a.Routes.Statuses.{Answers, Answers-bind, async_handler-elem, Statuses}

abbrev unauthorized_or : List ℕ
unauthorized_or = 401 ∷ 500 ∷ []

module _ (F : Platform) where
  check_session-ErrIs :
      (caller : AccessTokenPayload) (o : Option SessionRecord)
      → ErrIs (In unauthorized_or) (check_session F caller o)
  unfolding check_session status_code
  check_session-ErrIs caller none = refl
  check_session-ErrIs caller (some session) =
      elim (Bool-cases (session.user_id === caller.subject)) [
        | inl same ↦ rw same tt
        | inr other ↦ rw other refl
      ]

  find_session-Fails :
      (caller : AccessTokenPayload)
      → Fails {S = World F} (In unauthorized_or) (find_session F caller)
  unfolding find_session
  find_session-Fails caller =
      let read = Sessions.get F.redis F.sessions caller.session_id in
      Fails-bind (In unauthorized_or) (on_redis read) (λ o. lift (check_session F caller o))
        (redis-In unauthorized_or read refl (get-Fails F.redis F.sessions caller.session_id))
        (λ o w. check_session-ErrIs caller o)

  authenticate_token-Fails :
      (o : Option Text) → Fails {S = World F} (In unauthorized_or) (authenticate_token F o)
  unfolding authenticate_token status_code
  authenticate_token-Fails none w = refl
  authenticate_token-Fails (some token) w =
      Fails-bind (In unauthorized_or) (lift (verify_access_token F.jwt w.secret w.now token))
        (find_session F)
        (lift-In unauthorized_or (401 ∷ []) _ refl
          (verify_access_token-ErrIs F.jwt w.secret w.now token))
        find_session-Fails w

  authentication-Fails :
      (request : Request) → Fails {S = World F} (In unauthorized_or) (authentication F request)
  unfolding authentication authenticate_header status_code
  authentication-Fails request = by_header (some_text request.authorization)
    where
      by_header : (o : Option Text) → Fails (In unauthorized_or) (authenticate_header F o)
      by_header none w = refl
      by_header (some header) w = authenticate_token-Fails (bearer_token (split_spaces header)) w

  -- A handler that is a block.
  block-elem :
      {A : Type 0} (xs ys : List ℕ) (m : Exec (World F) A) (f : A → Exec (World F) Response)
      → subset ys xs ≡ true
      → Fails (In ys) m
      → ((a : A) (w : World F) → Answers xs (f a w).0)
      → (w : World F) → elem (async_handler F (m >>= f) w).0.status xs ≡ true
  block-elem xs ys m f sub h k = async_handler-elem F xs (m >>= f) (Answers-bind xs ys m f sub h k)

  behind-elem :
      (xs : List ℕ) (request : Request) (f : AccessTokenPayload → Exec (World F) Response)
      → subset unauthorized_or xs ≡ true
      → ((caller : AccessTokenPayload) (w : World F) → Answers xs (f caller w).0)
      → (w : World F) → elem (async_handler F (authentication F request >>= f) w).0.status xs ≡ true
  behind-elem xs request f sub h =
      block-elem xs unauthorized_or (authentication F request) f sub (authentication-Fails request)
        h

  pub post_users-Statuses : Statuses F (201 ∷ 400 ∷ 409 ∷ 500 ∷ []) (post_users F)
  unfolding post_users
  post_users-Statuses request =
      block-elem (201 ∷ 400 ∷ 409 ∷ 500 ∷ []) (400 ∷ 409 ∷ 500 ∷ []) (create_user F request.body)
        (λ id. pure (reply 201 (created_payload id))) refl (create_user_body-Fails F request.body)
        (λ id w. refl)

  pub post_login-Statuses : Statuses F (200 ∷ 400 ∷ 401 ∷ 429 ∷ 500 ∷ []) (post_login F)
  unfolding post_login
  post_login-Statuses request =
      block-elem (200 ∷ 400 ∷ 401 ∷ 429 ∷ 500 ∷ []) (400 ∷ 401 ∷ 429 ∷ 500 ∷ [])
        (login F request.body) (λ result. pure (reply 200 (login_payload result))) refl
        (login-Fails F request.body) (λ result w. refl)

  refresh_member-ErrIs : (body : Body) → ErrIs Foreign (refresh_member body)
  unfolding refresh_member
  refresh_member-ErrIs no_body = refl
  refresh_member-ErrIs array_body = tt
  refresh_member-ErrIs (object fields) = read (member (codes "refreshToken") fields)
    where
      read : (o : Option Value) → ErrIs Foreign (raw_refresh_token o)
      read none = tt
      read (some (text token)) = tt
      read (some falsy) = tt
      read (some truthy) = refl

  pub post_auth_refresh-Statuses :
      Statuses F (200 ∷ 400 ∷ 401 ∷ 409 ∷ 500 ∷ []) (post_auth_refresh F)
  unfolding post_auth_refresh
  post_auth_refresh-Statuses request =
      let finish : Option Text → Exec (World F) Response =
        λ raw. refresh F raw >>= λ result. pure (reply 200 (refresh_payload result)) in
      block-elem (200 ∷ 400 ∷ 401 ∷ 409 ∷ 500 ∷ []) (500 ∷ []) (lift (refresh_member request.body))
        finish refl (λ w. refresh_member-ErrIs request.body)
        (λ raw.
          Answers-bind (200 ∷ 400 ∷ 401 ∷ 409 ∷ 500 ∷ []) (400 ∷ 401 ∷ 409 ∷ 500 ∷ [])
            (refresh F raw) (λ result. pure (reply 200 (refresh_payload result))) refl
            (refresh-Fails F raw) (λ result w. refl))

  pub post_logout-Statuses : Statuses F (200 ∷ 401 ∷ 500 ∷ []) (post_logout F)
  unfolding post_logout
  post_logout-Statuses request = behind-elem (200 ∷ 401 ∷ 500 ∷ []) request _ refl (λ caller.
      Answers-bind (200 ∷ 401 ∷ 500 ∷ []) (401 ∷ 500 ∷ [])
        (logout F (some caller.session_id) (some caller.subject)) _ refl (logout-Fails F _ _)
        (λ done w. refl))

  pub post_logout_all-Statuses : Statuses F (200 ∷ 401 ∷ 500 ∷ []) (post_logout_all F)
  unfolding post_logout_all
  post_logout_all-Statuses request = behind-elem (200 ∷ 401 ∷ 500 ∷ []) request _ refl (λ caller.
      Answers-bind (200 ∷ 401 ∷ 500 ∷ []) (401 ∷ 500 ∷ []) (logout_all F (some caller.subject)) _
        refl (logout_all-Fails F _) (λ revoked w. refl))

  pub get_users_me-Statuses : Statuses F (200 ∷ 401 ∷ 404 ∷ 500 ∷ []) (get_users_me F)
  unfolding get_users_me
  get_users_me-Statuses request = behind-elem (200 ∷ 401 ∷ 404 ∷ 500 ∷ []) request _ refl (λ caller.
      Answers-bind (200 ∷ 401 ∷ 404 ∷ 500 ∷ []) (404 ∷ 500 ∷ [])
        (get_user_profile_of F caller.subject) _ refl (get_user_profile_of-Fails F caller.subject)
        (λ profile w. refl))

  require_role-Fails :
      (role : UserRole) (caller : AccessTokenPayload)
      → Fails {S = World F} (In (403 ∷ [])) (require_role F role caller)
  unfolding require_role status_code
  require_role-Fails role caller w = elim (Bool-cases (caller.role === role_text role)) [
    | inl same ↦ rw same tt
    | inr other ↦ rw other refl
  ]

  pub get_admin_users-Statuses : Statuses F (200 ∷ 400 ∷ 401 ∷ 403 ∷ 500 ∷ []) (get_admin_users F)
  unfolding get_admin_users list_as
  get_admin_users-Statuses request =
      behind-elem (200 ∷ 400 ∷ 401 ∷ 403 ∷ 500 ∷ []) request (list_as F request) refl (λ caller.
        Answers-bind (200 ∷ 400 ∷ 401 ∷ 403 ∷ 500 ∷ []) (403 ∷ []) (require_role F admin caller) _
          refl (require_role-Fails admin caller)
          (λ done.
            Answers-bind (200 ∷ 400 ∷ 401 ∷ 403 ∷ 500 ∷ []) (400 ∷ 500 ∷ [])
              (list_users F request.query) _ refl (list_users-Fails F request.query)
              (λ result w. refl)))
