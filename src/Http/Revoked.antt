-- ===== src/Http/Revoked.antt =====
-- What a logout means for the requests that follow, and who sees the list of users.
use node_jwt_redis_session_a.Base.{
  Text, codes, ℕ, ◌≤◌, ◌≡◌, ◌≢◌, refl, sym, ap, ◌∙◌, subst, true, none, some, [], ◌∷◌, ◌===◌,
  ===_iff, ok, Exec, ◌>>=◌, bind-inv, Bool-cases, Result-cases, inl, inr, arith, ===-refl,
  delivered, next_fault, pure,
}
use node_jwt_redis_session_a.Errors.{
  Failure, AppError, app, validation, unauthorized, forbidden, not_found, conflict,
  too_many_requests, redis_failure, postgres_failure, js_error, status_code,
}
use node_jwt_redis_session_a.Account.{UserRole, admin}
use node_jwt_redis_session_a.Redis.{has}
use node_jwt_redis_session_a.Redis.Client.{Client}
use node_jwt_redis_session_a.Sessions
use node_jwt_redis_session_a.Sessions.Views.{raw_at, raw_at-earlier, index_at}
use node_jwt_redis_session_a.Sessions.Operations.{delete-clock, delete_all_for_user-clock}
use node_jwt_redis_session_a.Sessions.Revocation.{delete-ok, delete_all_for_user-delivered}
use node_jwt_redis_session_a.Tokens.{AccessTokenPayload, role_text}
use node_jwt_redis_session_a.Platform.{Platform, World, on_redis}
use node_jwt_redis_session_a.Auth.{logout, logout_session, logout_all, logout_user}
use node_jwt_redis_session_a.Http.{
  Request, Response, authentication, get_admin_users, list_as, require_role, error_handler,
  async_handler, list_users, list_payload,
}
use node_jwt_redis_session_a.Http.Access.{authentication-ok}

module _ (F : Platform) where
  logout-delete :
      (sid uid : Text) (w : World F)
      → (logout F (some sid) (some uid) w).0 ≡ ok tt
      → ((Sessions.delete F.redis sid uid w.client).0 ≡ ok tt)
        × ((logout F (some sid) (some uid) w).1.client
            ≡ (Sessions.delete F.redis sid uid w.client).1)
  unfolding logout logout_session on_redis
  logout-delete [] uid w h = absurd (cc)
  logout-delete (c ∷ s) [] w h = absurd (cc)
  logout-delete (c ∷ s) (d ∷ u) w h = (h, refl)

  -- A session whose text is gone stays gone, and nobody is authenticated by it.
  Lacks-authentication :
      (request : Request) (p : AccessTokenPayload) (w w' : World F) (sid : Text)
      → raw_at F.redis w.client.store w.client.clock sid ≡ none
      → w'.client.store ≡ w.client.store
      → w.client.clock ≤ w'.client.clock
      → (authentication F request w').0 ≡ ok p
      → p.session_id ≢ sid
  Lacks-authentication request p w w' sid gone same le h e =
      let a = authentication-ok F request w' p h in
      let there : raw_at F.redis w.client.store w'.client.clock sid ≡ some a.text =
        ap (λ id. raw_at F.redis w.client.store w'.client.clock id) (sym e)
        ∙ ap (λ s. raw_at F.redis s w'.client.clock p.session_id) (sym same)
        ∙ a.stored in
      let before =
        raw_at-earlier F.redis w.client.store w.client.clock w'.client.clock sid le there in
      cc (before, gone)

  logout-clock :
      (sid uid : Text) (w : World F)
      → (logout F (some sid) (some uid) w).0 ≡ ok tt
      → (logout F (some sid) (some uid) w).1.client.clock ≡ w.client.clock
  logout-clock sid uid w h =
      ap (λ (c : Client F.redis). c.clock) (logout-delete sid uid w h).1
      ∙ delete-clock F.redis sid uid w.client

  -- After a logout that reports success, whatever faults there were, then or later: as long as no
  -- later write has changed Redis, no request is authenticated for the session that was logged out,
  -- even by an access token that has not expired.
  pub logout-authentication :
      (sid uid : Text) (w w' : World F) (request : Request) (p : AccessTokenPayload)
      → (logout F (some sid) (some uid) w).0 ≡ ok tt
      → w'.client.store ≡ (logout F (some sid) (some uid) w).1.client.store
      → w.client.clock ≤ w'.client.clock
      → (authentication F request w').0 ≡ ok p
      → p.session_id ≢ sid
  logout-authentication sid uid w w' request p h same le a =
      let (done, after) = logout-delete sid uid w h in
      let gone =
        ap (λ (c : Client F.redis). raw_at F.redis c.store w.client.clock sid) after
        ∙ (delete-ok F.redis sid uid w.client done).0 sid
        ∙ rw (===-refl sid) in
      let w1 = (logout F (some sid) (some uid) w).1 in
      Lacks-authentication request p w1 w' sid
        (subst (λ t. raw_at F.redis w1.client.store t sid ≡ none) (sym (logout-clock sid uid w h))
          gone)
        same (subst (λ t. t ≤ w'.client.clock) (sym (logout-clock sid uid w h)) le) a

  logout_all-client :
      (c : ℕ) (uid : Text) (w : World F)
      → (logout_all F (some (c ∷ uid)) w).1.client
        ≡ (Sessions.delete_all_for_user F.redis (c ∷ uid) w.client).1
  unfolding logout_all logout_user on_redis
  logout_all-client c uid w = refl

  -- After a logout from everywhere of a user with an identifier that is not empty, with a reply
  -- from Redis: as long as no later write has changed Redis, no request is authenticated, whatever
  -- faults there are then, for any session that the user's index had.
  pub logout_all-authentication :
      (uid sid : Text) (w w' : World F) (request : Request) (p : AccessTokenPayload)
      → uid ≢ []
      → next_fault w.client.faults ≡ delivered
      → has (index_at F.redis w.client.store w.client.clock uid) sid ≡ true
      → w'.client.store ≡ (logout_all F (some uid) w).1.client.store
      → w.client.clock ≤ w'.client.clock
      → (authentication F request w').0 ≡ ok p
      → p.session_id ≢ sid
  logout_all-authentication [] sid w w' request p ne f indexed same le a = absurd (ne refl)
  logout_all-authentication (c ∷ uid) sid w w' request p ne f indexed same le a =
      let after = logout_all-client c uid w in
      let w1 = (logout_all F (some (c ∷ uid)) w).1 in
      let at =
        ap (λ (x : Client F.redis). x.clock) after
        ∙ delete_all_for_user-clock F.redis (c ∷ uid) w.client in
      let gone =
        ap (λ (x : Client F.redis). raw_at F.redis x.store w.client.clock sid) after
        ∙ (delete_all_for_user-delivered F.redis (c ∷ uid) w.client f).1 sid
        ∙ rw indexed in
      Lacks-authentication request p w1 w' sid
        (subst (λ t. raw_at F.redis w1.client.store t sid ≡ none) (sym at) gone) same
        (subst (λ t. t ≤ w'.client.clock) (sym at) le) a

  app-status : (e : AppError) → status_code e ≢ 200
  unfolding status_code
  app-status (validation m) h = ground arith
  app-status (unauthorized m) h = ground arith
  app-status (forbidden m) h = ground arith
  app-status (not_found m) h = ground arith
  app-status (conflict m) h = ground arith
  app-status (too_many_requests m s) h = ground arith

  error_handler-status : (e : Failure) (w : World F) → (error_handler F e w).0.status ≢ 200
  unfolding error_handler
  error_handler-status (app e) w h = app-status e h
  error_handler-status (redis_failure m) w h = ground arith
  error_handler-status (postgres_failure code constraint) w h = ground arith
  error_handler-status (js_error m) w h = ground arith

  async_handler-ok :
      (handler : Exec (World F) Response) (w : World F)
      → (async_handler F handler w).0.status ≡ 200
      → (r : Response) × ((handler w).0 ≡ ok r)
  async_handler-ok handler w h = elim (Result-cases (handler w).0) [
    | inl (r, e) ↦ (r, e)
    | inr (e', e) ↦ absurd (error_handler-status e' (handler w).1 (rw e at h))
  ]

  require_role-ok :
      (role : UserRole) (p : AccessTokenPayload) (w : World F) {u : Unit}
      → (require_role F role p w).0 ≡ ok u
      → p.role ≡ role_text role
  unfolding require_role
  require_role-ok role p w h = elim (Bool-cases (p.role === role_text role)) [
    | inl same ↦ (===_iff _ _).0 same
    | inr other ↦ absurd (cc (rw other at h))
  ]

  -- Whoever gets the list of users (status 200 from GET /admin/users), whatever faults there are,
  -- was authenticated by that request, and its access token carries the role admin.
  pub get_admin_users-admin :
      (request : Request) (w : World F)
      → (get_admin_users F request w).0.status ≡ 200
      → (p : AccessTokenPayload) × ((authentication F request w).0 ≡ ok p)
        × (p.role ≡ codes "admin")
  unfolding get_admin_users list_as role_text
  get_admin_users-admin request w h =
      let (r, e) = async_handler-ok (authentication F request >>= list_as F request) w h in
      let (p, authenticated, rest) = bind-inv (authentication F request) (list_as F request) w e in
      let (u, allowed, rest') =
        bind-inv (require_role F admin p)
          (λ _. list_users F request.query >>= λ result.
            pure (record { status = 200; retry_after = none; payload = list_payload result }))
          (authentication F request w).1 (sym (ap (λ x. x.0) rest) ∙ e) in
      (p, authenticated, require_role-ok admin p (authentication F request w).1 allowed)
