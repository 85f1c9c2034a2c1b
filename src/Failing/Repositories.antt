-- ===== src/Failing/Repositories.antt =====
-- Which errors the other repositories, the throttle and the tokens throw.
use node_jwt_redis_session_a.Base.{
  Text, ℕ, refl, Option, none, some, List, [], ◌∷◌, Result, ok, err, Bool-cases, inl, inr, arith,
  zero, suc, ltb, ◌+◌, ◌-◌, pure, length, or_throw, and_then, map, take, drop,
}
use node_jwt_redis_session_a.Errors.{Failure, status_code}
use node_jwt_redis_session_a.Redis.{Redis, count_of}
use node_jwt_redis_session_a.Redis.Client.{Client, request}
use node_jwt_redis_session_a.Failing.{
  Fails, Foreign, In, ErrIs, Fails-bind, request-Fails, query-Fails, ErrIs-and_then, Fails-rethrow,
}
use node_jwt_redis_session_a.Cache.{ProfileCodec, set_user_profile}
use node_jwt_redis_session_a.Throttle.{
  LoginThrottleOptions, assert_not_throttled, record_failure, reset, ttl_command, check_ttl,
  lock_key, record_failure_script, expire_first, lock_excess,
}
use node_jwt_redis_session_a.Account.{UserRecord, UserPublic, UserRole}
use node_jwt_redis_session_a.Postgres.{any_row, Postgres, Pool, query, UserRow, NewUser}
use node_jwt_redis_session_a.Users
use node_jwt_redis_session_a.Users.{
  first_row, has_username, has_id, has_email, order_rows, select, translate, insert_statement,
  insert_result,
}
use node_jwt_redis_session_a.Tokens.{
  Jwt, get_secret, min_secret_length, sign_access_token, verify_access_token, decode, read_claims,
  AccessTokenPayload, invalid_token,
}
use node_jwt_redis_session_a.Failing.Sessions.{set_command-Fails}

module _ (R : Redis) (D : ProfileCodec) where
  pub set_user_profile-Fails :
      (uid : Text) (p : UserPublic) (ttl : ℕ)
      → Fails {S = Client R} Foreign (set_user_profile R D uid p ttl)
  unfolding set_user_profile
  set_user_profile-Fails uid p ttl =
      request-Fails Foreign _ refl (λ t s. set_command-Fails R _ _ ttl t s)

module _ (R : Redis) (to_lower : Text → Text) (o : LoginThrottleOptions) where
  check_ttl-Fails : (ttl : ℕ) → Fails {S = Client R} (In (429 ∷ 500 ∷ [])) (check_ttl R o ttl)
  unfolding status_code
  check_ttl-Fails ttl s = elim (Bool-cases (ltb 0 ttl)) [
    | inl locked ↦ rw locked refl
    | inr free ↦ rw free tt
  ]

  pub assert_not_throttled-Fails :
      (username : Text)
      → Fails {S = Client R} (In (429 ∷ 500 ∷ [])) (assert_not_throttled R to_lower o username)
  unfolding assert_not_throttled
  assert_not_throttled-Fails username =
      Fails-bind (In (429 ∷ 500 ∷ [])) (request (ttl_command R o (lock_key to_lower username)))
        (check_ttl R o) (request-Fails (In (429 ∷ 500 ∷ [])) _ refl (λ t s. tt)) check_ttl-Fails

  lock_excess-Fails :
      (key : Text) (excess t : ℕ) → Fails {S = R.Store} Foreign (lock_excess R o key excess t)
  lock_excess-Fails key zero t s = tt
  lock_excess-Fails key (suc n) t s = set_command-Fails R key _ _ t s

  record_failure_script-Fails :
      (failures lock : Text) (t : ℕ)
      → Fails {S = R.Store} Foreign (record_failure_script R o failures lock t)
  unfolding record_failure_script
  record_failure_script-Fails failures lock t s =
      let n = count_of (R.live s t failures) + 1 in
      Fails-bind Foreign (lock_excess R o lock (n - o.free_attempts) t) (λ _. pure n)
        (lock_excess-Fails lock (n - o.free_attempts) t) (λ _ s. tt)
        (expire_first R o failures n t (R.incr failures t s)).1

  pub record_failure-Fails :
      (username : Text) → Fails {S = Client R} Foreign (record_failure R to_lower o username)
  unfolding record_failure
  record_failure-Fails username =
      Fails-bind Foreign (request (record_failure_script R o _ _)) (λ _. pure tt)
        (request-Fails Foreign _ refl (record_failure_script-Fails _ _)) (λ n s. tt)

  pub reset-Fails : (username : Text) → Fails {S = Client R} Foreign (reset R to_lower o username)
  unfolding reset
  reset-Fails username = request-Fails Foreign _ refl (λ t s. tt)

module _ (P : Postgres) where
  select-Fails :
      {A : Type 0} (f : List UserRow → A) → Fails {S = Pool P} Foreign (query (select P f))
  select-Fails f = query-Fails Foreign (select P f) refl (λ s. tt)

  translate-In : (e : Failure) → Foreign e → In (409 ∷ 500 ∷ []) (translate e)
  unfolding translate status_code
  translate-In e h = ground (arith)

  pub find_by_username-Fails :
      (username : Text) → Fails {S = Pool P} Foreign (Users.find_by_username P username)
  unfolding Users.find_by_username
  find_by_username-Fails username = select-Fails (first_row (has_username P username))

  pub find_by_id-Fails : (id : Text) → Fails {S = Pool P} Foreign (Users.find_by_id P id)
  unfolding Users.find_by_id
  find_by_id-Fails id = select-Fails (first_row (has_id P id))

  pub exists_by_username-Fails :
      (username : Text) → Fails {S = Pool P} Foreign (Users.exists_by_username P username)
  unfolding Users.exists_by_username
  exists_by_username-Fails username = select-Fails (any_row (has_username P username))

  pub exists_by_email-Fails :
      (email : Text) → Fails {S = Pool P} Foreign (Users.exists_by_email P email)
  unfolding Users.exists_by_email
  exists_by_email-Fails email = select-Fails (any_row (has_email P email))

  pub list_paginated-Fails :
      (limit offset : ℕ) → Fails {S = Pool P} Foreign (Users.list_paginated P limit offset)
  unfolding Users.list_paginated
  list_paginated-Fails limit offset =
      let page : List UserRow → List UserRecord =
        λ rows. map (λ r. r.record_of) (take limit (drop offset (order_rows rows))) in
      Fails-bind Foreign (query (select P page)) _ (select-Fails page) (λ items.
        Fails-bind Foreign (query (select P length)) _ (select-Fails length) (λ total w. tt))

  insert_result-ErrIs : (o : Option Text) → ErrIs Foreign (insert_result P o)
  insert_result-ErrIs none = tt
  insert_result-ErrIs (some k) = refl

  pub create_user-Fails :
      (u : NewUser) → Fails {S = Pool P} (In (409 ∷ 500 ∷ [])) (Users.create P u)
  unfolding Users.create
  create_user-Fails u =
      Fails-rethrow (In (409 ∷ 500 ∷ [])) Foreign (query (insert_statement P u)) translate
        (query-Fails Foreign (insert_statement P u) refl
          (λ db. insert_result-ErrIs (P.insert u db).0))
        translate-In

module _ (J : Jwt) where
  get_secret-ErrIs : (env : Option Text) → ErrIs Foreign (get_secret env)
  unfolding get_secret
  get_secret-ErrIs none = refl
  get_secret-ErrIs (some []) = refl
  get_secret-ErrIs (some (c ∷ s)) = elim (Bool-cases (ltb (length (c ∷ s)) min_secret_length)) [
    | inl short ↦ rw short refl
    | inr long ↦ rw long tt
  ]

  pub sign_access_token-ErrIs :
      (env : Option Text) (now : ℕ) (uid sid : Text) (role : UserRole)
      → ErrIs Foreign (sign_access_token J env now uid sid role)
  unfolding sign_access_token
  sign_access_token-ErrIs env now uid sid role =
      ErrIs-and_then Foreign (get_secret env) _ (get_secret-ErrIs env) (λ secret. tt)

  pub verify_access_token-ErrIs :
      (env : Option Text) (now : ℕ) (token : Text)
      → ErrIs (In (401 ∷ [])) (verify_access_token J env now token)
  unfolding verify_access_token status_code
  verify_access_token-ErrIs env now token =
      thrown (and_then (and_then (get_secret env) (decode J token now)) read_claims)
    where
      thrown : (r : Result AccessTokenPayload) → ErrIs (In (401 ∷ [])) (or_throw r invalid_token)
      thrown (ok p) = tt
      thrown (err e) = refl
