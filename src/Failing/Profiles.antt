-- ===== src/Failing/Profiles.antt =====
-- Which errors UserService throws.
use node_jwt_redis_session_a.Base.{
  Text, ℕ, refl, Bool, true, false, Option, none, some, List, [], ◌∷◌, if◌then◌else◌, suc, lift,
  pure, throw, ◌>>=◌, ◌>>◌, catch,
}
use node_jwt_redis_session_a.Errors.{status_code}
use node_jwt_redis_session_a.Failing.{
  Fails, In, Fails-bind, Fails-catch, Fails-subset, on_postgres-Fails, postgres-In, lift-In,
}
use node_jwt_redis_session_a.Failing.Repositories.{
  exists_by_email-Fails, exists_by_username-Fails, find_by_id-Fails, list_paginated-Fails,
  create_user-Fails,
}
use node_jwt_redis_session_a.Validation.{Body, Value}
use node_jwt_redis_session_a.Validation.Schemas.{
  parse_create_user, parse_page_query, CreateUserInput,
}
use node_jwt_redis_session_a.Platform.{
  Platform, World, on_redis, on_postgres, random_uuid, random_bytes, write_log,
}
use node_jwt_redis_session_a.Users
use node_jwt_redis_session_a.Profiles.{
  bcrypt_salt_rounds, email_taken, username_taken, create_user, check_email, store_user,
  get_user_profile_of, read_cached_profile, cached_or_found, found_profile, list_users,
}
use node_jwt_redis_session_a.Cache.{get_user_profile, set_user_profile, default_ttl_seconds}
use node_jwt_redis_session_a.Account.{UserRecord, UserPublic, to_public_user}
use node_jwt_redis_session_a.Postgres.{NewUser}
use node_jwt_redis_session_a.Failing.Schemas.{parse_create_user-ErrIs, parse_page_query-ErrIs}

abbrev creating : List ℕ
creating = 400 ∷ 409 ∷ 500 ∷ []

module _ (F : Platform) where
  store_user-Fails :
      (input : CreateUserInput) → Fails {S = World F} (In creating) (store_user F input)
  unfolding store_user random_bytes random_uuid
  store_user-Fails input w =
      let u : NewUser = record {
        id = w.uuids 0;
        name = input.name;
        username = input.username;
        password_hash = F.bcrypt.hash input.password bcrypt_salt_rounds (w.bytes 0);
        email = input.email_address;
      } in
      Fails-bind (In creating) (on_postgres (Users.create F.postgres u)) (λ _. pure (w.uuids 0))
        (Fails-subset (409 ∷ 500 ∷ []) creating (on_postgres (Users.create F.postgres u)) refl (
          on_postgres-Fails (In (409 ∷ 500 ∷ [])) (Users.create F.postgres u)
            (create_user-Fails F.postgres u)))
        (λ _ s. tt) (record w { bytes = λ n. w.bytes (suc n); uuids = λ n. w.uuids (suc n) })

  check_email-Fails :
      (input : CreateUserInput) → Fails {S = World F} (In creating) (check_email F input)
  unfolding check_email status_code
  check_email-Fails input =
      Fails-bind (In creating) (on_postgres (Users.exists_by_email F.postgres input.email_address))
        _ (postgres-In creating _ refl (exists_by_email-Fails F.postgres input.email_address)) taken
    where
      taken : (b : Bool) → Fails (In creating) (if b then throw email_taken else store_user F input)
      taken true w = refl
      taken false w = store_user-Fails input w

  pub create_user_body-Fails :
      (body : Body) → Fails {S = World F} (In creating) (create_user F body)
  unfolding create_user status_code
  create_user_body-Fails body =
      Fails-bind (In creating) (lift (parse_create_user F.zod body)) _
        (lift-In creating (400 ∷ 500 ∷ []) _ refl (parse_create_user-ErrIs F.zod body)) checked
    where
      taken :
          (input : CreateUserInput) (b : Bool)
          → Fails (In creating) (if b then throw username_taken else check_email F input)
      taken input true w = refl
      taken input false w = check_email-Fails input w

      checked :
          (input : CreateUserInput)
          → Fails (In creating) (
              on_postgres (Users.exists_by_username F.postgres input.username) >>= λ b.
              if b then throw username_taken else check_email F input)
      checked input =
          Fails-bind (In creating)
            (on_postgres (Users.exists_by_username F.postgres input.username)) _
            (postgres-In creating _ refl (exists_by_username-Fails F.postgres input.username))
            (taken input)

  -- The profile of a user fails as PostgreSQL does, or with 404.
  pub get_user_profile_of-Fails :
      (uid : Text) → Fails {S = World F} (In (404 ∷ 500 ∷ [])) (get_user_profile_of F uid)
  unfolding get_user_profile_of read_cached_profile write_log cached_or_found found_profile
      status_code
  get_user_profile_of-Fails uid =
      Fails-bind (In (404 ∷ 500 ∷ [])) (read_cached_profile F uid) (cached_or_found F uid)
        (Fails-catch (In (404 ∷ 500 ∷ [])) (on_redis (get_user_profile F.redis F.profiles uid))
          (λ _. write_log "Failed to read profile cache, falling back to PostgreSQL" >> pure none)
          (λ e w. tt))
        found
    where
      shown : (o : Option UserRecord) → Fails (In (404 ∷ 500 ∷ [])) (found_profile F uid o)
      shown none w = refl
      shown (some u) w =
          let profile = to_public_user u in
          Fails-bind (In (404 ∷ 500 ∷ []))
            (catch (on_redis (set_user_profile F.redis F.profiles uid profile default_ttl_seconds))
              (λ _. write_log "Failed to repopulate profile cache"))
            (λ _. pure profile)
            (Fails-catch (In (404 ∷ 500 ∷ []))
              (on_redis (set_user_profile F.redis F.profiles uid profile default_ttl_seconds))
              (λ _. write_log "Failed to repopulate profile cache") (λ e w. tt))
            (λ _ w. tt) w

      found : (o : Option UserPublic) → Fails (In (404 ∷ 500 ∷ [])) (cached_or_found F uid o)
      found (some p) w = tt
      found none w =
          Fails-bind (In (404 ∷ 500 ∷ [])) (on_postgres (Users.find_by_id F.postgres uid))
            (found_profile F uid)
            (postgres-In (404 ∷ 500 ∷ []) _ refl (find_by_id-Fails F.postgres uid)) shown w

  pub list_users-Fails :
      (query : List (Text × Value)) → Fails {S = World F} (In (400 ∷ 500 ∷ [])) (list_users F query)
  unfolding list_users
  list_users-Fails query =
      Fails-bind (In (400 ∷ 500 ∷ [])) (lift (parse_page_query F.zod query)) _
        (λ w. parse_page_query-ErrIs F.zod query)
        (λ page.
          Fails-bind (In (400 ∷ 500 ∷ []))
            (on_postgres (Users.list_paginated F.postgres page.limit page.offset)) _
            (postgres-In (400 ∷ 500 ∷ []) _ refl
              (list_paginated-Fails F.postgres page.limit page.offset))
            (λ p w. tt))
