-- ===== src/Profiles.antt =====
-- src/services/UserService.ts: creating users, profiles and the list of users.
pub mod Reading
pub mod Listing
pub mod Creating
mod Tests
use node_jwt_redis_session_a.Base.{
  Text, ℕ, Option, none, some, List, map, Exec, pure, throw, catch, lift, ◌>>=◌, ◌>>◌,
  if◌then◌else◌,
}
use node_jwt_redis_session_a.Errors.{Failure, app, conflict, not_found}
use node_jwt_redis_session_a.Account.{UserRecord, UserPublic, to_public_user}
use node_jwt_redis_session_a.Users
use node_jwt_redis_session_a.Users.{Page}
use node_jwt_redis_session_a.Cache.{get_user_profile, set_user_profile, default_ttl_seconds}
use node_jwt_redis_session_a.Validation.{Body, Value}
use node_jwt_redis_session_a.Validation.Schemas.{
  CreateUserInput, parse_create_user, parse_page_query,
}
use node_jwt_redis_session_a.Platform.{
  Platform, World, on_redis, on_postgres, random_uuid, random_bytes, write_log,
}

abbrev pub bcrypt_salt_rounds : ℕ
bcrypt_salt_rounds = 12

abbrev pub username_taken : Failure
username_taken = app (conflict "Username already taken.")

abbrev pub email_taken : Failure
email_taken = app (conflict "Email already registered.")

abbrev pub user_not_found : Failure
user_not_found = app (not_found "User not found.")

pub record ListUsersResult : Type 0 where
  pub items : List UserPublic
  pub total : ℕ
  pub limit : ℕ
  pub offset : ℕ

module _ (F : Platform) where
  unfoldable pub store_user : CreateUserInput → Exec (World F) Text
  store_user input = do
    salt ← random_bytes
    let password_hash = F.bcrypt.hash input.password bcrypt_salt_rounds salt
    id ← random_uuid
    on_postgres (
        Users.create F.postgres (record {
          id = id;
          name = input.name;
          username = input.username;
          password_hash = password_hash;
          email = input.email_address;
        }))
    pure id

  unfoldable pub check_email : CreateUserInput → Exec (World F) Text
  check_email input = do
    taken ← on_postgres (Users.exists_by_email F.postgres input.email_address)
    if taken then throw email_taken else store_user input

  unfoldable pub create_user : Body → Exec (World F) Text
  create_user raw_input = do
    input ← lift (parse_create_user F.zod raw_input)
    taken ← on_postgres (Users.exists_by_username F.postgres input.username)
    if taken then throw username_taken else check_email input

  unfoldable pub read_cached_profile : Text → Exec (World F) (Option UserPublic)
  read_cached_profile user_id =
      catch (on_redis (get_user_profile F.redis F.profiles user_id))
        (λ _. write_log "Failed to read profile cache, falling back to PostgreSQL" >> pure none)

  unfoldable pub found_profile : Text → Option UserRecord → Exec (World F) UserPublic
  found_profile user_id none = throw user_not_found
  found_profile user_id (some u) = do
    let profile = to_public_user u
    catch (on_redis (set_user_profile F.redis F.profiles user_id profile default_ttl_seconds))
        (λ _. write_log "Failed to repopulate profile cache")
    pure profile

  unfoldable pub cached_or_found : Text → Option UserPublic → Exec (World F) UserPublic
  cached_or_found user_id (some profile) = pure profile
  cached_or_found user_id none =
      on_postgres (Users.find_by_id F.postgres user_id) >>= found_profile user_id

  unfoldable pub get_user_profile_of : Text → Exec (World F) UserPublic
  get_user_profile_of user_id = read_cached_profile user_id >>= cached_or_found user_id

  unfoldable pub list_users : List (Text × Value) → Exec (World F) ListUsersResult
  list_users raw_query = do
    query ← lift (parse_page_query F.zod raw_query)
    page ← on_postgres (Users.list_paginated F.postgres query.limit query.offset)
    pure (record {
      items = map to_public_user page.items;
      total = page.total;
      limit = query.limit;
      offset = query.offset;
    })
