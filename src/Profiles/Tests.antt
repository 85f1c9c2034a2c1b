-- ===== src/Profiles/Tests.antt =====
-- A profile while Redis refuses every request, at concrete values.
use node_jwt_redis_session_a.Base.{
  codes, ◌≡◌, ◌⊎◌, refl, [], ◌∷◌, ok, rejected, ◌≤◌, trim, index_of,
}
use node_jwt_redis_session_a.Account.{UserPublic, to_public_user}
use node_jwt_redis_session_a.Users.{first_row, has_id, list_paginated, order_rows, insert_row}
use node_jwt_redis_session_a.Platform.{World, on_postgres, random_bytes, random_uuid}
use node_jwt_redis_session_a.Platform.Sample.{platform}
use node_jwt_redis_session_a.Platform.Scene.{world, rows, stored, account}
use node_jwt_redis_session_a.Profiles.{
  get_user_profile_of, ListUsersResult, list_users, create_user, check_email, store_user,
}
use node_jwt_redis_session_a.Profiles.Reading.{Cached, from_table, get_user_profile_of-result}
use node_jwt_redis_session_a.Profiles.Listing.{page_of, list_users-page}
use node_jwt_redis_session_a.Validation.Schemas.{parse_page_query, parse_create_user}
use node_jwt_redis_session_a.Validation.{member, Body, object, text, parse_or_throw}
use node_jwt_redis_session_a.Postgres.{query}
use node_jwt_redis_session_a.Users
use node_jwt_redis_session_a.Profiles.Creating.{IsRegistered, create_user-ok}

abbrev offline : World platform
offline = record world {
  client = record { store = stored; clock = 1000; faults = rejected ∷ rejected ∷ [] };
}

get_user_profile_of-result_example :
    ((get_user_profile_of platform (codes "u") offline).0
      ≡ from_table platform (codes "u") (first_row (has_id platform.postgres (codes "u")) rows))
    ⊎ ((p : UserPublic) × ((get_user_profile_of platform (codes "u") offline).0 ≡ ok p)
        × Cached platform.redis platform.profiles stored 1000 (codes "u") p)
get_user_profile_of-result_example = get_user_profile_of-result platform (codes "u") offline refl

abbrev page : ListUsersResult
page = record { items = to_public_user account ∷ []; total = 1; limit = 20; offset = 0 }

page_listed : (list_users platform [] world).0 ≡ ok page
unfolding list_users parse_page_query member list_paginated order_rows insert_row query on_postgres
page_listed = refl

list_users-page_example :
    (1 ≤ 20) × (20 ≤ 100) × (1 ≤ 20) × (to_public_user account ∷ [] ≡ page_of 20 0 rows)
list_users-page_example = list_users-page platform [] world page page_listed

abbrev registration : Body
registration = object (
    (codes "username", text (codes "eve"))
    ∷ (codes "name", text (codes "Eve"))
    ∷ (codes "email", text (codes "e@b"))
    ∷ (codes "password", text (codes "correct horse"))
    ∷ [])

registered : (create_user platform registration world).0 ≡ ok (codes "t")
unfolding create_user check_email store_user parse_create_user parse_or_throw member trim index_of
    random_bytes random_uuid on_postgres query Users.exists_by_username Users.exists_by_email
    Users.create
registered = refl

create_user-ok_example :
    IsRegistered platform registration world (codes "t") (create_user platform registration world).1
create_user-ok_example = create_user-ok platform registration world (codes "t") registered
