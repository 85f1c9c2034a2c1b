-- ===== src/Account.antt =====
-- src/types/user.ts: the users as PostgreSQL holds them, and what clients are shown.
use node_jwt_redis_session_a.Base.{Text}

pub data UserRole : Type 0 where
  user admin : UserRole

pub record UserRecord : Type 0 where
  pub id : Text
  pub name : Text
  pub username : Text
  pub password_hash : Text
  pub email : Text
  pub role : UserRole

pub record UserPublic : Type 0 where
  pub id : Text
  pub name : Text
  pub username : Text
  pub email : Text
  pub role : UserRole

unfoldable pub to_public_user : UserRecord → UserPublic
to_public_user u = record {
  id = u.id;
  name = u.name;
  username = u.username;
  email = u.email;
  role = u.role;
}
