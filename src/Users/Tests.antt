-- ===== src/Users/Tests.antt =====
-- Creating a user whose name is taken, at concrete values.
use node_jwt_redis_session_a.Base.{codes, refl, []}
use node_jwt_redis_session_a.Postgres.{NewUser, Pool, new_row}
use node_jwt_redis_session_a.Postgres.Sample.{server}
use node_jwt_redis_session_a.Users
use node_jwt_redis_session_a.Users.Creating.{Created, create-Created}
use node_jwt_redis_session_a.Platform.Scene.{rows}

abbrev newcomer : NewUser
newcomer = record {
  id = codes "v";
  name = codes "Eve";
  username = codes "ada";
  password_hash = codes "#xx";
  email = codes "e@b";
}

abbrev pool : Pool server
pool = record { db = rows; faults = [] }

create-Created_example :
    Created server newcomer rows
      (new_row newcomer 7)
      (Users.create server newcomer pool).0
      (Users.create server newcomer pool).1.db
create-Created_example = create-Created server newcomer pool refl
