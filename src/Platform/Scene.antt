-- ===== src/Platform/Scene.antt =====
-- A user and two sessions of hers, one of them in her index, for the tests.
use node_jwt_redis_session_a.Base.{Text, codes, none, some, List, [], ◌∷◌}
use node_jwt_redis_session_a.Account.{user, admin, UserRecord}
use node_jwt_redis_session_a.Redis.Sample.{sample, SampleStore}
use node_jwt_redis_session_a.Sessions.{SessionRecord, session_key, user_sessions_key}
use node_jwt_redis_session_a.Sessions.Sample.{codec}
use node_jwt_redis_session_a.Postgres.{UserRow}
use node_jwt_redis_session_a.Platform.{World}
use node_jwt_redis_session_a.Platform.Sample.{platform}

abbrev pub account : UserRecord
account = record {
  id = codes "u";
  name = codes "Ada";
  username = codes "ada";
  password_hash = codes "#pw";
  email = codes "a@b";
  role = admin;
}

abbrev pub rows : List UserRow
rows = record { record_of = account; created_at = 1 } ∷ []

abbrev pub session : SessionRecord
session = record {
  user_id = codes "u";
  role = user;
  refresh_token_hash = codes "hv";
  previous_refresh_token_hash = none;
  rotated_at = none;
  created_at = 100;
  expires_at = 900000;
  absolute_expires_at = 900000;
}

abbrev pub stored : SampleStore
stored = sample.sadd (user_sessions_key (codes "u")) (codes "s") 1000 (
    sample.set_ex (session_key (codes "t")) (codec.stringify session) 800 1000
      (sample.set_ex (session_key (codes "s")) (codec.stringify session) 800 1000 (λ key. none)))

abbrev pub secret : Text
secret = codes "0123456789abcdef0123456789abcdef0"

abbrev pub world : World platform
world = record {
  client = record { store = stored; clock = 1000; faults = [] };
  pool = record { db = rows; faults = [] };
  now = 1000;
  uuids = λ n. codes "t";
  bytes = λ n. codes "ww";
  secret = some secret;
  log = [];
}
