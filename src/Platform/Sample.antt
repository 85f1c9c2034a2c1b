-- ===== src/Platform/Sample.antt =====
-- A platform that meets the laws of the interfaces.
use node_jwt_redis_session_a.Base.{
  Text, ℕ, ◌≡◌, refl, ap, ◌∙◌, true, Option, none, some, List, [], ◌∷◌, ◌===◌, ===-refl,
  join_fields, read_fields, read_fields-join_fields,
}
use node_jwt_redis_session_a.Account.{UserPublic}
use node_jwt_redis_session_a.Redis.Sample.{sample}
use node_jwt_redis_session_a.Postgres.Sample.{server}
use node_jwt_redis_session_a.Sessions.Sample.{codec, put_role, role_of, role_of-put_role}
use node_jwt_redis_session_a.Tokens.Sample.{jwt, crypto}
use node_jwt_redis_session_a.Validation.Sample.{zod}
use node_jwt_redis_session_a.Cache.{ProfileCodec}
use node_jwt_redis_session_a.Throttle.{default_options}
use node_jwt_redis_session_a.Platform.{Platform, Bcrypt}

abbrev fields : UserPublic → List Text
fields u = u.id ∷ u.name ∷ u.username ∷ u.email ∷ put_role u.role ∷ []

abbrev of_fields : List Text → Option UserPublic
of_fields (id ∷ name ∷ username ∷ email ∷ role ∷ []) =
    some (record { id = id; name = name; username = username; email = email; role = role_of role })
of_fields _ = none

pub parse-stringify_lem :
    (u : UserPublic) → of_fields (read_fields 5 (join_fields (fields u))) ≡ some u
parse-stringify_lem u =
    ap of_fields (read_fields-join_fields (fields u))
    ∙ (λ i. some (record u { role = role_of-put_role u.role i }))

abbrev profiles : ProfileCodec
profiles = record {
  stringify = λ u. join_fields (fields u);
  parse = λ s. of_fields (read_fields 5 s);
  parse-nil = refl;
  parse-stringify = parse-stringify_lem;
}

pub compare-hash_lem :
    (password : Text) (rounds : ℕ) (salt : List ℕ) → (b'#' ∷ password === b'#' ∷ password) ≡ true
compare-hash_lem password rounds salt = ===-refl (b'#' ∷ password)

abbrev bcrypt : Bcrypt
bcrypt = record {
  hash = λ password rounds salt. b'#' ∷ password;
  compare = λ password hash. hash === (b'#' ∷ password);
  compare-hash = compare-hash_lem;
}

abbrev pub platform : Platform
platform = record {
  redis = sample;
  postgres = server;
  sessions = codec;
  profiles = profiles;
  jwt = jwt;
  crypto = crypto;
  bcrypt = bcrypt;
  zod = zod;
  to_lower = λ s. s;
  throttle = default_options;
}
