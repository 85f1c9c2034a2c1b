-- ===== src/Sessions/Ideal/Tests.antt =====
-- A session from its creation to a logout from everywhere, beside the ideal.
use node_jwt_redis_session_a.Base.{
  codes, ◌≡◌, refl, none, [], ◌∷◌, List, map, ok, arith, All, false,
}
use node_jwt_redis_session_a.Account.{user, admin}
use node_jwt_redis_session_a.Redis.Client.{Client}
use node_jwt_redis_session_a.Redis.Sample.{sample}
use node_jwt_redis_session_a.Sessions.{SessionRecord, RotateParams}
use node_jwt_redis_session_a.Sessions.Sample.{codec}
use node_jwt_redis_session_a.Sessions.Ideal.{
  Ideal, Call, get_call, create_call, rotate_call, delete_all_call, ideals, performs, Represents,
}
use node_jwt_redis_session_a.Sessions.Ideal.Refines.{Sane, performs-ideals}

abbrev session : SessionRecord
session = record {
  user_id = codes "u";
  role = user;
  refresh_token_hash = codes "h1";
  previous_refresh_token_hash = none;
  rotated_at = none;
  created_at = 500;
  expires_at = 900000;
  absolute_expires_at = 900000;
}

abbrev renewal : RotateParams
renewal = record { presented_hash = codes "h1"; new_hash = codes "h2"; role = admin; now = 600 }

abbrev calls : List Call
calls =
    create_call 500 (codes "s") session
    ∷ rotate_call (codes "s") (codes "u") renewal
    ∷ get_call (codes "s")
    ∷ delete_all_call (codes "u")
    ∷ get_call (codes "s")
    ∷ []

abbrev client : Client sample
client = record { store = λ key. none; clock = 1000; faults = [] }

abbrev nothing : Ideal
nothing = record { sessions = λ id. none; index = λ uid id. false }

empty-Represents : Represents sample codec client.store 1000 nothing
empty-Represents = record { shown = λ id. refl; indexed = λ uid id. refl; sets = λ uid. refl }

calls-Sane : All Sane calls
calls-Sane = (
  ((omega arith, omega arith, omega arith, λ t e. absurd (cc)), omega arith),
  (omega arith, (tt, (tt, (tt, tt)))),
)

performs-ideals_example :
    ((performs sample codec calls client).0 ≡ map ok (ideals calls nothing).0)
    × Represents sample codec
        (performs sample codec calls client).1.store
        1000
        (ideals calls nothing).1
performs-ideals_example =
    performs-ideals sample codec calls client nothing refl empty-Represents calls-Sane
