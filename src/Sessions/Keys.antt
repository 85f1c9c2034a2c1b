-- ===== src/Sessions/Keys.antt =====
-- The keys of SessionRepository: sessions and indices.
use node_jwt_redis_session_a.Base.{Text, ◌≡◌, refl, false, ◌===◌}
use node_jwt_redis_session_a.Sessions.{session_key, user_sessions_key}

pub session_key-=== : (a b : Text) → (session_key a === session_key b) ≡ (a === b)
unfolding session_key
session_key-=== a b = refl

pub user_sessions_key-=== : (a b : Text) → (user_sessions_key a === user_sessions_key b) ≡ (a === b)
unfolding user_sessions_key
user_sessions_key-=== a b = refl

pub session_key-ne-user_sessions_key :
    (a b : Text) → (session_key a === user_sessions_key b) ≡ false
unfolding session_key user_sessions_key
session_key-ne-user_sessions_key a b = refl

pub user_sessions_key-ne-session_key :
    (a b : Text) → (user_sessions_key a === session_key b) ≡ false
unfolding session_key user_sessions_key
user_sessions_key-ne-session_key a b = refl
