-- ===== src/Cache.antt =====
-- src/repositories/CacheRepository.ts: the profile cache in Redis.
use node_jwt_redis_session_a.Base.{
  Text, codes, ℕ, ◌≡◌, Option, none, some, [], ◌∷◌, ◌++◌, Exec, Result, ok, Done, lift, ◌>>=◌,
  and_then, or_else,
}
use node_jwt_redis_session_a.Errors.{js_error}
use node_jwt_redis_session_a.Account.{UserPublic}
use node_jwt_redis_session_a.Redis.{Redis}
use node_jwt_redis_session_a.Redis.Client.{Client, request}
use node_jwt_redis_session_a.Sessions.{get_command, set_command}

abbrev pub default_ttl_seconds : ℕ
default_ttl_seconds = 3600

-- `JSON.stringify` and `JSON.parse` at profiles.
pub record ProfileCodec : Type 0 where
  pub stringify : UserPublic → Text
  pub parse : Text → Option UserPublic
  pub parse-nil : parse [] ≡ none
  pub parse-stringify : (u : UserPublic) → parse (stringify u) ≡ some u

unfoldable pub profile_key : Text → Text
profile_key user_id = codes "user-" ++ user_id

module _ (R : Redis) (D : ProfileCodec) where
  -- `cached ? JSON.parse(cached) : null`
  abbrev pub parse_cached : Option Text → Result (Option UserPublic)
  parse_cached none = ok none
  parse_cached (some []) = ok none
  parse_cached (some (c ∷ s)) =
      and_then (or_else (D.parse (c ∷ s)) (js_error "SyntaxError: Unexpected token in JSON"))
        λ profile. ok (some profile)

  unfoldable pub get_user_profile : Text → Exec (Client R) (Option UserPublic)
  get_user_profile user_id =
      request (get_command R (profile_key user_id)) >>= λ cached. lift (parse_cached cached)

  unfoldable pub set_user_profile : Text → UserPublic → ℕ → Exec (Client R) Done
  set_user_profile user_id profile ttl_seconds =
      request (set_command R (profile_key user_id) (D.stringify profile) ttl_seconds)
