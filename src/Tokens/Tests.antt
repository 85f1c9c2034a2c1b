-- ===== src/Tokens/Tests.antt =====
-- Tokens at concrete values.
use node_jwt_redis_session_a.Base.{
  Text, codes, ℕ, ◌≡◌, ◌≢◌, ◌≤◌, ◌/◌, refl, some, [], ok, err, ◌⊎◌, length, arith,
}
use node_jwt_redis_session_a.Account.{admin}
use node_jwt_redis_session_a.Tokens.{
  refresh_token, split_refresh_token, sign_access_token, verify_access_token, invalid_token,
  role_text,
}
use node_jwt_redis_session_a.Tokens.Sample.{jwt}
use node_jwt_redis_session_a.Tokens.Splitting.{NoDot, split-refresh_token, split_sound}
use node_jwt_redis_session_a.Tokens.Access.{
  token, verify-sign_access_token, verify-sign_access_token_expired,
}

abbrev secret : Text
secret = codes "0123456789abcdef0123456789abcdef"

abbrev uid : Text
uid = codes "u"

abbrev sid : Text
sid = codes "s"

abbrev raw : Text
raw = codes "s.v.w"

split-refresh_token_example :
    split_refresh_token (refresh_token sid (codes "v.w"))
    ≡ some (record { session_id = sid; validator = codes "v.w" })
split-refresh_token_example =
    split-refresh_token sid (codes "v.w") ((λ h. ground arith), tt) (λ h. cc) (λ h. cc)

raw-split : split_refresh_token raw ≡ some (record { session_id = sid; validator = codes "v.w" })
unfolding split_refresh_token node_jwt_redis_session_a.Base.index_of
raw-split = refl

split_sound_example :
    (raw ≡ refresh_token sid (codes "v.w")) × NoDot sid × (sid ≢ []) × (codes "v.w" ≢ [])
split_sound_example =
    split_sound raw (record { session_id = sid; validator = codes "v.w" }) raw-split

verify-sign_access_token_example :
    (sign_access_token jwt (some secret) 5000 uid sid admin
      ≡ ok (token jwt secret uid sid admin 5000 890000 (omega arith)))
    × (verify_access_token jwt
          (some secret)
          890000
          (token jwt secret uid sid admin 5000 890000 (omega arith))
        ≡ ok (record { subject = uid; session_id = sid; role = role_text admin }))
verify-sign_access_token_example =
    verify-sign_access_token jwt secret uid sid admin 5000 890000 (omega arith) (λ h. cc) (λ h. cc)
      (omega arith)

verify-sign_access_token_expired_example :
    (sign_access_token jwt (some secret) 5000 uid sid admin
      ≡ ok (token jwt secret uid sid admin 5000 905000 (omega arith)))
    × (verify_access_token jwt
          (some secret)
          905000
          (token jwt secret uid sid admin 5000 905000 (omega arith))
        ≡ err invalid_token)
verify-sign_access_token_expired_example =
    verify-sign_access_token_expired jwt secret uid sid admin 5000 905000 (omega arith)
      (omega arith)
