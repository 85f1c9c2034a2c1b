-- ===== src/Guards/Tests.antt =====
-- The guards at concrete values.
use node_jwt_redis_session_a.Base.{
  Text, codes, ◌≡◌, ◌≢◌, ◌⊎◌, refl, ap, none, some, [], ◌∷◌, ◌++◌, arith, some_text, index_of,
}
use node_jwt_redis_session_a.Tokens.{SplitRefreshToken, split_refresh_token}
use node_jwt_redis_session_a.Tokens.Sample.{crypto}
use node_jwt_redis_session_a.Validation.{text}
use node_jwt_redis_session_a.Guards.{
  metrics_guard, presented, production, next, refresh_token_session_key,
}
use node_jwt_redis_session_a.Guards.Metrics.{metrics_guard-next}
use node_jwt_redis_session_a.Guards.Keying.{refresh_token_session_key-split}

abbrev rest_of : Text → Text
rest_of [] = []
rest_of (c ∷ s) = s

-- The sample's digests are apart.
crypto_apart : (a b : Text) → crypto.sha256_hex a ≡ crypto.sha256_hex b → a ≡ b
crypto_apart a b h = ap rest_of h

guard_passes :
    metrics_guard crypto (some (codes "k")) (some production) (some (codes "Bearer k")) ≡ next
unfolding metrics_guard
guard_passes = refl

metrics_guard-next_example :
    ((some_text (some (codes "k")) ≡ none) × (some production ≢ some production))
    ⊎ ((t : Text) × (some_text (some (codes "k")) ≡ some t)
        × (presented (some (codes "Bearer k")) ≡ codes "Bearer " ++ t))
metrics_guard-next_example =
    metrics_guard-next crypto crypto_apart (some (codes "k")) (some production)
      (some (codes "Bearer k")) guard_passes

abbrev split : SplitRefreshToken
split = record { session_id = codes "s"; validator = codes "v" }

raw_splits : split_refresh_token (codes "s.v") ≡ some split
unfolding split_refresh_token index_of
raw_splits = refl

refresh_token_session_key-split_example :
    refresh_token_session_key (some (text (codes "s.v"))) (codes "10.0.0.1")
    ≡ codes "session:" ++ codes "s"
refresh_token_session_key-split_example =
    refresh_token_session_key-split (codes "s.v") (codes "10.0.0.1") split raw_splits (omega arith)
