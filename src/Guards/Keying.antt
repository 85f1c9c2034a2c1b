-- ===== src/Guards/Keying.antt =====
-- The key of the refresh limiter, for a refresh token.
use node_jwt_redis_session_a.Base.{
  Text, codes, ◌≤◌, ◌<◌, ◌≡◌, ap, ◌∙◌, some, ◌∷◌, ◌++◌, length, index_of, lt→ltb, le→leb,
  length-pos, take-length_append,
}
use node_jwt_redis_session_a.Validation.{text}
use node_jwt_redis_session_a.Tokens.{SplitRefreshToken, split_refresh_token, refresh_token}
use node_jwt_redis_session_a.Tokens.Splitting.{split_sound, index_of-append, NoDot}
use node_jwt_redis_session_a.Guards.{refresh_token_session_key, key_at}

key_at-append :
    (id v ip : Text)
    → NoDot id
    → 0 < length id
    → length id ≤ 64
    → key_at (id ++ b'.' ∷ v) ip (index_of b'.' (id ++ b'.' ∷ v)) ≡ codes "session:" ++ id
key_at-append id v ip free pos short = rw (index_of-append id v free) (
    rw (lt→ltb 0 (length id) pos, le→leb (length id) 64 short)
      (ap (λ s. codes "session:" ++ s) (take-length_append id (b'.' ∷ v))))

-- A refresh token that AuthService.refresh would split, with a session identifier of 64 characters
-- at most, is counted by the refresh limiter under the session that it names, whatever the client's
-- address.
pub refresh_token_session_key-split :
    (raw ip : Text) (split : SplitRefreshToken)
    → split_refresh_token raw ≡ some split
    → length split.session_id ≤ 64
    → refresh_token_session_key (some (text raw)) ip ≡ codes "session:" ++ split.session_id
unfolding refresh_token_session_key refresh_token
refresh_token_session_key-split raw ip split h short =
    let (whole, free, ne_id, ne_v) = split_sound raw split h in
    ap (λ s. key_at s ip (index_of b'.' s)) whole
    ∙ key_at-append split.session_id split.validator ip free (length-pos split.session_id ne_id)
        short
