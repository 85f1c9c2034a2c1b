-- ===== src/Tokens.antt =====
-- src/services/TokenService.ts: access tokens (JWT) and refresh tokens.
pub mod Splitting
pub mod Access
pub mod Sample
mod Tests
use node_jwt_redis_session_a.Base.{
  Text, codes, ℕ, suc, ◌+◌, ◌-◌, ◌*◌, ◌/◌, ◌≤◌, ◌<◌, ◌≡◌, Bool, true, false, Option, none, some,
  List, [], ◌∷◌, ◌++◌, length, take, drop, ltb, ◌==◌, if◌then◌else◌, Result, ok, err, and_then,
  or_else, or_throw, index_of, some_text,
}
use node_jwt_redis_session_a.Errors.{Failure, app, js_error, unauthorized}
use node_jwt_redis_session_a.Account.{UserRole, user, admin}

abbrev pub access_token_expires_in : ℕ
access_token_expires_in = 15 * 60

abbrev pub refresh_token_validator_bytes : ℕ
refresh_token_validator_bytes = 32

abbrev pub min_secret_length : ℕ
min_secret_length = 32

abbrev pub jwt_algorithm : Text
jwt_algorithm = codes "HS256"

abbrev pub jwt_issuer : Text
jwt_issuer = codes "jwt-redis-session-api"

abbrev pub jwt_audience : Text
jwt_audience = codes "jwt-redis-session-api-clients"

-- `'user' | 'admin'` as the string that it is.
unfoldable pub role_text : UserRole → Text
role_text user = codes "user"
role_text admin = codes "admin"

-- What `sign` is called with; times are in seconds.
pub record SignRequest : Type 0 where
  pub sid : Text
  pub role : Text
  pub subject : Text
  pub secret : Text
  pub expires_in : ℕ
  pub algorithm : Text
  pub issuer : Text
  pub audience : Text

pub record VerifyOptions : Type 0 where
  pub secret : Text
  pub algorithm : Text
  pub issuer : Text
  pub audience : Text

-- The claims that the program reads; any may be missing.
pub record Decoded : Type 0 where
  pub sub : Option Text
  pub sid : Option Text
  pub role : Option Text

-- The package jsonwebtoken: `verify` throws with `none`. A token is accepted until it expires by
-- whoever verifies it with the secret, the algorithm, the issuer and the audience of its signer.
pub record Jwt : Type 0 where
  pub sign : SignRequest → ℕ → Text
  pub verify : Text → VerifyOptions → ℕ → Option Decoded
  pub verify-sign :
      (q : SignRequest) (issued now : ℕ)
      → now < issued + q.expires_in
      → verify
          (sign q issued)
          (record {
            secret = q.secret;
            algorithm = q.algorithm;
            issuer = q.issuer;
            audience = q.audience;
          })
          now
        ≡ some (record { sub = some q.subject; sid = some q.sid; role = some q.role })
  pub verify-expired :
      (q : SignRequest) (o : VerifyOptions) (issued now : ℕ)
      → issued + q.expires_in ≤ now
      → verify (sign q issued) o now ≡ none

-- Node's `createHash('sha256').update(v).digest('hex')`, and `toString('base64url')` of bytes,
-- which is empty only for no bytes.
pub record Crypto : Type 0 where
  pub sha256_hex : Text → Text
  pub base64url : List ℕ → Text
  pub base64url-ne-nil : (b : ℕ) (bytes : List ℕ) → base64url (b ∷ bytes) ≡ [] → ⊥

pub record AccessTokenPayload : Type 0 where
  pub subject : Text
  pub session_id : Text
  -- Cast to UserRole without a check.
  pub role : Text

pub record RefreshTokenPair : Type 0 where
  pub validator : Text
  pub hash : Text

pub record SplitRefreshToken : Type 0 where
  pub session_id : Text
  pub validator : Text

-- `process.env.JWT_SECRET`, checked.
unfoldable pub get_secret : Option Text → Result Text
get_secret none = err (js_error "JWT_SECRET environment variable is not set")
get_secret (some []) = err (js_error "JWT_SECRET environment variable is not set")
get_secret (some (c ∷ s)) =
    if ltb (length (c ∷ s)) min_secret_length
    then err (js_error "JWT_SECRET must be at least 32 characters long")
    else ok (c ∷ s)

abbrev pub sign_request : Text → Text → UserRole → Text → SignRequest
sign_request user_id session_id role secret = record {
  sid = session_id;
  role = role_text role;
  subject = user_id;
  secret = secret;
  expires_in = access_token_expires_in;
  algorithm = jwt_algorithm;
  issuer = jwt_issuer;
  audience = jwt_audience;
}

abbrev pub verify_options : Text → VerifyOptions
verify_options secret = record {
  secret = secret;
  algorithm = jwt_algorithm;
  issuer = jwt_issuer;
  audience = jwt_audience;
}

abbrev pub invalid_token : Failure
invalid_token = app (unauthorized "Invalid token")

abbrev pub payload_of : Option Text → Option Text → Option Text → Option AccessTokenPayload
payload_of (some sub) (some sid) (some role) =
    some (record { subject = sub; session_id = sid; role = role })
payload_of _ _ _ = none

-- The checks of the decoded claims.
unfoldable pub read_claims : Decoded → Result AccessTokenPayload
read_claims d =
    or_else (payload_of (some_text d.sub) (some_text d.sid) (some_text d.role))
      (js_error "Malformed access token payload")

module _ (J : Jwt) where
  -- `now` is the clock of the process, in milliseconds.
  unfoldable pub sign_access_token : Option Text → ℕ → Text → Text → UserRole → Result Text
  sign_access_token env now user_id session_id role =
      and_then (get_secret env)
        λ secret. ok (J.sign (sign_request user_id session_id role secret) (now / 1000))

  -- `verify` with its options, which throws what jsonwebtoken throws.
  abbrev pub decode : Text → ℕ → Text → Result Decoded
  decode token now secret =
      or_else (J.verify token (verify_options secret) (now / 1000)) (js_error "JsonWebTokenError")

  -- Whatever the `try` block throws, a missing secret too, becomes one error.
  unfoldable pub verify_access_token : Option Text → ℕ → Text → Result AccessTokenPayload
  verify_access_token env now token =
      or_throw (and_then (and_then (get_secret env) (decode token now)) read_claims) invalid_token

module _ (K : Crypto) where
  unfoldable pub hash_refresh_validator : Text → Text
  hash_refresh_validator validator = K.sha256_hex validator

  -- `bytes` is what `randomBytes(32)` gave.
  unfoldable pub generate_refresh_token : List ℕ → RefreshTokenPair
  generate_refresh_token bytes = record {
    validator = K.base64url bytes;
    hash = hash_refresh_validator (K.base64url bytes);
  }

abbrev pub split_at : Text → ℕ → SplitRefreshToken
split_at raw i = record { session_id = take i raw; validator = drop (suc i) raw }

-- `indexOf` gives -1, which is not above 0, where there is no separator.
abbrev pub split_found : Text → Option ℕ → Option SplitRefreshToken
split_found raw none = none
split_found raw (some i) =
    if i == 0 then none else if suc i == length raw then none else some (split_at raw i)

unfoldable pub split_refresh_token : Text → Option SplitRefreshToken
split_refresh_token raw = split_found raw (index_of b'.' raw)

-- `${sessionId}.${validator}`, as login and refresh hand it out.
unfoldable pub refresh_token : Text → Text → Text
refresh_token session_id validator = session_id ++ b'.' ∷ validator
