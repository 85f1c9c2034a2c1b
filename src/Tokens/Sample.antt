-- ===== src/Tokens/Sample.antt =====
-- Packages that meet the laws of the interfaces: tokens that carry their fields in clear.
use node_jwt_redis_session_a.Base.{
  Text, ℕ, ◌+◌, ◌<◌, ◌≤◌, ◌≡◌, refl, ap, ◌∙◌, ◌&&◌, Option, none, some, List, [], ◌∷◌, ltb, ◌===◌,
  ===-refl, if◌then◌else◌, arith, read_fields, join_fields, read_fields-join_fields,
}
use node_jwt_redis_session_a.Tokens.{Jwt, Crypto, SignRequest, VerifyOptions, Decoded}

abbrev token_fields : SignRequest → ℕ → List Text
token_fields q issued = q.subject ∷ q.sid ∷ q.role ∷ q.secret ∷ ((issued + q.expires_in) ∷ []) ∷ []

abbrev decoded : Text → Text → Text → Decoded
decoded subject sid role = record { sub = some subject; sid = some sid; role = some role }

abbrev check_fields : VerifyOptions → ℕ → List Text → Option Decoded
check_fields o now (subject ∷ sid ∷ role ∷ secret ∷ (expires ∷ []) ∷ []) =
    if ltb now expires && secret === o.secret then some (decoded subject sid role) else none
check_fields o now _ = none

abbrev sign : SignRequest → ℕ → Text
sign q issued = join_fields (token_fields q issued)

abbrev verify : Text → VerifyOptions → ℕ → Option Decoded
verify token o now = check_fields o now (read_fields 5 token)

pub verify-sign_lem :
    (q : SignRequest) (o : VerifyOptions) (issued now : ℕ)
    → o.secret ≡ q.secret
    → now < issued + q.expires_in
    → verify (sign q issued) o now ≡ some (decoded q.subject q.sid q.role)
verify-sign_lem q o issued now same h =
    ap (check_fields o now) (read_fields-join_fields (token_fields q issued))
    ∙ rw same (ground (arith, ===-refl q.secret))

pub verify-expired_lem :
    (q : SignRequest) (o : VerifyOptions) (issued now : ℕ)
    → issued + q.expires_in ≤ now
    → verify (sign q issued) o now ≡ none
verify-expired_lem q o issued now h =
    ap (check_fields o now) (read_fields-join_fields (token_fields q issued)) ∙ ground arith

abbrev pub jwt : Jwt
jwt = record {
  sign = sign;
  verify = verify;
  verify-sign = λ q issued now h.
      verify-sign_lem q
        (record {
          secret = q.secret;
          algorithm = q.algorithm;
          issuer = q.issuer;
          audience = q.audience;
        })
        issued now refl h;
  verify-expired = verify-expired_lem;
}

pub cons-ne-nil : (b : ℕ) (bytes : Text) → b ∷ bytes ≡ [] → ⊥
cons-ne-nil b bytes h = cc

abbrev pub crypto : Crypto
crypto = record { sha256_hex = λ s. b'h' ∷ s; base64url = λ s. s; base64url-ne-nil = cons-ne-nil }
