-- ===== src/Tokens/Access.antt =====
-- Access tokens: signing, verifying, expiring, and the secret.
use node_jwt_redis_session_a.Base.{
  Text, ℕ, ◌+◌, ◌/◌, ◌≤◌, ◌<◌, ◌≡◌, ◌≢◌, ◌⊎◌, refl, Option, none, some, [], ◌∷◌, length, ok, err,
  arith, inl, inr, some_text, and_then, or_else-ok, Result-cases, and_then-ok,
}
use node_jwt_redis_session_a.Account.{UserRole, user, admin}
use node_jwt_redis_session_a.Tokens.{
  Jwt, Decoded, AccessTokenPayload, role_text, get_secret, sign_access_token, verify_access_token,
  read_claims, payload_of, sign_request, verify_options, invalid_token, decode,
}

pub get_secret-long : (secret : Text) → 32 ≤ length secret → get_secret (some secret) ≡ ok secret
unfolding get_secret
get_secret-long [] h = absurd (omega arith)
get_secret-long (c ∷ s) h = ground arith

some_text-ne : (s : Text) → s ≢ [] → some_text (some s) ≡ some s
some_text-ne [] h = absurd (h refl)
some_text-ne (c ∷ s) h = refl

role_text-ne : (role : UserRole) → role_text role ≢ []
unfolding role_text
role_text-ne user h = cc
role_text-ne admin h = cc

module _ (J : Jwt) (secret user_id session_id : Text) (role : UserRole) (now later : ℕ)
    (long : 32 ≤ length secret) where
  abbrev pub token : Text
  token = J.sign (sign_request user_id session_id role secret) (now / 1000)

  pub sign_access_token_lem :
      sign_access_token J (some secret) now user_id session_id role ≡ ok token
  unfolding sign_access_token
  sign_access_token_lem = rw (get_secret-long secret long)

  -- A user and a session that are not empty, and a secret of 32 characters or more: an access token
  -- is issued, and for the fifteen minutes that follow (in whole seconds) it is verified as the
  -- user, the session and the role that it was issued for.
  pub verify-sign_access_token :
      user_id ≢ []
      → session_id ≢ []
      → later / 1000 < now / 1000 + 900
      → (sign_access_token J (some secret) now user_id session_id role ≡ ok token)
        × (verify_access_token J (some secret) later token
            ≡ ok (record { subject = user_id; session_id = session_id; role = role_text role }))
  unfolding verify_access_token read_claims
  verify-sign_access_token u s young = (
    sign_access_token_lem,
    rw (get_secret-long secret long) (
        rw
          (J.verify-sign (sign_request user_id session_id role secret) (now / 1000) (later / 1000)
            young)
          (rw (
            some_text-ne user_id u,
            some_text-ne session_id s,
            some_text-ne (role_text role) (role_text-ne role),
          ))),
  )

  -- A secret of 32 characters or more: an access token is issued, and from fifteen minutes later on
  -- (in whole seconds) it is refused as an invalid token.
  pub verify-sign_access_token_expired :
      now / 1000 + 900 ≤ later / 1000
      → (sign_access_token J (some secret) now user_id session_id role ≡ ok token)
        × (verify_access_token J (some secret) later token ≡ err invalid_token)
  unfolding verify_access_token read_claims
  verify-sign_access_token_expired old = (
    sign_access_token_lem,
    rw (get_secret-long secret long) (
        rw (
          J.verify-expired (sign_request user_id session_id role secret) (verify_options secret)
            (now / 1000) (later / 1000) old)),
  )

some_text_sound : (o : Option Text) {s : Text} → some_text o ≡ some s → s ≢ []
some_text_sound none h e = cc
some_text_sound (some []) h e = cc
some_text_sound (some (c ∷ s)) h e = cc

payload_of-some :
    (sub sid role : Option Text) (p : AccessTokenPayload)
    → payload_of sub sid role ≡ some p
    → (sub ≡ some p.subject) × (sid ≡ some p.session_id) × (role ≡ some p.role)
payload_of-some (some sub) (some sid) (some role) p h = ground arith
payload_of-some _ _ _ p h = cc

read_claims_sound :
    (d : Decoded) (p : AccessTokenPayload)
    → read_claims d ≡ ok p
    → (p.subject ≢ []) × (p.session_id ≢ []) × (p.role ≢ [])
unfolding read_claims
read_claims_sound d p h =
    let (u, s, r) = payload_of-some _ _ _ p (or_else-ok _ _ h) in
    (some_text_sound d.sub u, some_text_sound d.sid s, some_text_sound d.role r)

-- Whatever is verified names a user, a session and a role, and every failure, a secret that is
-- missing or too short included, is the same error.
verify_access_token_sound :
    (J : Jwt) (env : Option Text) (now : ℕ) (token : Text)
    → (verify_access_token J env now token ≡ err invalid_token)
      ⊎ ((p : AccessTokenPayload) × (verify_access_token J env now token ≡ ok p)
          × (p.subject ≢ [])
          × (p.session_id ≢ [])
          × (p.role ≢ []))
unfolding verify_access_token
verify_access_token_sound J env now token =
    let claims = and_then (get_secret env) (decode J token now) in
    elim (Result-cases (and_then claims read_claims)) [
      | inr (e, h) ↦ inl (rw h)
      | inl (p, h) ↦
          let (d, decoded, read) = and_then-ok claims read_claims h in
          let (u, s, r) = read_claims_sound d p read in inr (p, rw h, u, s, r)
    ]
