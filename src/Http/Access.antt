-- ===== src/Http/Access.antt =====
-- Who is let through by the middleware.
use node_jwt_redis_session_a.Base.{
  Text, ◌≡◌, refl, sym, ap, ◌∙◌, Option, none, some, [], ◌∷◌, ◌===◌, ===_iff, ok, lift, bind-inv,
  Bool-cases, inl, inr, arith, some_text,
}
use node_jwt_redis_session_a.Sessions
use node_jwt_redis_session_a.Sessions.{SessionRecord}
use node_jwt_redis_session_a.Sessions.Views.{raw_at}
use node_jwt_redis_session_a.Sessions.Reading.{get-some}
use node_jwt_redis_session_a.Tokens.{AccessTokenPayload, verify_access_token}
use node_jwt_redis_session_a.Platform.{Platform, World, on_redis}
use node_jwt_redis_session_a.Http.{
  Request, split_spaces, bearer_token, authentication, authenticate_header, authenticate_token,
  find_session, check_session,
}

module _ (F : Platform) where
  check_session-ok :
      (caller p : AccessTokenPayload) (o : Option SessionRecord)
      → check_session F caller o ≡ ok p
      → (p ≡ caller)
        × (session : SessionRecord) × (o ≡ some session)
        × (session.user_id ≡ caller.subject)
  unfolding check_session
  check_session-ok caller p none h = absurd (cc)
  check_session-ok caller p (some session) h =
      elim (Bool-cases (session.user_id === caller.subject)) [
        | inl same ↦ (ground (arith, rw same at h), session, refl, (===_iff _ _).0 same)
        | inr other ↦ absurd (cc (rw other at h))
      ]

  -- What stands behind an authenticated request.
  pub record Authenticated (w : World F) (request : Request) (p : AccessTokenPayload) : Type 0 where
    pub header : Text
    pub token : Text
    pub session : SessionRecord
    pub text : Text
    pub presented : request.authorization ≡ some header
    pub bearer : bearer_token (split_spaces header) ≡ some token
    pub verified : verify_access_token F.jwt w.secret w.now token ≡ ok p
    pub stored : raw_at F.redis w.client.store w.client.clock p.session_id ≡ some text
    pub parsed : F.sessions.parse text ≡ some session
    pub owner : session.user_id ≡ p.subject

  find_session-ok :
      (caller p : AccessTokenPayload) (w : World F)
      → (find_session F caller w).0 ≡ ok p
      → (p ≡ caller)
        × (session : SessionRecord) × (text : Text) × (raw_at F.redis w.client.store w.client.clock
              caller.session_id
            ≡ some text)
        × (F.sessions.parse text ≡ some session)
        × (session.user_id ≡ caller.subject)
  unfolding find_session on_redis
  find_session-ok caller p w h =
      let read = on_redis (Sessions.get F.redis F.sessions caller.session_id) in
      let (o, replied, rest) = bind-inv read (λ o. lift (check_session F caller o)) w h in
      let (same, session, is, owner) = check_session-ok caller p o (sym (ap (λ x. x.0) rest) ∙ h) in
      let (text, stored, parsed) =
        get-some F.redis F.sessions caller.session_id w.client session (replied ∙ ap ok is) in
      (same, session, text, stored, parsed, owner)

  authenticate_token-ok :
      (request : Request) (header : Text) (o : Option Text) (p : AccessTokenPayload) (w : World F)
      → request.authorization ≡ some header
      → bearer_token (split_spaces header) ≡ o
      → (authenticate_token F o w).0 ≡ ok p
      → Authenticated w request p
  unfolding authenticate_token
  authenticate_token-ok request header none p w e b h = absurd (cc)
  authenticate_token-ok request header (some token) p w e b h =
      let (caller, verified, rest) =
        bind-inv (lift (verify_access_token F.jwt w.secret w.now token)) (find_session F) w h in
      let (same, session, text, stored, parsed, owner) =
        find_session-ok caller p w (sym (ap (λ x. x.0) rest) ∙ h) in
      record {
        header = header;
        token = token;
        session = session;
        text = text;
        presented = e;
        bearer = b;
        verified = verified ∙ ap ok (sym same);
        stored =
            ap
              (λ (q : AccessTokenPayload).
                raw_at F.redis w.client.store w.client.clock q.session_id)
              same
            ∙ stored;
        parsed = parsed;
        owner = owner ∙ ap (λ (q : AccessTokenPayload). q.subject) (sym same);
      }

  -- A request that is authenticated, whatever faults Redis has: it presented a bearer token that
  -- verifies as of now, and Redis holds the session that the token names, which belongs to the user
  -- that the token names.
  pub authentication-ok :
      (request : Request) (w : World F) (p : AccessTokenPayload)
      → (authentication F request w).0 ≡ ok p
      → Authenticated w request p
  unfolding authentication authenticate_header
  authentication-ok request w p h = by_header request.authorization refl h
    where
      by_header :
          (o : Option Text)
          → request.authorization ≡ o
          → (authenticate_header F (some_text o) w).0 ≡ ok p
          → Authenticated w request p
      by_header none e h = absurd (cc)
      by_header (some []) e h = absurd (cc)
      by_header (some (c ∷ s)) e h = authenticate_token-ok request (c ∷ s) _ p w e refl h
