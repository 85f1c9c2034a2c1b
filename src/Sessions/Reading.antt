-- ===== src/Sessions/Reading.antt =====
-- SessionRepository.get.
use node_jwt_redis_session_a.Base.{
  Text, ◌≡◌, refl, sym, ap, ◌∙◌, Option, none, some, [], ◌∷◌, ok, lift, bind-inv, bind-ok,
  bind-lift-state, and_then-ok, or_else, or_else-ok, inl, inr, arith, delivered,
}
use node_jwt_redis_session_a.Redis.{Redis}
use node_jwt_redis_session_a.Redis.Client.{
  Client, request, request-store, request-clock, request-faults, later_faults, request-ok,
  request-delivered, next_fault,
}
use node_jwt_redis_session_a.Sessions.{
  Codec, SessionRecord, get, get_command, parse_stored, syntax_error, session_key,
}
use node_jwt_redis_session_a.Sessions.Views.{raw_at, Holds, Lacks}

module _ (R : Redis) (C : Codec) where
  parse_stored-some :
      (o : Option Text) (r : SessionRecord)
      → parse_stored R C o ≡ ok (some r)
      → (raw : Text) × (o ≡ some raw) × (C.parse raw ≡ some r)
  parse_stored-some none r h = absurd (cc)
  parse_stored-some (some []) r h = absurd (cc)
  parse_stored-some (some (c ∷ s)) r h =
      let (r', parsed, same) =
        and_then-ok (or_else (C.parse (c ∷ s)) syntax_error) (λ r. ok (some r)) h in
      (c ∷ s, refl, or_else-ok (C.parse (c ∷ s)) syntax_error parsed ∙ cc (same))

  parse_stored-parsed :
      (raw : Text) (r : SessionRecord)
      → C.parse raw ≡ some r
      → parse_stored R C (some raw) ≡ ok (some r)
  parse_stored-parsed [] r h = absurd (cc (C.parse-nil, h))
  parse_stored-parsed (c ∷ s) r h = ground (arith, h)

  module _ (id : Text) (c : Client R) where
    get-state : (get R C id c).1 ≡ (request (get_command R (session_key id)) c).1
    unfolding get
    get-state = bind-lift-state (request (get_command R (session_key id))) (parse_stored R C) c

    -- Reading changes nothing, whatever the faults.
    pub get-store : (get R C id c).1.store ≡ c.store
    get-store =
        ap (λ (x : Client R). x.store) get-state
        ∙ elim (request-store (get_command R (session_key id)) c) [
          | inl same ↦ same
          | inr same ↦ same
        ]

    pub get-clock : (get R C id c).1.clock ≡ c.clock
    get-clock =
        ap (λ (x : Client R). x.clock) get-state ∙ request-clock (get_command R (session_key id)) c

    pub get-faults : (get R C id c).1.faults ≡ later_faults c.faults
    get-faults =
        ap (λ (x : Client R). x.faults) get-state
        ∙ request-faults (get_command R (session_key id)) c

    -- A session that is read is what the store holds under its key.
    pub get-some :
        (r : SessionRecord)
        → (get R C id c).0 ≡ ok (some r)
        → (raw : Text) × (raw_at R c.store c.clock id ≡ some raw) × (C.parse raw ≡ some r)
    unfolding get
    get-some r h =
        let (stored, replied, rest) =
          bind-inv (request (get_command R (session_key id))) (λ x. lift (parse_stored R C x)) c
            h in
        let (raw, e, parsed) = parse_stored-some stored r (sym (ap (λ x. x.0) rest) ∙ h) in
        let (same, kept) = request-ok (get_command R (session_key id)) c replied in
        (raw, cc (same, e), parsed)

    -- With a reply from Redis, a session that Redis holds is read as it is.
    pub get-Holds :
        (r : SessionRecord)
        → next_fault c.faults ≡ delivered
        → Holds R C c.store c.clock id r
        → (get R C id c).0 ≡ ok (some r)
    unfolding get
    get-Holds r f h =
        ap (λ x. x.0)
          (bind-ok (request (get_command R (session_key id))) (λ x. lift (parse_stored R C x)) c
            (request-delivered (get_command R (session_key id)) c f))
        ∙ ap (parse_stored R C) h.stored
        ∙ parse_stored-parsed h.raw r h.parsed

    pub get-Lacks :
        next_fault c.faults ≡ delivered → Lacks R c.store c.clock id → (get R C id c).0 ≡ ok none
    unfolding get
    get-Lacks f h =
        ap (λ x. x.0)
          (bind-ok (request (get_command R (session_key id))) (λ x. lift (parse_stored R C x)) c
            (request-delivered (get_command R (session_key id)) c f))
        ∙ ap (parse_stored R C) h
