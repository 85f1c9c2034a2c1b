-- ===== src/Profiles/Reading.antt =====
-- UserService.getUserProfile, with and without the cache.
use node_jwt_redis_session_a.Base.{
  Text, ◌≡◌, ◌⊎◌, refl, sym, ap, ◌∙◌, Option, none, some, [], ◌∷◌, Result, ok, err, lift, bind-inv,
  bind-ok, and_then-ok, or_else-ok, or_else, Result-cases, inl, inr, next_fault, delivered, ℕ,
}
use node_jwt_redis_session_a.Errors.{js_error}
use node_jwt_redis_session_a.Account.{UserRecord, UserPublic, to_public_user}
use node_jwt_redis_session_a.Postgres.{Pool}
use node_jwt_redis_session_a.Redis.{Redis, text_of}
use node_jwt_redis_session_a.Redis.Client.{Client, request, request-ok}
use node_jwt_redis_session_a.Sessions.{get_command}
use node_jwt_redis_session_a.Cache.{
  ProfileCodec, profile_key, parse_cached, get_user_profile, set_user_profile, default_ttl_seconds,
}
use node_jwt_redis_session_a.Users
use node_jwt_redis_session_a.Users.{first_row, has_id, select}
use node_jwt_redis_session_a.Users.Queries.{query-delivered}
use node_jwt_redis_session_a.Platform.{Platform, World, on_redis, on_postgres, write_log}
use node_jwt_redis_session_a.Profiles.{
  user_not_found, read_cached_profile, found_profile, cached_or_found, get_user_profile_of,
}

module _ (R : Redis) (D : ProfileCodec) where
  -- The text that Redis holds for a profile reads as `p`.
  abbrev pub Cached : R.Store → ℕ → Text → UserPublic → Type 0
  Cached s t uid p =
      (text : Text) × (text_of (R.live s t (profile_key uid)) ≡ some text) × (D.parse text ≡ some p)

  parse_cached-some :
      (o : Option Text) (p : UserPublic)
      → parse_cached R D o ≡ ok (some p)
      → (text : Text) × (o ≡ some text) × (D.parse text ≡ some p)
  parse_cached-some none p h = absurd (cc)
  parse_cached-some (some []) p h = absurd (cc)
  parse_cached-some (some (c ∷ s)) p h =
      let e = js_error "SyntaxError: Unexpected token in JSON" in
      let (q, parsed, same) = and_then-ok (or_else (D.parse (c ∷ s)) e) (λ q. ok (some q)) h in
      (c ∷ s, refl, or_else-ok (D.parse (c ∷ s)) e parsed ∙ cc (same))

  get_user_profile-some :
      (uid : Text) (c : Client R) (p : UserPublic)
      → (get_user_profile R D uid c).0 ≡ ok (some p)
      → Cached c.store c.clock uid p
  unfolding get_user_profile
  get_user_profile-some uid c p h =
      let ask = request (get_command R (profile_key uid)) in
      let (stored, replied, rest) = bind-inv ask (λ o. lift (parse_cached R D o)) c h in
      let (text, e, parsed) = parse_cached-some stored p (sym (ap (λ x. x.0) rest) ∙ h) in
      let (same, kept) = request-ok (get_command R (profile_key uid)) c replied in
      (text, cc (same, e), parsed)

module _ (F : Platform) (uid : Text) where
  -- What the table says of the user.
  abbrev pub from_table : Option UserRecord → Result UserPublic
  from_table none = err user_not_found
  from_table (some u) = ok (to_public_user u)

  -- The cache gives nothing, or a profile that Redis holds; it never fails.
  read_cached_profile-cases :
      (w : World F)
      → (o : Option UserPublic) × (w' : World F) × (read_cached_profile F uid w ≡ (ok o, w'))
        × (w'.pool ≡ w.pool)
        × ((o ≡ none)
            ⊎ ((p : UserPublic) × (o ≡ some p)
                × Cached F.redis F.profiles w.client.store w.client.clock uid p))
  unfolding read_cached_profile on_redis write_log
  read_cached_profile-cases w =
      let read = get_user_profile F.redis F.profiles uid w.client in
      let w1 : World F = record w { client = read.1 } in
      elim (Result-cases read.0) [
        | inl (none, e) ↦ (none, w1, rw e, refl, inl refl)
        | inl (some p, e) ↦ (
          some p,
          w1,
          rw e,
          refl,
          inr (p, refl, get_user_profile-some F.redis F.profiles uid w.client p e),
        )
        | inr (e', e) ↦ (
          none,
          record w1 { log = "Failed to read profile cache, falling back to PostgreSQL" ∷ w.log },
          rw e,
          refl,
          inl refl,
        )
      ]

  found_profile-result :
      (o : Option UserRecord) (w : World F) → (found_profile F uid o w).0 ≡ from_table o
  unfolding found_profile on_redis write_log
  found_profile-result none w = refl
  found_profile-result (some u) w =
      elim (Result-cases
        (set_user_profile F.redis F.profiles uid (to_public_user u) default_ttl_seconds
          w.client).0) [ inl (done, e) ↦ rw e | inr (e', e) ↦ rw e ]

  found-result :
      (w : World F)
      → next_fault w.pool.faults ≡ delivered
      → (cached_or_found F uid none w).0
        ≡ from_table (first_row (has_id F.postgres uid) (F.postgres.users w.pool.db))
  unfolding cached_or_found on_postgres Users.find_by_id
  found-result w f =
      let find = on_postgres (Users.find_by_id F.postgres uid) in
      let row = first_row (has_id F.postgres uid) (F.postgres.users w.pool.db) in
      let e = query-delivered (select F.postgres (first_row (has_id F.postgres uid))) w.pool f in
      ap (λ x. x.0) (bind-ok find (found_profile F uid) w (λ i. (e i, (find w).1)))
      ∙ found_profile-result row (find w).1

  hit : (p : UserPublic) (w : World F) → (cached_or_found F uid (some p) w).0 ≡ ok p
  unfolding cached_or_found
  hit p w = refl

  -- With a reply from PostgreSQL, whatever faults Redis has, a profile is answered: the one that
  -- Redis held in the cache, or what the table says, which is a 404 where it has no such user.
  -- Failures of the cache are never passed on.
  pub get_user_profile_of-result :
      (w : World F)
      → next_fault w.pool.faults ≡ delivered
      → ((get_user_profile_of F uid w).0
          ≡ from_table (first_row (has_id F.postgres uid) (F.postgres.users w.pool.db)))
        ⊎ ((p : UserPublic) × ((get_user_profile_of F uid w).0 ≡ ok p)
            × Cached F.redis F.profiles w.client.store w.client.clock uid p)
  unfolding get_user_profile_of
  get_user_profile_of-result w f =
      let (o, w', read, same, either) = read_cached_profile-cases w in
      let rest =
        ap (λ x. x.0) (bind-ok (read_cached_profile F uid) (cached_or_found F uid) w read) in
      elim either [
        | inl missed ↦ inl (
            rest
            ∙ ap (λ o. (cached_or_found F uid o w').0) missed
            ∙ found-result w' (ap (λ (x : Pool F.postgres). next_fault x.faults) same ∙ f)
            ∙ ap
                (λ (x : Pool F.postgres).
                  from_table (first_row (has_id F.postgres uid) (F.postgres.users x.db)))
                same)
        | inr (p, is, held) ↦
            inr (p, rest ∙ ap (λ o. (cached_or_found F uid o w').0) is ∙ hit p w', held)
      ]
