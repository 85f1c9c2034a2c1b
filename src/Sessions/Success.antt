-- ===== src/Sessions/Success.antt =====
-- `create`: what a reported success guarantees.
use node_jwt_redis_session_a.Base.{
  Text, zero, suc, ℕ, ◌+◌, ◌-◌, ◌*◌, ◌<◌, min, ◌≡◌, refl, sym, ap, ◌∙◌, subst, true, Option, none,
  some, ok, ===-refl, arith,
}
use node_jwt_redis_session_a.Redis.{
  Redis, has, is_set, deadline_of, Entry, expire_entry, str, text_of,
}
use node_jwt_redis_session_a.Redis.Client.{Client}
use node_jwt_redis_session_a.Sessions.Keys.{user_sessions_key-ne-session_key}
use node_jwt_redis_session_a.Sessions.Views.{
  Holds, Holds-of_raw, index_at, index_at-set_ex, index_at-expire, raw_at,
}
use node_jwt_redis_session_a.Sessions.{
  Codec, SessionRecord, session_key, user_sessions_key, create, set_command, ceil_seconds,
  session_idle_ttl_seconds, session_absolute_ttl_seconds,
}
use node_jwt_redis_session_a.Sessions.Transactions.{exec_or_throw-Ran}

has-expire_entry : (d : ℕ) (o : Option Entry) (x : Text) → has (expire_entry d o) x ≡ has o x
has-expire_entry d none x = refl
has-expire_entry d (some e) x = refl

deadline-expire_entry :
    (d : ℕ) (o : Option Entry) (x : Text) → has o x ≡ true → deadline_of (expire_entry d o) ≡ some d
deadline-expire_entry d none x h = absurd (cc)
deadline-expire_entry d (some e) x h = refl

set_command-ok :
    (R : Redis) (key value : Text) (n t : ℕ) (s : R.Store)
    → (set_command R key value n t s).0 ≡ ok tt
    → (0 < n) × ((set_command R key value n t s).1 ≡ R.set_ex key value n t s)
set_command-ok R key value zero t s h = absurd (cc)
set_command-ok R key value (suc n) t s h = (omega arith, refl)

-- The store after a session was created, and what it shows.
abbrev Created : (R : Redis) → Codec → Text → SessionRecord → ℕ → ℕ → R.Store → Type 0
Created R C id r n t s' =
    Holds R C s' t id r
    × (has (index_at R s' t r.user_id) id ≡ true)
    × (deadline_of (index_at R s' t r.user_id) ≡ some (t + session_absolute_ttl_seconds * 1000))
    × (deadline_of (R.live s' t (session_key id)) ≡ some (t + n * 1000))

module _ (R : Redis) (C : Codec) (id : Text) (r : SessionRecord) (n t : ℕ) (s : R.Store) where
  abbrev s_set : R.Store
  s_set = R.set_ex (session_key id) (C.stringify r) n t s

  abbrev s_sadd : R.Store
  s_sadd = R.sadd (user_sessions_key r.user_id) id t s_set

  abbrev s_expire : R.Store
  s_expire = R.expire (user_sessions_key r.user_id) session_absolute_ttl_seconds t s_sadd

  module _ (pos : 0 < n) where
    session_after :
        R.live s_expire t (session_key id)
        ≡ some (record { value = str (C.stringify r); deadline = some (t + n * 1000) })
    session_after =
        R.live-expire (user_sessions_key r.user_id) session_absolute_ttl_seconds t s_sadd
          (session_key id) (omega arith)
        ∙ rw (user_sessions_key-ne-session_key r.user_id id) (
            R.live-sadd (user_sessions_key r.user_id) id t s_set (session_key id)
              (user_sessions_key-ne-session_key r.user_id id)
            ∙ R.live-set_ex (session_key id) (C.stringify r) n t s (session_key id) pos
            ∙ rw (===-refl (session_key id)))

  module _ (pos : 0 < n) (set : is_set (index_at R s t r.user_id) ≡ true) where
    indexed : has (index_at R s_sadd t r.user_id) id ≡ true
    indexed =
        R.has-sadd (user_sessions_key r.user_id) id t s_set id
          (rw (index_at-set_ex R id (C.stringify r) n t s r.user_id pos) set)
        ∙ rw (===-refl id)

    index_after :
        index_at R s_expire t r.user_id
        ≡ expire_entry (t + session_absolute_ttl_seconds * 1000) (index_at R s_sadd t r.user_id)
    index_after =
        index_at-expire R r.user_id session_absolute_ttl_seconds t s_sadd r.user_id (omega arith)
        ∙ rw (===-refl r.user_id)

    created : Created R C id r n t s_expire
    created = (
      Holds-of_raw R C s_expire t id r (C.stringify r) (ap text_of (session_after pos))
          (C.cjson_decode-stringify r) (C.parse-stringify r),
      ap (λ o. has o id) index_after
          ∙ has-expire_entry _ (index_at R s_sadd t r.user_id) id
          ∙ indexed,
      ap deadline_of index_after
          ∙ deadline-expire_entry _ (index_at R s_sadd t r.user_id) id indexed,
      ap deadline_of (session_after pos),
    )

module _ (R : Redis) (C : Codec) where
  -- A session that `create` reports as stored, whatever faults there were, where the user's index
  -- was a set or missing: it is there, in a form that Node and Lua read; its identifier is in the
  -- index, which from then on lasts for the absolute lifetime; and its key lasts for the idle
  -- lifetime or what is left of the absolute lifetime in whole seconds, whichever is shorter.
  pub create-ok :
      (date_now : ℕ) (id : Text) (r : SessionRecord) (c : Client R)
      → is_set (index_at R c.store c.clock r.user_id) ≡ true
      → (create R C date_now id r c).0 ≡ ok tt
      → let s = (create R C date_now id r c).1.store in
        Holds R C s c.clock id r
        × (has (index_at R s c.clock r.user_id) id ≡ true)
        × (deadline_of (index_at R s c.clock r.user_id)
            ≡ some (c.clock + session_absolute_ttl_seconds * 1000))
        × (deadline_of (R.live s c.clock (session_key id))
            ≡ some (
                c.clock
                + min session_idle_ttl_seconds (ceil_seconds (r.absolute_expires_at - date_now))
                  * 1000))
  unfolding create
  create-ok date_now id r c set h =
      let n = min session_idle_ttl_seconds (ceil_seconds (r.absolute_expires_at - date_now)) in
      let ran = exec_or_throw-Ran R _ c h in
      let (pos, stored) =
        set_command-ok R (session_key id) (C.stringify r) n c.clock c.store ran.0 in
      let t = c.clock in
      let s = c.store in
      let same =
        ran.1.1.1
        ∙ ap
            (λ x.
              R.expire (user_sessions_key r.user_id) session_absolute_ttl_seconds t
                (R.sadd (user_sessions_key r.user_id) id t x))
            stored in
      subst (λ s'. Created R C id r n t s') (sym same) (created R C id r n t s pos set)

  -- The session alone, whatever the index was.
  pub create-Holds :
      (date_now : ℕ) (id : Text) (r : SessionRecord) (c : Client R)
      → (create R C date_now id r c).0 ≡ ok tt
      → Holds R C (create R C date_now id r c).1.store c.clock id r
  unfolding create
  create-Holds date_now id r c h =
      let n = min session_idle_ttl_seconds (ceil_seconds (r.absolute_expires_at - date_now)) in
      let ran = exec_or_throw-Ran R _ c h in
      let t = c.clock in
      let s = c.store in
      let (pos, stored) = set_command-ok R (session_key id) (C.stringify r) n t s ran.0 in
      let same =
        ran.1.1.1
        ∙ ap
            (λ x.
              R.expire (user_sessions_key r.user_id) session_absolute_ttl_seconds t
                (R.sadd (user_sessions_key r.user_id) id t x))
            stored in
      Holds-of_raw R C _ t id r (C.stringify r)
        (ap (λ s'. raw_at R s' t id) same ∙ ap text_of (session_after R C id r n t s pos))
        (C.cjson_decode-stringify r) (C.parse-stringify r)
