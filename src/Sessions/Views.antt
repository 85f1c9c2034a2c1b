-- ===== src/Sessions/Views.antt =====
-- What the sessions' keys and the users' indices show, and what each Redis command does to them.
use node_jwt_redis_session_a.Base.{
  Text, ℕ, ◌+◌, ◌*◌, ◌≤◌, ◌<◌, ◌≡◌, ◌⊎◌, ap, ◌∙◌, false, Option, none, some, ◌===◌, if◌then◌else◌,
  arith,
}
use node_jwt_redis_session_a.Redis.{Redis, Entry, text_of, expire_entry}
use node_jwt_redis_session_a.Sessions.{Codec, SessionRecord, session_key, user_sessions_key}
use node_jwt_redis_session_a.Sessions.Keys.{
  session_key-===, user_sessions_key-===, session_key-ne-user_sessions_key,
  user_sessions_key-ne-session_key,
}

module _ (R : Redis) where
  -- The text that Redis holds under a session's key.
  abbrev pub raw_at : R.Store → ℕ → Text → Option Text
  raw_at s t id = text_of (R.live s t (session_key id))

  pub raw_at-set_ex :
      (id v : Text) (n t : ℕ) (s : R.Store) (j : Text)
      → 0 < n
      → raw_at (R.set_ex (session_key id) v n t s) t j ≡ (if id === j then some v else raw_at s t j)
  raw_at-set_ex id v n t s j h =
      rw (R.live-set_ex (session_key id) v n t s (session_key j) h)
        (rw (session_key-=== id j) (ground arith))

  pub raw_at-del :
      (id : Text) (t : ℕ) (s : R.Store) (j : Text)
      → raw_at (R.del (session_key id) t s) t j ≡ (if id === j then none else raw_at s t j)
  raw_at-del id t s j =
      rw (R.live-del (session_key id) t s (session_key j))
        (rw (session_key-=== id j) (ground arith))

  pub raw_at-del_index :
      (user_id : Text) (t : ℕ) (s : R.Store) (j : Text)
      → raw_at (R.del (user_sessions_key user_id) t s) t j ≡ raw_at s t j
  raw_at-del_index user_id t s j =
      rw (R.live-del (user_sessions_key user_id) t s (session_key j))
        (rw (user_sessions_key-ne-session_key user_id j))

  pub raw_at-sadd :
      (user_id m : Text) (t : ℕ) (s : R.Store) (j : Text)
      → raw_at (R.sadd (user_sessions_key user_id) m t s) t j ≡ raw_at s t j
  raw_at-sadd user_id m t s j =
      ap text_of (R.live-sadd _ m t s (session_key j) (user_sessions_key-ne-session_key user_id j))

  pub raw_at-srem :
      (user_id m : Text) (t : ℕ) (s : R.Store) (j : Text)
      → raw_at (R.srem (user_sessions_key user_id) m t s) t j ≡ raw_at s t j
  raw_at-srem user_id m t s j =
      ap text_of (R.live-srem _ m t s (session_key j) (user_sessions_key-ne-session_key user_id j))

  pub raw_at-expire :
      (user_id : Text) (n t : ℕ) (s : R.Store) (j : Text)
      → 0 < n
      → raw_at (R.expire (user_sessions_key user_id) n t s) t j ≡ raw_at s t j
  raw_at-expire user_id n t s j h =
      rw (R.live-expire (user_sessions_key user_id) n t s (session_key j) h)
        (rw (user_sessions_key-ne-session_key user_id j))

  -- No session under `id`.
  abbrev pub Lacks : R.Store → ℕ → Text → Type 0
  Lacks s t id = raw_at s t id ≡ none

  -- The index of a user's sessions.
  abbrev pub index_at : R.Store → ℕ → Text → Option Entry
  index_at s t user_id = R.live s t (user_sessions_key user_id)

  pub index_at-set_ex :
      (id v : Text) (n t : ℕ) (s : R.Store) (user_id : Text)
      → 0 < n
      → index_at (R.set_ex (session_key id) v n t s) t user_id ≡ index_at s t user_id
  index_at-set_ex id v n t s user_id h =
      R.live-set_ex (session_key id) v n t s (user_sessions_key user_id) h
      ∙ rw (session_key-ne-user_sessions_key id user_id)

  pub index_at-del :
      (id : Text) (t : ℕ) (s : R.Store) (user_id : Text)
      → index_at (R.del (session_key id) t s) t user_id ≡ index_at s t user_id
  index_at-del id t s user_id =
      R.live-del (session_key id) t s (user_sessions_key user_id)
      ∙ rw (session_key-ne-user_sessions_key id user_id)

  pub index_at-del_index :
      (other : Text) (t : ℕ) (s : R.Store) (user_id : Text)
      → index_at (R.del (user_sessions_key other) t s) t user_id
        ≡ (if other === user_id then none else index_at s t user_id)
  index_at-del_index other t s user_id =
      R.live-del (user_sessions_key other) t s (user_sessions_key user_id)
      ∙ rw (user_sessions_key-=== other user_id)

  pub index_at-sadd :
      (other m : Text) (t : ℕ) (s : R.Store) (user_id : Text)
      → (other === user_id) ≡ false
      → index_at (R.sadd (user_sessions_key other) m t s) t user_id ≡ index_at s t user_id
  index_at-sadd other m t s user_id h =
      R.live-sadd _ m t s (user_sessions_key user_id) (user_sessions_key-=== other user_id ∙ h)

  pub index_at-srem :
      (other m : Text) (t : ℕ) (s : R.Store) (user_id : Text)
      → (other === user_id) ≡ false
      → index_at (R.srem (user_sessions_key other) m t s) t user_id ≡ index_at s t user_id
  index_at-srem other m t s user_id h =
      R.live-srem _ m t s (user_sessions_key user_id) (user_sessions_key-=== other user_id ∙ h)

  pub index_at-expire :
      (other : Text) (n t : ℕ) (s : R.Store) (user_id : Text)
      → 0 < n
      → index_at (R.expire (user_sessions_key other) n t s) t user_id ≡ (
          if other === user_id
          then expire_entry (t + n * 1000) (index_at s t user_id)
          else index_at s t user_id)
  index_at-expire other n t s user_id h =
      R.live-expire (user_sessions_key other) n t s (user_sessions_key user_id) h
      ∙ rw (user_sessions_key-=== other user_id)

  -- As time passes a session stays or expires.
  pub raw_at-later :
      (s : R.Store) (t u : ℕ) (id : Text)
      → t ≤ u
      → (raw_at s u id ≡ raw_at s t id) ⊎ (raw_at s u id ≡ none)
  raw_at-later s t u id h = ground (arith, R.live-later s t u (session_key id) h)

  -- What a key shows later, it showed before.
  pub raw_at-earlier :
      (s : R.Store) (t u : ℕ) (id : Text) {v : Text}
      → t ≤ u
      → raw_at s u id ≡ some v
      → raw_at s t id ≡ some v
  raw_at-earlier s t u id h e = ground (arith, R.live-later s t u (session_key id) h)

module _ (R : Redis) (C : Codec) where
  -- Redis holds the session `r` under `id` at time `t`, in a form that Node and Lua read.
  pub record Holds (s : R.Store) (t : ℕ) (id : Text) (r : SessionRecord) : Type 0 where
    pub raw : Text
    pub stored : raw_at R s t id ≡ some raw
    pub decoded : C.cjson_decode raw ≡ some r
    pub parsed : C.parse raw ≡ some r

  -- A session in either of the two forms in which it is written.
  pub Holds-of_raw :
      (s : R.Store) (t : ℕ) (id : Text) (r : SessionRecord) (raw : Text)
      → raw_at R s t id ≡ some raw
      → C.cjson_decode raw ≡ some r
      → C.parse raw ≡ some r
      → Holds s t id r
  Holds-of_raw s t id r raw e d p = record { raw = raw; stored = e; decoded = d; parsed = p }

  pub Holds-same :
      (s s' : R.Store) (t t' : ℕ) (id : Text) {r : SessionRecord}
      → raw_at R s' t' id ≡ raw_at R s t id
      → Holds s t id r
      → Holds s' t' id r
  Holds-same s s' t t' id e h = record {
    raw = h.raw;
    stored = e ∙ h.stored;
    decoded = h.decoded;
    parsed = h.parsed;
  }

  pub Holds-earlier :
      (s : R.Store) (t u : ℕ) (id : Text) {r : SessionRecord}
      → t ≤ u
      → Holds s u id r
      → Holds s t id r
  Holds-earlier s t u id le h = record {
    raw = h.raw;
    stored = raw_at-earlier R s t u id le h.stored;
    decoded = h.decoded;
    parsed = h.parsed;
  }

  -- There is one session under an identifier.
  pub Holds-unique :
      (s : R.Store) (t : ℕ) (id : Text) {r r' : SessionRecord}
      → Holds s t id r
      → Holds s t id r'
      → r ≡ r'
  Holds-unique s t id h h' = cc (h.stored, h'.stored, h.decoded, h'.decoded)

  pub not-Lacks-Holds :
      (s : R.Store) (t : ℕ) (id : Text) {r : SessionRecord} → Lacks R s t id → Holds s t id r → ⊥
  not-Lacks-Holds s t id l h = cc (l, h.stored)
