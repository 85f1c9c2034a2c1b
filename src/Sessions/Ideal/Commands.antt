-- ===== src/Sessions/Ideal/Commands.antt =====
-- What each Redis command of the repository does to the sessions that a store represents.
use node_jwt_redis_session_a.Base.{
  Text, ℕ, ◌<◌, ◌≡◌, refl, ap, ◌∙◌, subst, true, not, ◌&&◌, ◌||◌, Option, none, some, ◌===◌,
  ===_iff, Bool-cases, inl, inr,
}
use node_jwt_redis_session_a.Redis.{Redis, has, is_set, Entry, expire_entry}
use node_jwt_redis_session_a.Sessions.{
  Codec, SessionRecord, IsPrecise, session_key, user_sessions_key,
}
use node_jwt_redis_session_a.Sessions.Views.{
  raw_at, raw_at-set_ex, raw_at-del, raw_at-sadd, raw_at-srem, raw_at-expire, index_at,
  index_at-set_ex, index_at-del, index_at-sadd, index_at-srem, index_at-expire, Holds-same,
  Holds-of_raw,
}
use node_jwt_redis_session_a.Sessions.Ideal.{
  Ideal, put_session, remove_session, add_to_index, remove_from_index, Shows, Represents,
}

module _ (R : Redis) (C : Codec) (t : ℕ) where
  pub Shows-same :
      (s s' : R.Store) (id : Text) (o : Option SessionRecord)
      → raw_at R s' t id ≡ raw_at R s t id
      → Shows R C s t id o
      → Shows R C s' t id o
  Shows-same s s' id none e h = e ∙ h
  Shows-same s s' id (some r) e (h, precise) = (Holds-same R C s s' t t id e h, precise)

  pub set_ex-Represents :
      (id v : Text) (n : ℕ) (s : R.Store) (r : SessionRecord) (a : Ideal)
      → 0 < n
      → C.cjson_decode v ≡ some r
      → C.parse v ≡ some r
      → IsPrecise r
      → Represents R C s t a
      → Represents R C (R.set_ex (session_key id) v n t s) t (put_session id r a)
  set_ex-Represents id v n s r a pos decoded parsed precise h = record {
    shown = λ j. elim (Bool-cases (id === j)) [
      | inl same ↦ rw same (
        Holds-of_raw R C _ t j r v (raw_at-set_ex R id v n t s j pos ∙ rw same) decoded parsed,
        precise,
      )
      | inr other ↦ rw other (
          Shows-same s _ j (a.sessions j) (raw_at-set_ex R id v n t s j pos ∙ rw other) (h.shown j))
    ];
    indexed = λ uid j. ap (λ o. has o j) (index_at-set_ex R id v n t s uid pos) ∙ h.indexed uid j;
    sets = λ uid. ap is_set (index_at-set_ex R id v n t s uid pos) ∙ h.sets uid;
  }

  pub del-Represents :
      (id : Text) (s : R.Store) (a : Ideal)
      → Represents R C s t a
      → Represents R C (R.del (session_key id) t s) t (remove_session id a)
  del-Represents id s a h = record {
    shown = λ j. elim (Bool-cases (id === j)) [
      | inl same ↦ rw same (raw_at-del R id t s j ∙ rw same)
      | inr other ↦
          rw other (Shows-same s _ j (a.sessions j) (raw_at-del R id t s j ∙ rw other) (h.shown j))
    ];
    indexed = λ uid j. ap (λ o. has o j) (index_at-del R id t s uid) ∙ h.indexed uid j;
    sets = λ uid. ap is_set (index_at-del R id t s uid) ∙ h.sets uid;
  }

  pub sadd-Represents :
      (uid id : Text) (s : R.Store) (a : Ideal)
      → Represents R C s t a
      → Represents R C (R.sadd (user_sessions_key uid) id t s) t (add_to_index uid id a)
  sadd-Represents uid id s a h = record {
    shown = λ j. Shows-same s _ j (a.sessions j) (raw_at-sadd R uid id t s j) (h.shown j);
    indexed = λ v j. elim (Bool-cases (uid === v)) [
      | inl same ↦
          let e = (===_iff uid v).0 same in
          rw same (
            subst
              (λ w.
                has (index_at R (R.sadd (user_sessions_key uid) id t s) t w) j
                ≡ (id === j || a.index w j))
              e
              (R.has-sadd (user_sessions_key uid) id t s j (h.sets uid)
                ∙ ap (λ b. id === j || b) (h.indexed uid j)))
      | inr other ↦
          rw other (ap (λ o. has o j) (index_at-sadd R uid id t s v other) ∙ h.indexed v j)
    ];
    sets = λ v. elim (Bool-cases (uid === v)) [
      | inl same ↦
          subst (λ w. is_set (index_at R (R.sadd (user_sessions_key uid) id t s) t w) ≡ true)
            ((===_iff uid v).0 same) (R.is_set-sadd (user_sessions_key uid) id t s (h.sets uid))
      | inr other ↦ ap is_set (index_at-sadd R uid id t s v other) ∙ h.sets v
    ];
  }

  pub srem-Represents :
      (uid id : Text) (s : R.Store) (a : Ideal)
      → Represents R C s t a
      → Represents R C (R.srem (user_sessions_key uid) id t s) t (remove_from_index uid id a)
  srem-Represents uid id s a h = record {
    shown = λ j. Shows-same s _ j (a.sessions j) (raw_at-srem R uid id t s j) (h.shown j);
    indexed = λ v j. elim (Bool-cases (uid === v)) [
      | inl same ↦
          let e = (===_iff uid v).0 same in
          rw same (
            subst
              (λ w.
                has (index_at R (R.srem (user_sessions_key uid) id t s) t w) j
                ≡ (not (id === j) && a.index w j))
              e
              (R.has-srem (user_sessions_key uid) id t s j
                ∙ ap (λ b. not (id === j) && b) (h.indexed uid j)))
      | inr other ↦
          rw other (ap (λ o. has o j) (index_at-srem R uid id t s v other) ∙ h.indexed v j)
    ];
    sets = λ v. elim (Bool-cases (uid === v)) [
      | inl same ↦
          subst (λ w. is_set (index_at R (R.srem (user_sessions_key uid) id t s) t w) ≡ true)
            ((===_iff uid v).0 same) (R.is_set-srem (user_sessions_key uid) id t s (h.sets uid))
      | inr other ↦ ap is_set (index_at-srem R uid id t s v other) ∙ h.sets v
    ];
  }

  has-expire : (d : ℕ) (o : Option Entry) (x : Text) → has (expire_entry d o) x ≡ has o x
  has-expire d none x = refl
  has-expire d (some e) x = refl

  is_set-expire : (d : ℕ) (o : Option Entry) → is_set (expire_entry d o) ≡ is_set o
  is_set-expire d none = refl
  is_set-expire d (some e) = refl

  pub expire-Represents :
      (uid : Text) (n : ℕ) (s : R.Store) (a : Ideal)
      → 0 < n
      → Represents R C s t a
      → Represents R C (R.expire (user_sessions_key uid) n t s) t a
  expire-Represents uid n s a pos h = record {
    shown = λ j. Shows-same s _ j (a.sessions j) (raw_at-expire R uid n t s j pos) (h.shown j);
    indexed = λ v j.
        ap (λ o. has o j) (index_at-expire R uid n t s v pos) ∙ elim (Bool-cases (uid === v)) [
          | inl same ↦ rw same (has-expire _ (index_at R s t v) j ∙ h.indexed v j)
          | inr other ↦ rw other (h.indexed v j)
        ];
    sets = λ v. ap is_set (index_at-expire R uid n t s v pos) ∙ elim (Bool-cases (uid === v)) [
      | inl same ↦ rw same (is_set-expire _ (index_at R s t v) ∙ h.sets v)
      | inr other ↦ rw other (h.sets v)
    ];
  }
