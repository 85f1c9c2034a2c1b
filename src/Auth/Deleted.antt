-- ===== src/Auth/Deleted.antt =====
-- AuthService.refresh for a user who is no longer in PostgreSQL.
use node_jwt_redis_session_a.Base.{
  Text, ℕ, ◌≡◌, refl, sym, ap, ◌∙◌, subst, Option, none, some, [], ◌∷◌, Result, ok, err, Exec,
  ◌>>=◌, bind-ok, throw, if◌then◌else◌, next_fault, later_faults, delivered, arith, length,
}
use node_jwt_redis_session_a.Redis.{has}
use node_jwt_redis_session_a.Sessions
use node_jwt_redis_session_a.Sessions.{SessionRecord, user_sessions_key}
use node_jwt_redis_session_a.Sessions.Views.{raw_at, index_at, Holds}
use node_jwt_redis_session_a.Sessions.Reading.{get-Holds, get-store, get-clock, get-faults}
use node_jwt_redis_session_a.Sessions.Revocation.{delete_all_for_user-delivered}
use node_jwt_redis_session_a.Tokens.{SplitRefreshToken, split_refresh_token}
use node_jwt_redis_session_a.Users
use node_jwt_redis_session_a.Users.{first_row, has_id, select}
use node_jwt_redis_session_a.Users.Queries.{query-delivered}
use node_jwt_redis_session_a.Platform.{Platform, World, on_redis, on_postgres}
use node_jwt_redis_session_a.Auth.{
  RefreshResult, refresh, refresh_text, refresh_split, refresh_session, refresh_user,
  invalid_refresh_token,
}

empty_split : {split : SplitRefreshToken} → split_refresh_token [] ≡ some split → ⊥
unfolding split_refresh_token node_jwt_redis_session_a.Base.index_of
empty_split h = cc

module _ (F : Platform) (split : SplitRefreshToken) (session : SessionRecord) where
  -- The sessions of the user's index are gone, the others as before.
  abbrev pub Cleared : F.redis.Store → ℕ → F.redis.Store → Type 0
  Cleared s' t s =
      (j : Text)
      → raw_at F.redis s' t j
        ≡ (if has (index_at F.redis s t session.user_id) j then none else raw_at F.redis s t j)

  -- The answer 401, and the sessions of the user's index are gone.
  abbrev pub Denied : Result RefreshResult × World F → ℕ → F.redis.Store → Type 0
  Denied x t s = (x.0 ≡ err invalid_refresh_token) × Cleared x.1.client.store t s

  no_user-Denied :
      (w : World F)
      → next_fault w.client.faults ≡ delivered
      → Denied (refresh_user F split session none w) w.client.clock w.client.store
  unfolding refresh_user on_redis
  no_user-Denied w f =
      let all = Sessions.delete_all_for_user F.redis session.user_id in
      let (replied, cleared, gone) =
        delete_all_for_user-delivered F.redis session.user_id w.client f in
      let e =
        bind-ok (on_redis all) (λ _. throw invalid_refresh_token) w
          (λ i. (replied i, (on_redis all w).1)) in
      subst (λ x. Denied x w.client.clock w.client.store) (sym e) (refl, cleared)

  session-Denied :
      (w : World F)
      → next_fault w.client.faults ≡ delivered
      → next_fault w.pool.faults ≡ delivered
      → first_row (has_id F.postgres session.user_id) (F.postgres.users w.pool.db) ≡ none
      → Denied (refresh_session F split (some session) w) w.client.clock w.client.store
  unfolding refresh_session on_postgres Users.find_by_id
  session-Denied w f g absent =
      let find = on_postgres (Users.find_by_id F.postgres session.user_id) in
      let e =
        query-delivered (select F.postgres (first_row (has_id F.postgres session.user_id))) w.pool g
        ∙ ap ok absent in
      let e' = bind-ok find (refresh_user F split session) w (λ i. (e i, (find w).1)) in
      subst (λ x. Denied x w.client.clock w.client.store) (sym e') (no_user-Denied (find w).1 f)

  split-Denied :
      (w : World F)
      → w.client.faults ≡ []
      → next_fault w.pool.faults ≡ delivered
      → Holds F.redis F.sessions w.client.store w.client.clock split.session_id session
      → first_row (has_id F.postgres session.user_id) (F.postgres.users w.pool.db) ≡ none
      → Denied (refresh_split F (some split) w) w.client.clock w.client.store
  unfolding refresh_split on_redis
  split-Denied w calm g held absent =
      let id = split.session_id in
      let read = on_redis (Sessions.get F.redis F.sessions id) in
      let got = get-Holds F.redis F.sessions id w.client session (ap next_fault calm) held in
      let e = bind-ok read (refresh_session F split) w (λ i. (got i, (read w).1)) in
      let w1 = (read w).1 in
      let still : next_fault w1.client.faults ≡ delivered =
        ap next_fault (get-faults F.redis F.sessions id w.client ∙ ap later_faults calm) in
      subst (λ x. Denied x w.client.clock w.client.store) (sym e)
        (subst (λ t. Denied (refresh_session F split (some session) w1) t w.client.store)
          (get-clock F.redis F.sessions id w.client)
          (subst (λ s. Denied (refresh_session F split (some session) w1) w1.client.clock s)
            (get-store F.redis F.sessions id w.client) (session-Denied w1 still g absent)))

  -- Without faults, a refresh token whose session is there but whose user is not in PostgreSQL: the
  -- answer is 401, whatever the validator is, every session in the user's index is gone, and no
  -- other session changes.
  pub refresh-Denied :
      (raw : Text) (w : World F)
      → w.client.faults ≡ []
      → next_fault w.pool.faults ≡ delivered
      → split_refresh_token raw ≡ some split
      → Holds F.redis F.sessions w.client.store w.client.clock split.session_id session
      → first_row (has_id F.postgres session.user_id) (F.postgres.users w.pool.db) ≡ none
      → Denied (refresh F (some raw) w) w.client.clock w.client.store
  unfolding refresh refresh_text
  refresh-Denied [] w calm g s held absent = absurd (empty_split s)
  refresh-Denied (c ∷ raw) w calm g s held absent =
      subst (λ o. Denied (refresh_split F o w) w.client.clock w.client.store) (sym s)
        (split-Denied w calm g held absent)
