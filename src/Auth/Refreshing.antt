-- ===== src/Auth/Refreshing.antt =====
-- Who gets new tokens from AuthService.refresh.
use node_jwt_redis_session_a.Base.{
  Text, ℕ, ◌≡◌, refl, sym, ap, ◌∙◌, subst, Option, none, some, [], ◌∷◌, Result, ok, Option-cases,
  inl, inr, bind-inv, bind-throw,
}
use node_jwt_redis_session_a.Account.{UserRecord}
use node_jwt_redis_session_a.Sessions
use node_jwt_redis_session_a.Sessions.{
  SessionRecord, RotateOutcome, RotateParams, rotated, concurrent, reused, missing, get_command,
}
use node_jwt_redis_session_a.Sessions.Views.{raw_at}
use node_jwt_redis_session_a.Sessions.Reading.{get-some, get-store, get-clock}
use node_jwt_redis_session_a.Sessions.Effect.{Swapped}
use node_jwt_redis_session_a.Tokens.{SplitRefreshToken, split_refresh_token, generate_refresh_token}
use node_jwt_redis_session_a.Users
use node_jwt_redis_session_a.Users.Queries.{find_by_id-ok}
use node_jwt_redis_session_a.Users.{first_row, has_id, find_by_id}
use node_jwt_redis_session_a.Platform.{Platform, World, on_redis, on_postgres}
use node_jwt_redis_session_a.Sessions.Rotation.{run}
use node_jwt_redis_session_a.Auth.{
  RefreshResult, refresh, refresh_text, refresh_split, refresh_session, refresh_user,
  invalid_refresh_token,
}
use node_jwt_redis_session_a.Auth.Renewing.{rotate_params, Answer, Refreshed, refresh_user-ok}

module _ (F : Platform) where
  no_user :
      (split : SplitRefreshToken) (session : SessionRecord) (w : World F) {res : RefreshResult}
      → (refresh_user F split session none w).0 ≡ ok res
      → ⊥
  unfolding refresh_user
  no_user split session w h =
      bind-throw (on_redis (Sessions.delete_all_for_user F.redis session.user_id))
        invalid_refresh_token w h

  refresh_session-ok :
      (split : SplitRefreshToken) (session : SessionRecord) (w : World F) (res : RefreshResult)
      → (refresh_session F split (some session) w).0 ≡ ok res
      → (u : UserRecord) × (first_row
            (has_id F.postgres session.user_id)
            (F.postgres.users w.pool.db)
          ≡ some u)
        × Swapped F.redis F.sessions split.session_id session.user_id
            (rotate_params F w split u)
            w.client.clock
            w.client.store
        × ((refresh_session F split (some session) w).1.client.store
            ≡ (run F.redis F.sessions split.session_id session.user_id
                (rotate_params F w split u)
                w.client.clock
                w.client.store).1)
        × Answer F w split u (generate_refresh_token F.crypto (w.bytes 0)) res
  unfolding refresh_session on_postgres
  refresh_session-ok split session w res h =
      let find = on_postgres (Users.find_by_id F.postgres session.user_id) in
      let (o, found, rest) = bind-inv find (refresh_user F split session) w h in
      let w1 = (find w).1 in
      let row = find_by_id-ok F.postgres session.user_id w.pool o found in
      let h1 = sym (ap (λ x. x.0) rest) ∙ h in
      elim (Option-cases o) [
        | inl deleted ↦ absurd (
            no_user split session w1
              (sym (ap (λ o. (refresh_user F split session o w1).0) deleted) ∙ h1))
        | inr (u, is) ↦
            let h2 = sym (ap (λ o. (refresh_user F split session o w1).0) is) ∙ h1 in
            let (swapped, ran, answer) = refresh_user-ok F split session u w1 res h2 in
            (
              u,
              row ∙ is,
              swapped,
              ap (λ (x : Result RefreshResult × World F). x.1.client.store) rest
                  ∙ ap (λ o. (refresh_user F split session o w1).1.client.store) is
                  ∙ ran,
              record { signed = answer.signed; renewed = answer.renewed },
            )
      ]

  malformed_token : (w : World F) {res : RefreshResult} → (refresh_split F none w).0 ≡ ok res → ⊥
  unfolding refresh_split
  malformed_token w h = cc

  no_session :
      (split : SplitRefreshToken) (w : World F) {res : RefreshResult}
      → (refresh_session F split none w).0 ≡ ok res
      → ⊥
  unfolding refresh_session
  no_session split w h = cc

  -- What a rotation at time `t` on the store `s` did, `s'` being the store that it left.
  abbrev Rotated :
      World F
      → SplitRefreshToken
      → SessionRecord
      → UserRecord
      → F.redis.Store
      → ℕ
      → F.redis.Store
      → Type 0
  Rotated w split session u s' t s =
      Swapped F.redis F.sessions split.session_id session.user_id (rotate_params F w split u) t s
      × (s'
          ≡ (run F.redis F.sessions split.session_id session.user_id (rotate_params F w split u) t
              s).1)

  refresh_session_read :
      (split : SplitRefreshToken) (w : World F) (res : RefreshResult)
      → (refresh_split F (some split) w).0 ≡ ok res
      → (session : SessionRecord) × (u : UserRecord) × (text : Text) × (raw_at F.redis
            w.client.store w.client.clock split.session_id
          ≡ some text)
        × (F.sessions.parse text ≡ some session)
        × (first_row (has_id F.postgres session.user_id) (F.postgres.users w.pool.db) ≡ some u)
        × Rotated w split session u
            (refresh_split F (some split) w).1.client.store
            w.client.clock
            w.client.store
        × Answer F w split u (generate_refresh_token F.crypto (w.bytes 0)) res
  unfolding refresh_split on_redis
  refresh_session_read split w res h =
      let read = on_redis (Sessions.get F.redis F.sessions split.session_id) in
      let (o, replied, rest) = bind-inv read (refresh_session F split) w h in
      let w1 = (read w).1 in
      let h1 = sym (ap (λ x. x.0) rest) ∙ h in
      elim (Option-cases o) [
        | inl absent ↦
            absurd
              (no_session split w1 (sym (ap (λ o. (refresh_session F split o w1).0) absent) ∙ h1))
        | inr (session, is) ↦
            let h2 = sym (ap (λ o. (refresh_session F split o w1).0) is) ∙ h1 in
            let (u, found, swapped, ran, answer) = refresh_session-ok split session w1 res h2 in
            let (text, stored, parsed) =
              get-some F.redis F.sessions split.session_id w.client session (replied ∙ ap ok is) in
            let after =
              ap (λ (x : Result RefreshResult × World F). x.1.client.store) rest
              ∙ ap (λ o. (refresh_session F split o w1).1.client.store) is
              ∙ ran in
            let s' = (refresh_split F (some split) w).1.client.store in
            (
              session,
              u,
              text,
              stored,
              parsed,
              found,
              subst (λ s. Rotated w split session u s' w.client.clock s)
                  (get-store F.redis F.sessions split.session_id w.client)
                  (subst (λ t. Rotated w split session u s' t w1.client.store)
                    (get-clock F.redis F.sessions split.session_id w.client) (swapped, after)),
              record { signed = answer.signed; renewed = answer.renewed },
            )
      ]

  refresh_split-ok :
      (raw : Text) (w : World F) (res : RefreshResult)
      → (refresh_split F (split_refresh_token raw) w).0 ≡ ok res
      → Refreshed F w raw (refresh_split F (split_refresh_token raw) w).1 res
  refresh_split-ok raw w res h = elim (Option-cases (split_refresh_token raw)) [
    | inl malformed ↦
        absurd (malformed_token w (sym (ap (λ o. (refresh_split F o w).0) malformed) ∙ h))
    | inr (split, e) ↦
        let (session, account, text, stored, parsed, found, (swapped, replaced), answer) =
          refresh_session_read split w res (sym (ap (λ o. (refresh_split F o w).0) e) ∙ h) in
        record {
          split = split;
          session = session;
          account = account;
          token = e;
          text = text;
          stored = stored;
          parsed = parsed;
          found = found;
          swapped = swapped;
          replaced = ap (λ o. (refresh_split F o w).1.client.store) e ∙ replaced;
          answer = answer;
        }
  ]

  -- Whenever a refresh gives new tokens, whatever faults Redis and PostgreSQL have: the presented
  -- token splits into a session's identifier and a validator; Redis held that session; its user is
  -- in PostgreSQL; the validator's hash was the session's current one, and its absolute lifetime
  -- was not over; Redis swapped that hash for the one of the new validator; the access token is
  -- signed for that user with the role of the row in PostgreSQL, and the new refresh token names
  -- the same session.
  pub refresh-ok :
      (raw_refresh_token : Option Text) (w : World F) (res : RefreshResult)
      → (refresh F raw_refresh_token w).0 ≡ ok res
      → (raw : Text) × (raw_refresh_token ≡ some raw)
        × Refreshed F w raw (refresh F raw_refresh_token w).1 res
  unfolding refresh refresh_text
  refresh-ok none w res h = absurd (cc)
  refresh-ok (some []) w res h = absurd (cc)
  refresh-ok (some (c ∷ s)) w res h = (c ∷ s, refl, refresh_split-ok (c ∷ s) w res h)
