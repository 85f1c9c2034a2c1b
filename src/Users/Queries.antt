-- ===== src/Users/Queries.antt =====
-- The statements of UserRepository: what their answers mean.
use node_jwt_redis_session_a.Base.{
  Text, ◌≡◌, Option, List, ok, Fault-cases, next_fault, delivered, inl, inr,
}
use node_jwt_redis_session_a.Account.{UserRecord}
use node_jwt_redis_session_a.Postgres.{Postgres, Pool, UserRow, Statement, query}
use node_jwt_redis_session_a.Users.{
  select, find_by_id, find_by_username, first_row, has_id, has_username,
}
use node_jwt_redis_session_a.Base.{[]}

module _ {P : Postgres} {A : Type 0} where
  -- An answer arrives only from a statement that ran.
  pub query-ok :
      (statement : Statement P A) (w : Pool P) {a : A}
      → (query statement w).0 ≡ ok a
      → ((statement w.db).0 ≡ ok a) × ((query statement w).1.db ≡ (statement w.db).1)
  unfolding query
  query-ok statement w h = elim (Fault-cases (next_fault w.faults)) [
    | inl ran ↦ (rw ran at h, rw ran)
    | inr (inl refused) ↦ absurd (cc (rw refused at h))
    | inr (inr silent) ↦ absurd (cc (rw silent at h))
  ]

  pub query-delivered :
      (statement : Statement P A) (w : Pool P)
      → next_fault w.faults ≡ delivered
      → (query statement w).0 ≡ (statement w.db).0
  unfolding query
  query-delivered statement w h = rw h

  -- A statement from which an answer arrives, with no fault to come.
  pub query-calm :
      (statement : Statement P A) (w : Pool P)
      → w.faults ≡ []
      → query statement w ≡ ((statement w.db).0, record w { db = (statement w.db).1 })
  unfolding query
  query-calm statement w calm = rw calm

module _ (P : Postgres) where
  -- Reading changes nothing, whatever the faults.
  pub select-db :
      {A : Type 0} (f : List UserRow → A) (w : Pool P) → (query (select P f) w).1.db ≡ w.db
  unfolding query
  select-db f w = elim (Fault-cases (next_fault w.faults)) [
    | inl ran ↦ rw ran
    | inr (inl refused) ↦ rw refused
    | inr (inr silent) ↦ rw silent
  ]

  pub find_by_id-ok :
      (id : Text) (w : Pool P) (o : Option UserRecord)
      → (find_by_id P id w).0 ≡ ok o
      → first_row (has_id P id) (P.users w.db) ≡ o
  unfolding find_by_id
  find_by_id-ok id w o h = let e = (query-ok (select P (first_row (has_id P id))) w h).0 in cc (e)

  pub find_by_username-ok :
      (username : Text) (w : Pool P) (o : Option UserRecord)
      → (find_by_username P username w).0 ≡ ok o
      → first_row (has_username P username) (P.users w.db) ≡ o
  unfolding find_by_username
  find_by_username-ok username w o h =
      let e = (query-ok (select P (first_row (has_username P username))) w h).0 in cc (e)
