-- ===== src/Users/Creating.antt =====
-- UserRepository.create: a new row, or the error that names what is taken.
use node_jwt_redis_session_a.Base.{
  Text, codes, ◌≡◌, refl, true, some, List, [], ◌∷◌, ◌++◌, Result, ok, err, Option-cases,
  next_fault, delivered, inl, inr,
}
use node_jwt_redis_session_a.Errors.{Failure, app, conflict, postgres_failure}
use node_jwt_redis_session_a.Postgres.{
  Postgres, Pool, UserRow, NewUser, new_row, any_row, query, unique_violation, Clash, clash_id,
  clash_username, clash_email,
}
use node_jwt_redis_session_a.Users
use node_jwt_redis_session_a.Users.{translate, has_username, has_id, has_email, insert_statement}

module _ (P : Postgres) (u : NewUser) where
  -- What a create answers, and what it leaves of the rows.
  abbrev pub Answered : List UserRow → Failure → Result Unit → List UserRow → Type 0
  Answered rows e r rows' = (r ≡ err e) × (rows' ≡ rows)

  -- The outcomes of a create: the row is added at the end, or nothing changes and the error says
  -- which of the unique values is taken.
  pub data Created (rows : List UserRow) (row : UserRow) (r : Result Unit) (rows' : List UserRow)
      : Type 0 where
    added : r ≡ ok tt → rows' ≡ rows ++ row ∷ [] → Created rows row r rows'
    username_taken :
        any_row (has_username P u.username) rows ≡ true
        → Answered rows (app (conflict "Username already taken.")) r rows'
        → Created rows row r rows'
    email_taken :
        any_row (has_email P u.email) rows ≡ true
        → Answered rows (app (conflict "Email already registered.")) r rows'
        → Created rows row r rows'
    id_taken :
        any_row (has_id P u.id) rows ≡ true
        → Answered rows (postgres_failure unique_violation (some (codes "users_pkey"))) r rows'
        → Created rows row r rows'

  refused :
      (rows rows' : List UserRow) (row : UserRow) (k : Text)
      → rows' ≡ rows
      → Clash P.lower rows u k
      → Created rows row (err (translate (postgres_failure unique_violation (some k)))) rows'
  unfolding translate
  refused rows rows' row k same (clash_id e) = id_taken e (refl, same)
  refused rows rows' row k same (clash_username e) = username_taken e (refl, same)
  refused rows rows' row k same (clash_email e) = email_taken e (refl, same)

  -- With a reply from PostgreSQL, a create either adds the row at the end of the table, or it
  -- changes nothing and fails: with the conflict that names the username when a row has it in any
  -- case, with the one that names the email address when a row has that, and with PostgreSQL's own
  -- error when the identifier is taken. So a race that the checks before the insert lose is told
  -- the same as one that they catch.
  pub create-Created :
      (w : Pool P)
      → next_fault w.faults ≡ delivered
      → Created
          (P.users w.db)
          (new_row u (P.inserted_at w.db))
          (Users.create P u w).0
          (P.users (Users.create P u w).1.db)
  unfolding Users.create query
  create-Created w h = elim (Option-cases (P.insert u w.db).0) [
    | inl accepted ↦
        let (appended, clear) = P.insert-accepted u w.db accepted in
        rw h (rw accepted (added refl appended))
    | inr (k, broken) ↦
        let (same, clash) = P.insert-refused u w.db k broken in
        rw h (
          rw broken (
            refused (P.users w.db) (P.users (P.insert u w.db).1) (new_row u (P.inserted_at w.db)) k
              same clash))
  ]
