-- ===== src/Users.antt =====
-- src/repositories/UserRepository.ts: the users in PostgreSQL.
pub mod Queries
pub mod Creating
mod Tests
use node_jwt_redis_session_a.Base.{
  Text, ℕ, Bool, true, false, ◌&&◌, ◌||◌, Option, none, some, List, [], ◌∷◌, ◌++◌, map, ◌===◌,
  if◌then◌else◌, Exec, Result, ok, err, Done, pure, throw, catch, lift, ◌>>=◌, ◌>>◌, take, drop,
  length, leb, ltb, ◌==◌, not,
}
use node_jwt_redis_session_a.Errors.{Failure, app, conflict, postgres_failure}
use node_jwt_redis_session_a.Account.{UserRecord}
use node_jwt_redis_session_a.Postgres.{
  Postgres, Pool, Statement, query, UserRow, NewUser, any_row, unique_violation, username_key,
  email_key,
}

-- `WHERE p LIMIT 1`, mapped onto UserRecord.
abbrev pub first_row : (UserRow → Bool) → List UserRow → Option UserRecord
first_row p [] = none
first_row p (r ∷ rs) = let rest = first_row p rs in if p r then some r.record_of else rest

abbrev pub is_unique_violation : Failure → Bool
is_unique_violation (postgres_failure code constraint) = code === unique_violation
is_unique_violation _ = false

abbrev pub same_constraint : Option Text → Text → Bool
same_constraint none k = false
same_constraint (some c) k = c === k

abbrev constraint_of : Failure → Option Text
constraint_of (postgres_failure code constraint) = constraint
constraint_of _ = none

-- The `catch` of `create`.
unfoldable pub translate : Failure → Failure
translate e =
    if is_unique_violation e && same_constraint (constraint_of e) username_key
    then app (conflict "Username already taken.")
    else if is_unique_violation e && same_constraint (constraint_of e) email_key
    then app (conflict "Email already registered.")
    else e

-- `ORDER BY created_at, id`; texts are compared by code units.
abbrev pub text_le : Text → Text → Bool
text_le [] t = true
text_le (a ∷ s) [] = false
text_le (a ∷ s) (b ∷ t) = ltb a b || (a == b && text_le s t)

abbrev pub row_le : UserRow → UserRow → Bool
row_le r q = ltb r.created_at q.created_at || (r.created_at == q.created_at && text_le r.id q.id)

unfoldable pub insert_row : UserRow → List UserRow → List UserRow
insert_row r [] = r ∷ []
insert_row r (q ∷ qs) = let rest = insert_row r qs in if row_le r q then r ∷ q ∷ qs else q ∷ rest

unfoldable pub order_rows : List UserRow → List UserRow
order_rows [] = []
order_rows (r ∷ rs) = insert_row r (order_rows rs)

pub record Page : Type 0 where
  pub items : List UserRecord
  pub total : ℕ

module _ (P : Postgres) where
  -- A SELECT of what the rows show.
  abbrev pub select : {A : Type 0} → (List UserRow → A) → Statement P A
  select f db = (ok (f (P.users db)), db)

  abbrev pub has_username : Text → UserRow → Bool
  has_username username r = P.lower r.username === P.lower username

  abbrev pub has_id : Text → UserRow → Bool
  has_id id r = r.id === id

  abbrev pub has_email : Text → UserRow → Bool
  has_email email r = r.email === email

  unfoldable pub find_by_username : Text → Exec (Pool P) (Option UserRecord)
  find_by_username username = query (select (first_row (has_username username)))

  unfoldable pub find_by_id : Text → Exec (Pool P) (Option UserRecord)
  find_by_id id = query (select (first_row (has_id id)))

  unfoldable pub exists_by_username : Text → Exec (Pool P) Bool
  exists_by_username username = query (select (any_row (has_username username)))

  unfoldable pub exists_by_email : Text → Exec (Pool P) Bool
  exists_by_email email = query (select (any_row (has_email email)))

  -- Two statements; the page and the count.
  unfoldable pub list_paginated : ℕ → ℕ → Exec (Pool P) Page
  list_paginated limit offset = do
    items ←
        query (select (λ rows. map (λ r. r.record_of) (take limit (drop offset (order_rows rows)))))
    total ← query (select length)
    pure (record { items = items; total = total })

  abbrev pub insert_result : Option Text → Result Done
  insert_result none = ok tt
  insert_result (some k) = err (postgres_failure unique_violation (some k))

  abbrev pub insert_statement : NewUser → Statement P Done
  insert_statement u db = let (broken, db') = P.insert u db in (insert_result broken, db')

  unfoldable pub create : NewUser → Exec (Pool P) Done
  create u = catch (query (insert_statement u)) (λ e. throw (translate e))
