-- ===== src/Postgres.antt =====
-- The PostgreSQL server, which is not part of the repository: an interface to the table `users` of
-- migrations/, and the pool of src/postgres.ts through which the program asks it.
pub mod Sample
use node_jwt_redis_session_a.Base.{
  Text, codes, ℕ, ◌≡◌, Bool, true, false, ◌||◌, Option, none, some, List, [], ◌∷◌, ◌++◌, ◌===◌,
  Exec, Result, ok, err, Fault, delivered, rejected, lost, next_fault, later_faults,
}
use node_jwt_redis_session_a.Errors.{Failure, postgres_failure}
use node_jwt_redis_session_a.Account.{UserRecord, user}

-- src/repositories/UserRepository.ts, NewUser
pub record NewUser : Type 0 where
  pub id : Text
  pub name : Text
  pub username : Text
  pub password_hash : Text
  pub email : Text

-- A row of `users`, in the columns that the program reads.
pub record UserRow : Type 0 where
  pub record_of : UserRecord
  pub open record_of use *
  pub created_at : ℕ

-- The row of a new user: `role` has the default 'user', `created_at` is the time of the insert.
abbrev pub new_row : NewUser → ℕ → UserRow
new_row u t = record {
  record_of = record {
    id = u.id;
    name = u.name;
    username = u.username;
    password_hash = u.password_hash;
    email = u.email;
    role = user;
  };
  created_at = t;
}

abbrev pub any_row : (UserRow → Bool) → List UserRow → Bool
any_row p [] = false
any_row p (r ∷ rs) = p r || any_row p rs

abbrev pub unique_violation : Text
unique_violation = codes "23505"

abbrev pub username_key : Text
username_key = codes "users_username_lower_key"

abbrev pub email_key : Text
email_key = codes "users_email_key"

-- The unique constraints of the migrations that a new user may break.
pub data Clash (lower : Text → Text) (rows : List UserRow) (u : NewUser) : Text → Type 0 where
  clash_id : any_row (λ r. r.id === u.id) rows ≡ true → Clash lower rows u (codes "users_pkey")
  clash_username :
      any_row (λ r. lower r.username === lower u.username) rows ≡ true
      → Clash lower rows u (codes "users_username_lower_key")
  clash_email :
      any_row (λ r. r.email === u.email) rows ≡ true → Clash lower rows u (codes "users_email_key")

pub record Postgres : Type 1 where
  pub Db : Type 0
  -- SQL's `lower`.
  pub lower : Text → Text
  -- The rows of the table, in the order in which they were inserted.
  pub users : Db → List UserRow
  -- The INSERT of a user; `some` constraint that it breaks, or none.
  pub insert : NewUser → Db → Option Text × Db
  pub inserted_at : Db → ℕ
  pub insert-accepted :
      (u : NewUser) (db : Db)
      → (insert u db).0 ≡ none
      → (users (insert u db).1 ≡ users db ++ new_row u (inserted_at db) ∷ [])
        × ((k : Text) → Clash lower (users db) u k → ⊥)
  pub insert-refused :
      (u : NewUser) (db : Db) (k : Text)
      → (insert u db).0 ≡ some k
      → (users (insert u db).1 ≡ users db) × Clash lower (users db) u k

pub record Pool (P : Postgres) : Type 0 where
  pub db : P.Db
  pub faults : List Fault

abbrev pub no_connection : Failure
no_connection = postgres_failure (codes "08006") none

-- A statement, which may fail with an error.
abbrev pub Statement : Postgres → Type 0 → Type 0
Statement P A = P.Db → Result A × P.Db

module _ {P : Postgres} {A : Type 0} where
  abbrev answer : Fault → Statement P A → Pool P → Result A × Pool P
  answer delivered statement w = let (r, db) = statement w.db in (r, record w { db = db })
  answer rejected statement w = (err no_connection, w)
  answer lost statement w =
      let (r, db) = statement w.db in (err no_connection, record w { db = db })

  unfoldable pub query : Statement P A → Exec (Pool P) A
  query statement w =
      answer (next_fault w.faults) statement (record w { faults = later_faults w.faults })
