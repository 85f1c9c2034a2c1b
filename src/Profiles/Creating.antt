-- ===== src/Profiles/Creating.antt =====
-- UserService.createUser: what an identifier in its answer stands for.
use node_jwt_redis_session_a.Base.{
  Text, suc, ◌≡◌, refl, sym, ap, ◌∙◌, subst, Bool, true, false, Option, none, some, [], ◌∷◌, ◌++◌,
  Exec, Result, ok, err, Done, lift, pure, throw, catch, ◌>>=◌, bind-inv, if◌then◌else◌,
}
use node_jwt_redis_session_a.Errors.{Failure}
use node_jwt_redis_session_a.Postgres.{Postgres, Pool, UserRow, NewUser, new_row, query, any_row}
use node_jwt_redis_session_a.Users
use node_jwt_redis_session_a.Users.{
  select, insert_statement, insert_result, translate, has_username, has_email,
}
use node_jwt_redis_session_a.Users.Queries.{query-ok, select-db}
use node_jwt_redis_session_a.Validation.{Body}
use node_jwt_redis_session_a.Validation.Schemas.{CreateUserInput, parse_create_user}
use node_jwt_redis_session_a.Validation.Registration.{WellFormed, parse_create_user-WellFormed}
use node_jwt_redis_session_a.Platform.{Platform, World, on_postgres, random_uuid, random_bytes}
use node_jwt_redis_session_a.Profiles.{
  create_user, check_email, store_user, username_taken, email_taken,
}

module _ (P : Postgres) where
  caught-ok :
      (r : Result Done) (w : Pool P)
      → (catch (lift r) (λ e. throw (translate e)) w).0 ≡ ok tt
      → (r ≡ ok tt) × ((catch (lift r) (λ e. throw (translate e)) w).1 ≡ w)
  caught-ok (ok tt) w h = (refl, refl)
  caught-ok (err e) w h = absurd (cc)

  inserted-ok : (o : Option Text) → insert_result P o ≡ ok tt → o ≡ none
  inserted-ok none h = refl
  inserted-ok (some k) h = absurd (cc)

  -- A create that succeeds has added the row.
  create-ok :
      (u : NewUser) (w : Pool P)
      → (Users.create P u w).0 ≡ ok tt
      → P.users (Users.create P u w).1.db ≡ P.users w.db ++ new_row u (P.inserted_at w.db) ∷ []
  unfolding Users.create
  create-ok u w h =
      let x = query (insert_statement P u) w in
      let (done, kept) = caught-ok x.0 x.1 h in
      let (accepted, stored) = query-ok (insert_statement P u) w done in
      ap (λ (v : Pool P). P.users v.db) kept
      ∙ ap P.users stored
      ∙ (P.insert-accepted u w.db (inserted-ok (P.insert u w.db).0 accepted)).0

module _ (F : Platform) where
  -- The row of a user who was created from an input in a state.
  abbrev pub stored_user : CreateUserInput → World F → NewUser
  stored_user input w = record {
    id = w.uuids 0;
    name = input.name;
    username = input.username;
    password_hash = F.bcrypt.hash input.password 12 (w.bytes 0);
    email = input.email_address;
  }

  abbrev Added : CreateUserInput → World F → Text → World F → Type 0
  Added input w id w' =
      (id ≡ w.uuids 0)
      × (F.postgres.users w'.pool.db
          ≡ F.postgres.users w.pool.db
            ++ new_row (stored_user input w) (F.postgres.inserted_at w.pool.db) ∷ [])

  store_user-ok :
      (input : CreateUserInput) (w : World F) (id : Text)
      → (store_user F input w).0 ≡ ok id
      → Added input w id (store_user F input w).1
  unfolding store_user random_bytes random_uuid on_postgres
  store_user-ok input w id h =
      let w2 = record w { bytes = λ n. w.bytes (suc n); uuids = λ n. w.uuids (suc n) } in
      let add : Exec (World F) Done = on_postgres (Users.create F.postgres (stored_user input w)) in
      let (done, created, rest) = bind-inv add (λ _. pure (w.uuids 0)) w2 h in
      let same = sym (ap (λ x. x.0) rest) ∙ h in
      (
        cc (same),
        ap (λ x. F.postgres.users x.1.pool.db) rest
            ∙ create-ok F.postgres (stored_user input w) w.pool created,
      )

  Added-before :
      (input : CreateUserInput) (w w' : World F) (id : Text) (p : Pool F.postgres)
      → p.db ≡ w.pool.db
      → Added input (record w { pool = p }) id w'
      → Added input w id w'
  Added-before input w w' id p e (same, rows) = (
    same,
    rows
        ∙ ap
            (λ d.
              F.postgres.users d ++ new_row (stored_user input w) (F.postgres.inserted_at d) ∷ [])
            e,
  )

  module _ (p : UserRow → Bool) (e : Failure) (next : Exec (World F) Text) where
    abbrev check : Exec (World F) Bool
    check = on_postgres (query (select F.postgres (any_row p)))

    abbrev go : Bool → Exec (World F) Text
    go taken = if taken then throw e else next

    go-ok :
        (taken : Bool) (w : World F) (id : Text)
        → (go taken w).0 ≡ ok id
        → (taken ≡ false) × (go taken w ≡ next w)
    go-ok false w id h = (refl, refl)
    go-ok true w id h = absurd (cc)

    -- A check that finds nothing, and what comes after it.
    check-free :
        (w : World F) (id : Text)
        → ((check >>= go) w).0 ≡ ok id
        → (any_row p (F.postgres.users w.pool.db) ≡ false)
          × ((check >>= go) w ≡ next (check w).1)
          × ((check w).1.pool.db ≡ w.pool.db)
    unfolding on_postgres
    check-free w id h =
        let (taken, asked, rest) = bind-inv check go w h in
        let (free, goes) = go-ok taken (check w).1 id (sym (ap (λ x. x.0) rest) ∙ h) in
        let (answered, kept) = query-ok (select F.postgres (any_row p)) w.pool asked in
        (cc (answered, free), rest ∙ goes, select-db F.postgres (any_row p) w.pool)

  check_email-ok :
      (input : CreateUserInput) (w : World F) (id : Text)
      → (check_email F input w).0 ≡ ok id
      → (any_row (has_email F.postgres input.email_address) (F.postgres.users w.pool.db) ≡ false)
        × Added input w id (check_email F input w).1
  unfolding check_email Users.exists_by_email on_postgres
  check_email-ok input w id h =
      let p = has_email F.postgres input.email_address in
      let (free, goes, db) = check-free p email_taken (store_user F input) w id h in
      let w1 = (check p email_taken (store_user F input) w).1 in
      (
        free,
        Added-before input w (check_email F input w).1 id w1.pool db (
            subst (λ x. Added input w1 id x.1) (sym goes)
              (store_user-ok input w1 id (sym (ap (λ x. x.0) goes) ∙ h))),
      )

  -- The user behind an identifier that createUser answers with.
  pub record IsRegistered (body : Body) (w : World F) (id : Text) (w' : World F) : Type 0 where
    pub input : CreateUserInput
    pub valid : parse_create_user F.zod body ≡ ok input
    pub formed : WellFormed F.zod body input
    pub new_name :
        any_row (has_username F.postgres input.username) (F.postgres.users w.pool.db) ≡ false
    pub new_email :
        any_row (has_email F.postgres input.email_address) (F.postgres.users w.pool.db) ≡ false
    pub added : Added input w id w'
    pub can_log_in : F.bcrypt.compare input.password (stored_user input w).password_hash ≡ true

  -- An identifier that createUser answers with, whatever faults PostgreSQL has: the body was an
  -- object with a username and a name of 3 to 30 and 2 to 100 characters once trimmed, an email
  -- address, once trimmed and in lower case, and a password of 12 to 72 UTF-16 code units, which is
  -- kept as it was sent; no row had that username in any case or that email address; the table has
  -- grown by one row, with these values, the role user, this identifier and a hash of the password
  -- with 12 rounds; and the password matches that hash.
  pub create_user-ok :
      (body : Body) (w : World F) (id : Text)
      → (create_user F body w).0 ≡ ok id
      → IsRegistered body w id (create_user F body w).1
  unfolding create_user Users.exists_by_username on_postgres
  create_user-ok body w id h =
      let ask : CreateUserInput → Exec (World F) Text = λ input.
        check (has_username F.postgres input.username) username_taken (check_email F input)
        >>= go (has_username F.postgres input.username) username_taken (check_email F input) in
      let (input, valid, rest) = bind-inv (lift (parse_create_user F.zod body)) ask w h in
      let p = has_username F.postgres input.username in
      let (free, goes, db) =
        check-free p username_taken (check_email F input) w id (sym (ap (λ x. x.0) rest) ∙ h) in
      let w1 = (check p username_taken (check_email F input) w).1 in
      let (no_email, added) = check_email-ok input w1 id (sym (ap (λ x. x.0) (rest ∙ goes)) ∙ h) in
      record {
        input = input;
        valid = valid;
        formed = parse_create_user-WellFormed F.zod body input valid;
        new_name = free;
        new_email =
            ap (λ d. any_row (has_email F.postgres input.email_address) (F.postgres.users d))
              (sym db)
            ∙ no_email;
        added =
            Added-before input w (create_user F body w).1 id w1.pool db
              (subst (λ x. Added input w1 id x.1) (sym (rest ∙ goes)) added);
        can_log_in = F.bcrypt.compare-hash input.password 12 (w.bytes 0);
      }
