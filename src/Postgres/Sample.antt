-- ===== src/Postgres/Sample.antt =====
-- A server that meets the laws of the interface: the list of the rows.
use node_jwt_redis_session_a.Base.{
  Text, codes, ◌≡◌, refl, Bool, true, false, Option, none, some, List, [], ◌∷◌, ◌++◌, ◌===◌, subst,
  ap,
}
use node_jwt_redis_session_a.Postgres.{
  Postgres, NewUser, UserRow, new_row, any_row, Clash, clash_id, clash_username, clash_email,
}

abbrev same_id : NewUser → List UserRow → Bool
same_id u rows = any_row (λ r. r.id === u.id) rows

abbrev same_username : NewUser → List UserRow → Bool
same_username u rows = any_row (λ r. r.username === u.username) rows

abbrev same_email : NewUser → List UserRow → Bool
same_email u rows = any_row (λ r. r.email === u.email) rows

abbrev decide : NewUser → List UserRow → Bool → Bool → Bool → Option Text × List UserRow
decide u rows true b d = (some (codes "users_pkey"), rows)
decide u rows false true d = (some (codes "users_username_lower_key"), rows)
decide u rows false false true = (some (codes "users_email_key"), rows)
decide u rows false false false = (none, rows ++ new_row u 7 ∷ [])

abbrev insert : NewUser → List UserRow → Option Text × List UserRow
insert u rows = decide u rows (same_id u rows) (same_username u rows) (same_email u rows)

decide-accepted :
    (u : NewUser) (rows : List UserRow) (a b d : Bool)
    → same_id u rows ≡ a
    → same_username u rows ≡ b
    → same_email u rows ≡ d
    → (decide u rows a b d).0 ≡ none
    → ((decide u rows a b d).1 ≡ rows ++ new_row u 7 ∷ [])
      × ((k : Text) → Clash (λ s. s) rows u k → ⊥)
decide-accepted u rows true b d p q r h = absurd (cc)
decide-accepted u rows false true d p q r h = absurd (cc)
decide-accepted u rows false false true p q r h = absurd (cc)
decide-accepted u rows false false false p q r h = (refl, λ k clash. no_clash k clash p q r)
  where
    no_clash :
        (k : Text)
        → Clash (λ s. s) rows u k
        → same_id u rows ≡ false
        → same_username u rows ≡ false
        → same_email u rows ≡ false
        → ⊥
    no_clash k (clash_id e) p q r = cc
    no_clash k (clash_username e) p q r = cc
    no_clash k (clash_email e) p q r = cc

abbrev constraint : Option Text → Text
constraint none = []
constraint (some k) = k

decide-refused :
    (u : NewUser) (rows : List UserRow) (a b d : Bool) (k : Text)
    → same_id u rows ≡ a
    → same_username u rows ≡ b
    → same_email u rows ≡ d
    → (decide u rows a b d).0 ≡ some k
    → ((decide u rows a b d).1 ≡ rows) × Clash (λ s. s) rows u k
decide-refused u rows true b d k p q r h =
    (refl, subst (Clash (λ s. s) rows u) (ap constraint h) (clash_id p))
decide-refused u rows false true d k p q r h =
    (refl, subst (Clash (λ s. s) rows u) (ap constraint h) (clash_username q))
decide-refused u rows false false true k p q r h =
    (refl, subst (Clash (λ s. s) rows u) (ap constraint h) (clash_email r))
decide-refused u rows false false false k p q r h = absurd (cc)

pub insert-accepted_lem :
    (u : NewUser) (rows : List UserRow)
    → (insert u rows).0 ≡ none
    → ((insert u rows).1 ≡ rows ++ new_row u 7 ∷ []) × ((k : Text) → Clash (λ s. s) rows u k → ⊥)
insert-accepted_lem u rows h = decide-accepted u rows _ _ _ refl refl refl h

pub insert-refused_lem :
    (u : NewUser) (rows : List UserRow) (k : Text)
    → (insert u rows).0 ≡ some k
    → ((insert u rows).1 ≡ rows) × Clash (λ s. s) rows u k
insert-refused_lem u rows k h = decide-refused u rows _ _ _ k refl refl refl h

abbrev pub server : Postgres
server = record {
  Db = List UserRow;
  lower = λ s. s;
  users = λ rows. rows;
  insert = insert;
  inserted_at = λ rows. 7;
  insert-accepted = insert-accepted_lem;
  insert-refused = insert-refused_lem;
}
