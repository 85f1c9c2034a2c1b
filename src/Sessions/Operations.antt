-- ===== src/Sessions/Operations.antt =====
-- What create, delete and deleteAllForUser may do to the sessions, under every fault.
use node_jwt_redis_session_a.Base.{
  Text, ◌>>=◌, zero, suc, ℕ, ◌≡◌, refl, ◌∙◌, false, Option, none, some, List, [], ◌∷◌, Result, ok,
  err, Done, ◌===◌, if◌then◌else◌, arith, All, inl, contains, lift,
}
use node_jwt_redis_session_a.Redis.{Redis, has}
use node_jwt_redis_session_a.Redis.Client.{Client, Command, exec, request-clock}
use node_jwt_redis_session_a.Redis.Transaction.{Keeps, request-Keeps, exec-Keeps, exec-clock}
use node_jwt_redis_session_a.Sessions.{
  Codec, SessionRecord, session_key, user_sessions_key, session_prefix, delete_each,
  delete_all_script, first_error, results_or_empty, exec_or_throw, create, delete,
  delete_all_for_user, set_command, Failure, session_absolute_ttl_seconds,
}
use node_jwt_redis_session_a.Sessions.Views.{
  raw_at, raw_at-set_ex, raw_at-del, raw_at-del_index, raw_at-srem, raw_at-sadd, raw_at-expire,
  index_at, index_at-del,
}
use node_jwt_redis_session_a.Sessions.Effect.{KeptOrGone, KeptOrGone-if, KeptOrGone-trans}

first_error-state :
    {S : Type 0} (results : List (Option Failure)) (s : S) → (first_error results s).1 ≡ s
unfolding first_error
first_error-state [] s = refl
first_error-state (none ∷ results) s = first_error-state results s
first_error-state (some e ∷ results) s = refl

throw_first-state :
    {S : Type 0} (r : Result (Option (List (Option Failure)))) (s : S)
    → ((lift r >>= λ results. first_error (results_or_empty results)) s).1 ≡ s
throw_first-state (ok results) s = first_error-state (results_or_empty results) s
throw_first-state (err e) s = refl

module _ (R : Redis) where
  -- `execOrThrow` changes nothing beyond what the transaction does.
  pub exec_or_throw-state :
      (queue : List (Command R Done)) (c : Client R)
      → (exec_or_throw R queue c).1 ≡ (exec R queue c).1
  unfolding exec_or_throw
  exec_or_throw-state queue c = let (r, c') = exec R queue c in throw_first-state r c'

  -- DELETE_ALL_SCRIPT's loop deletes the listed sessions and no other.
  pub raw_at-delete_each :
      (ids : List Text) (t : ℕ) (s : R.Store) (j : Text)
      → raw_at R (delete_each R session_prefix ids t s) t j
        ≡ (if contains ids j then none else raw_at R s t j)
  unfolding delete_each contains session_key
  raw_at-delete_each [] t s j = refl
  raw_at-delete_each (id ∷ ids) t s j =
      ground (arith, raw_at-delete_each ids t (R.del (session_key id) t s) j, raw_at-del R id t s j)

  -- DELETE_ALL_SCRIPT's loop leaves the indices alone.
  pub index_at-delete_each :
      (ids : List Text) (t : ℕ) (s : R.Store) (user_id : Text)
      → index_at R (delete_each R session_prefix ids t s) t user_id ≡ index_at R s t user_id
  unfolding delete_each session_key
  index_at-delete_each [] t s user_id = refl
  index_at-delete_each (id ∷ ids) t s user_id =
      index_at-delete_each ids t (R.del (session_key id) t s) user_id
      ∙ index_at-del R id t s user_id

  pub raw_at-delete_all :
      (user_id : Text) (t : ℕ) (s : R.Store) (j : Text)
      → raw_at R (delete_all_script R (user_sessions_key user_id) session_prefix t s).1 t j
        ≡ (if has (index_at R s t user_id) j then none else raw_at R s t j)
  unfolding delete_all_script
  raw_at-delete_all user_id t s j =
      raw_at-del_index R user_id t _ j
      ∙ raw_at-delete_each (R.smembers (user_sessions_key user_id) t s) t s j
      ∙ rw (R.smembers_lem (user_sessions_key user_id) t s j)

  abbrev pub Kept : ℕ → Text → R.Store → R.Store → Type 0
  Kept t j s s' = KeptOrGone (raw_at R s t j) (raw_at R s' t j)

  Kept-refl : (t : ℕ) (j : Text) (s : R.Store) → Kept t j s s
  Kept-refl t j s = inl refl

  Kept-trans :
      (t : ℕ) (j : Text) (s s' s'' : R.Store) → Kept t j s s' → Kept t j s' s'' → Kept t j s s''
  Kept-trans t j s s' s'' = KeptOrGone-trans

  set_command-Kept :
      (id v : Text) (n t : ℕ) (s : R.Store) (j : Text)
      → (id === j) ≡ false
      → Kept t j s (set_command R (session_key id) v n t s).1
  set_command-Kept id v zero t s j apart = inl refl
  set_command-Kept id v (suc n) t s j apart =
      inl (raw_at-set_ex R id v (suc n) t s j (omega arith) ∙ rw apart)

  pub exec_or_throw-clock :
      (queue : List (Command R Done)) (c : Client R) → (exec_or_throw R queue c).1.clock ≡ c.clock
  exec_or_throw-clock queue c = rw (exec_or_throw-state queue c) (exec-clock R queue c)

  module _ (queue : List (Command R Done)) (c : Client R) (j : Text) where
    exec_or_throw-Kept :
        All (Keeps R c.clock (Kept c.clock j)) queue
        → Kept c.clock j c.store (exec_or_throw R queue c).1.store
    exec_or_throw-Kept h = rw (exec_or_throw-state queue c) (
        exec-Keeps R c.clock (Kept c.clock j) (Kept-refl c.clock j) (Kept-trans c.clock j) queue c
          refl h)

  -- A logout leaves every session alone or removes it.
  pub delete-Kept :
      (id user_id : Text) (c : Client R) (j : Text)
      → Kept c.clock j c.store (delete R id user_id c).1.store
  unfolding delete
  delete-Kept id user_id c j = exec_or_throw-Kept _ c j (
    λ s. KeptOrGone-if (id === j) (raw_at-del R id c.clock s j),
    (λ s. inl (raw_at-srem R user_id id c.clock s j), tt),
  )

  -- So does a logout from everywhere.
  pub delete_all_for_user-Kept :
      (user_id : Text) (c : Client R) (j : Text)
      → Kept c.clock j c.store (delete_all_for_user R user_id c).1.store
  unfolding delete_all_for_user
  delete_all_for_user-Kept user_id c j =
      request-Keeps R c.clock (Kept c.clock j) (Kept-refl c.clock j) (Kept-trans c.clock j) _ c refl
        (λ s.
          KeptOrGone-if (has (index_at R s c.clock user_id) j)
            (raw_at-delete_all user_id c.clock s j))

module _ (R : Redis) (C : Codec) where
  -- A new session leaves those under other identifiers alone.
  pub create-Kept :
      (date_now : ℕ) (id : Text) (r : SessionRecord) (c : Client R) (j : Text)
      → (id === j) ≡ false
      → Kept R c.clock j c.store (create R C date_now id r c).1.store
  unfolding create
  create-Kept date_now id r c j apart = exec_or_throw-Kept R _ c j (
    λ s. set_command-Kept R id (C.stringify r) _ c.clock s j apart,
    (
      λ s. inl (raw_at-sadd R r.user_id id c.clock s j),
      (
        λ s. inl (raw_at-expire R r.user_id session_absolute_ttl_seconds c.clock s j (omega arith)),
        tt,
      ),
    ),
  )

  pub create-clock :
      (date_now : ℕ) (id : Text) (r : SessionRecord) (c : Client R)
      → (create R C date_now id r c).1.clock ≡ c.clock
  unfolding create
  create-clock date_now id r c = exec_or_throw-clock R _ c

module _ (R : Redis) where
  pub delete-clock : (id user_id : Text) (c : Client R) → (delete R id user_id c).1.clock ≡ c.clock
  unfolding delete
  delete-clock id user_id c = exec_or_throw-clock R _ c

  pub delete_all_for_user-clock :
      (user_id : Text) (c : Client R) → (delete_all_for_user R user_id c).1.clock ≡ c.clock
  unfolding delete_all_for_user
  delete_all_for_user-clock user_id c = request-clock _ c
