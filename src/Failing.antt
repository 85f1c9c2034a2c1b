-- ===== src/Failing.antt =====
-- Which errors code may throw, and the statuses with which the error handler answers them.
pub mod Sessions
pub mod Repositories
pub mod Schemas
pub mod Profiles
pub mod Auth
use node_jwt_redis_session_a.Base.{
  ℕ, ◌≡◌, subst, Bool, true, false, ◌&&◌, ◌||◌, Option, none, some, List, [], ◌∷◌, ◌==◌, Exec,
  Result, ok, err, lift, catch, ◌>>=◌, and_then, or_else, inl, inr, arith, throw,
}
use node_jwt_redis_session_a.Errors.{Failure, app, status_code}
use node_jwt_redis_session_a.Redis.{Redis}
use node_jwt_redis_session_a.Redis.Client.{
  Client, Command, request, no_reply, next_fault, Fault-cases,
}
use node_jwt_redis_session_a.Postgres.{Postgres, Pool, Statement, query, no_connection}
use node_jwt_redis_session_a.Platform.{Platform, on_redis, on_postgres, World}

-- The status of the answer to an error.
abbrev pub status_of : Failure → ℕ
status_of (app e) = status_code e
status_of _ = 500

abbrev pub elem : ℕ → List ℕ → Bool
elem n [] = false
elem n (x ∷ xs) = let rest = elem n xs in x == n || rest

abbrev pub subset : List ℕ → List ℕ → Bool
subset [] ys = true
subset (x ∷ xs) ys = let rest = subset xs ys in elem x ys && rest

-- An error that is answered with one of some statuses.
abbrev pub In : List ℕ → Failure → Type 0
In codes e = elem (status_of e) codes ≡ true

pub elem-subset :
    (n : ℕ) (xs ys : List ℕ) → subset xs ys ≡ true → elem n xs ≡ true → elem n ys ≡ true
elem-subset n [] ys s h = absurd (cc)
elem-subset n (x ∷ xs) ys s h = ground (arith, elem-subset n xs ys)

-- The error of a result, if it is one, has a property.
abbrev pub ErrIs : {A : Type 0} → (Failure → Type 0) → Result A → Type 0
ErrIs P (ok a) = Unit
ErrIs P (err e) = P e

-- Every error that the code throws, in whatever state, has a property.
abbrev pub Fails : {S A : Type 0} → (Failure → Type 0) → Exec S A → Type 0
Fails P m = (s : _) → ErrIs P (m s).0

pub ErrIs-weaken :
    {A : Type 0} {P Q : Failure → Type 0} (r : Result A)
    → ((e : Failure) → P e → Q e)
    → ErrIs P r
    → ErrIs Q r
ErrIs-weaken (ok a) f h = tt
ErrIs-weaken (err e) f h = f e h

pub ErrIs-err :
    {A : Type 0} (P : Failure → Type 0) (r : Result A) {e : Failure} → ErrIs P r → r ≡ err e → P e
ErrIs-err P r h e = subst (ErrIs P) e h

module _ {S A : Type 0} where
  pub Fails-subset :
      (xs ys : List ℕ) (m : Exec S A) → subset xs ys ≡ true → Fails (In xs) m → Fails (In ys) m
  Fails-subset xs ys m s h w = ErrIs-weaken (m w).0 (λ e. elem-subset (status_of e) xs ys s) (h w)

module _ {S A B : Type 0} (P : Failure → Type 0) where
  ErrIs-then :
      (r : Result A) (f : A → Exec S B) (s : S)
      → ErrIs P r
      → ((a : A) → Fails P (f a))
      → ErrIs P ((lift r >>= f) s).0
  ErrIs-then (ok a) f s h k = k a s
  ErrIs-then (err e) f s h k = h

  pub Fails-bind :
      (m : Exec S A) (f : A → Exec S B) → Fails P m → ((a : A) → Fails P (f a)) → Fails P (m >>= f)
  Fails-bind m f hm hf s = ErrIs-then (m s).0 f (m s).1 (hm s) hf

module _ {A B : Type 0} (P : Failure → Type 0) where
  pub ErrIs-and_then :
      (r : Result A) (f : A → Result B)
      → ErrIs P r
      → ((a : A) → ErrIs P (f a))
      → ErrIs P (and_then r f)
  ErrIs-and_then (ok a) f hr hf = hf a
  ErrIs-and_then (err x) f hr hf = hr

ErrIs-any : {A : Type 0} (r : Result A) → ErrIs (λ e. Unit) r
ErrIs-any (ok a) = tt
ErrIs-any (err e) = tt

module _ {S A : Type 0} (P : Failure → Type 0) where
  ErrIs-settle :
      (Q : Failure → Type 0) (r : Result A) (handler : Failure → Exec S A) (s : S)
      → ErrIs Q r
      → ((e : Failure) → Q e → Fails P (handler e))
      → ErrIs P (catch (lift r) handler s).0
  ErrIs-settle Q (ok a) handler s q h = tt
  ErrIs-settle Q (err e) handler s q h = h e q s

  -- What a `catch` lets out is what its handler throws.
  pub Fails-catch :
      (m : Exec S A) (handler : Failure → Exec S A)
      → ((e : Failure) → Fails P (handler e))
      → Fails P (catch m handler)
  Fails-catch m handler h s =
      ErrIs-settle (λ e. Unit) (m s).0 handler (m s).1 (ErrIs-any (m s).0) (λ e _. h e)

  -- A `catch` that throws something else in place of what the block threw.
  pub Fails-rethrow :
      (Q : Failure → Type 0) (m : Exec S A) (f : Failure → Failure)
      → Fails Q m
      → ((e : Failure) → Q e → P (f e))
      → Fails P (catch m (λ e. throw (f e)))
  Fails-rethrow Q m f q h s =
      ErrIs-settle Q (m s).0 (λ e. throw (f e)) (m s).1 (q s) (λ e d s. h e d)

pub ErrIs-or_else :
    {A : Type 0} (P : Failure → Type 0) (o : Option A) (e : Failure) → P e → ErrIs P (or_else o e)
ErrIs-or_else P none e p = p
ErrIs-or_else P (some a) e p = tt

-- An error of a server or of the runtime, which the error handler answers with 500.
abbrev pub Foreign : Failure → Type 0
Foreign = In (500 ∷ [])

module _ {R : Redis} {A : Type 0} where
  pub request-Fails :
      (P : Failure → Type 0) (command : Command R A)
      → P no_reply
      → ((t : ℕ) → Fails P (command t))
      → Fails {S = Client R} P (request command)
  unfolding request
  request-Fails P command p h c = elim (Fault-cases (next_fault c.faults)) [
    | inl ran ↦ rw ran (h c.clock c.store)
    | inr (inl refused) ↦ rw refused p
    | inr (inr silent) ↦ rw silent p
  ]

module _ {P : Postgres} {A : Type 0} where
  pub query-Fails :
      (Q : Failure → Type 0) (statement : Statement P A)
      → Q no_connection
      → Fails Q statement
      → Fails {S = Pool P} Q (query statement)
  unfolding query
  query-Fails Q statement p h w = elim (Fault-cases (next_fault w.faults)) [
    | inl ran ↦ rw ran (h w.db)
    | inr (inl refused) ↦ rw refused p
    | inr (inr silent) ↦ rw silent p
  ]

module _ {F : Platform} {A : Type 0} (P : Failure → Type 0) where
  pub on_redis-Fails : (m : Exec (Client F.redis) A) → Fails P m → Fails P (on_redis {F = F} m)
  unfolding on_redis
  on_redis-Fails m h w = h w.client

  pub on_postgres-Fails :
      (m : Exec (Pool F.postgres) A) → Fails P m → Fails P (on_postgres {F = F} m)
  unfolding on_postgres
  on_postgres-Fails m h w = h w.pool

module _ {F : Platform} {A : Type 0} (xs : List ℕ) where
  -- A call of a repository, whose errors are the server's.
  pub redis-In :
      (m : Exec (Client F.redis) A)
      → subset (500 ∷ []) xs ≡ true
      → Fails Foreign m
      → Fails (In xs) (on_redis {F = F} m)
  redis-In m sub h = on_redis-Fails (In xs) m (Fails-subset (500 ∷ []) xs m sub h)

  pub postgres-In :
      (m : Exec (Pool F.postgres) A)
      → subset (500 ∷ []) xs ≡ true
      → Fails Foreign m
      → Fails (In xs) (on_postgres {F = F} m)
  postgres-In m sub h = on_postgres-Fails (In xs) m (Fails-subset (500 ∷ []) xs m sub h)

  pub lift-In :
      (ys : List ℕ) (r : Result A)
      → subset ys xs ≡ true
      → ErrIs (In ys) r
      → Fails {S = World F} (In xs) (lift r)
  lift-In ys r sub h = Fails-subset ys xs (lift r) sub (λ s. h)
