-- ===== src/Routes/Statuses.antt =====
-- The statuses with which the handlers and the limiters answer.
use node_jwt_redis_session_a.Base.{
  ◌≡◌, refl, List, [], ◌∷◌, ℕ, none, some, true, Exec, Result, ok, err, ◌>>=◌, lift, Option, subst,
  sym, ◌++◌,
}
use node_jwt_redis_session_a.Errors.{Failure, app, redis_failure, postgres_failure, js_error}
use node_jwt_redis_session_a.Failing.{
  elem-subset, on_redis-Fails, Fails, In, Foreign, ErrIs, elem, subset, status_of, Fails-subset,
}
use node_jwt_redis_session_a.Platform.{Platform, World, on_redis}
use node_jwt_redis_session_a.Http.{settle, Request, Response, async_handler, error_handler}
use node_jwt_redis_session_a.Routes.{admit, RateLimit, Handler, Limiter, limited, Failure}

-- The status of a handler's answer, or that of the answer to what it throws.
abbrev pub Answers : List ℕ → Result Response → Type 0
Answers xs (ok response) = elem response.status xs ≡ true
Answers xs (err e) = In xs e

module _ {S A : Type 0} (xs : List ℕ) where
  Answers-then :
      (r : Result A) (f : A → Exec S Response) (s : S)
      → ErrIs (In xs) r
      → ((a : A) (s : S) → Answers xs (f a s).0)
      → Answers xs ((lift r >>= f) s).0
  Answers-then (ok a) f s h k = k a s
  Answers-then (err e) f s h k = h

  -- What the block throws, with statuses among those, and then what the rest answers.
  pub Answers-bind :
      (ys : List ℕ) (m : Exec S A) (f : A → Exec S Response)
      → subset ys xs ≡ true
      → Fails (In ys) m
      → ((a : A) (s : S) → Answers xs (f a s).0)
      → (s : S) → Answers xs ((m >>= f) s).0
  Answers-bind ys m f sub h k s = Answers-then (m s).0 f (m s).1 (Fails-subset ys xs m sub h s) k

module _ (F : Platform) (xs : List ℕ) where
  -- Whatever the request and the state, the answer has one of the statuses.
  abbrev pub Statuses : (Request → World F → Response × World F) → Type 0
  Statuses handler = (request : Request) (w : World F) → elem (handler request w).0.status xs ≡ true

  error_handler-status : (e : Failure) (w : World F) → (error_handler F e w).0.status ≡ status_of e
  unfolding error_handler
  error_handler-status (app e) w = refl
  error_handler-status (redis_failure m) w = refl
  error_handler-status (postgres_failure code constraint) w = refl
  error_handler-status (js_error m) w = refl

  pub error_handler-elem :
      (e : Failure) (w : World F) → In xs e → elem (error_handler F e w).0.status xs ≡ true
  error_handler-elem e w h = subst (λ n. elem n xs ≡ true) (sym (error_handler-status e w)) h

  pub async_handler-elem :
      (handler : Exec (World F) Response)
      → ((w : World F) → Answers xs (handler w).0)
      → (w : World F) → elem (async_handler F handler w).0.status xs ≡ true
  async_handler-elem handler h w = settled (handler w).0 (handler w).1 (h w)
    where
      settled :
          (r : Result Response) (w : World F)
          → Answers xs r
          → elem (settle F (r, w)).0.status xs ≡ true
      settled (ok response) w h = h
      settled (err e) w h = error_handler-elem e w h

  module _ (L : RateLimit F.redis) (limiter : Limiter) where
    admit-elem :
        (handler : Handler F L) (request : Request) (r : Result (Option ℕ)) (w : World F)
        → elem 429 xs ≡ true
        → subset (500 ∷ []) xs ≡ true
        → Statuses handler
        → ErrIs Foreign r
        → elem (admit F L limiter handler request (r, w)).0.status xs ≡ true
    admit-elem handler request (ok none) w many sub h e = h request w
    admit-elem handler request (ok (some n)) w many sub h e = many
    admit-elem handler request (err x) w many sub h e =
        error_handler-elem x w (elem-subset (status_of x) (500 ∷ []) xs sub e)

    -- A limiter adds the status 429, and that of an error of Redis.
    pub limited-Statuses :
        (handler : Handler F L)
        → elem 429 xs ≡ true
        → subset (500 ∷ []) xs ≡ true
        → Statuses handler
        → Statuses (limited F L limiter handler)
    unfolding limited
    limited-Statuses handler many sub h request w =
        let count =
          L.hit (limiter.prefix ++ limiter.key_of request) limiter.window_ms limiter.max in
        admit-elem handler request (on_redis count w).0 (on_redis count w).1 many sub h
          (on_redis-Fails Foreign count (L.hit-Fails _ _ _) w)
