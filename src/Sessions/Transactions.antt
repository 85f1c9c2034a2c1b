-- ===== src/Sessions/Transactions.antt =====
-- `execOrThrow`: where it reports a success, the whole transaction ran.
use node_jwt_redis_session_a.Base.{
  ℕ, ◌≡◌, refl, sym, ap, ◌∙◌, subst, Exec, lift, ◌>>=◌, Option, List, [], ◌∷◌, Result, ok, err,
  Done, Fault, delivered, rejected, lost,
}
use node_jwt_redis_session_a.Errors.{Failure}
use node_jwt_redis_session_a.Redis.{Redis}
use node_jwt_redis_session_a.Redis.Client.{
  Client, Command, exec, run_queue, transaction, queued, error_of, next_fault, later_faults,
  no_reply, request-ok,
}
use node_jwt_redis_session_a.Sessions.Operations.{exec_or_throw-state}
use node_jwt_redis_session_a.Sessions.{first_error, results_or_empty, exec_or_throw}

abbrev results_of : Result (Option (List (Option Failure))) → List (Option Failure)
results_of (ok results) = results_or_empty results
results_of (err e) = []

-- The commands run one after the other, and none replies with an error.
abbrev pub Ran : (R : Redis) → List (Command R Done) → ℕ → R.Store → R.Store → Type 0
Ran R [] t s s' = s' ≡ s
Ran R (command ∷ queue) t s s' = ((command t s).0 ≡ ok tt) × Ran R queue t (command t s).1 s'

error-ok :
    {S : Type 0} (r : Result Done) (errors : List (Option Failure)) (s : S)
    → (first_error (error_of r ∷ errors) s).0 ≡ ok tt
    → (r ≡ ok tt) × ((first_error errors s).0 ≡ ok tt)
unfolding first_error
error-ok (ok u) errors s h = (refl, h)
error-ok (err e) errors s h = absurd (cc)

queued-ok :
    {S T : Type 0} (f : Fault) (command : Exec S Done) (s : S) (errors : List (Option Failure))
    (c : T)
    → (first_error (error_of (queued f command s).0 ∷ errors) c).0 ≡ ok tt
    → ((command s).0 ≡ ok tt)
      × ((queued f command s).1 ≡ (command s).1)
      × ((first_error errors c).0 ≡ ok tt)
queued-ok delivered command s errors c h =
    let (done, rest) = error-ok (command s).0 errors c h in (done, refl, rest)
queued-ok rejected command s errors c h = absurd (cc (error-ok (err no_reply) errors c h).0)
queued-ok lost command s errors c h = absurd (cc (error-ok (err no_reply) errors c h).0)

throw_first-ok :
    {S : Type 0} (r : Result (Option (List (Option Failure)))) (s : S)
    → ((lift r >>= λ results. first_error (results_or_empty results)) s).0 ≡ ok tt
    → (results : Option (List (Option Failure))) × (r ≡ ok results)
      × ((first_error (results_or_empty results) s).0 ≡ ok tt)
throw_first-ok (ok results) s h = (results, refl, h)
throw_first-ok (err e) s h = absurd (cc)

module _ (R : Redis) where
  -- No error among the replies: every command ran.
  run_queue-Ran :
      (queue : List (Command R Done)) (t : ℕ) (fs : List Fault) (s : R.Store) (c : Client R)
      → (first_error (run_queue R queue t fs s).0 c).0 ≡ ok tt
      → Ran R queue t s (run_queue R queue t fs s).1
  unfolding run_queue first_error
  run_queue-Ran [] t fs s c h = refl
  run_queue-Ran (command ∷ queue) t fs s c h =
      let (first_ok, same, rest) = queued-ok (next_fault fs) (command t) s _ c h in
      (
        first_ok,
        subst
            (λ x.
              Ran R queue t x
                (run_queue R queue t (later_faults fs) (queued (next_fault fs) (command t) s).1).1)
            same
            (run_queue-Ran queue t (later_faults fs) (queued (next_fault fs) (command t) s).1 c
              rest),
      )

  -- A success of `execOrThrow`, whatever the faults: the whole transaction ran.
  pub exec_or_throw-Ran :
      (queue : List (Command R Done)) (c : Client R)
      → (exec_or_throw R queue c).0 ≡ ok tt
      → Ran R queue c.clock c.store (exec_or_throw R queue c).1.store
  unfolding exec_or_throw exec
  exec_or_throw-Ran queue c h =
      let (r, c') = exec R queue c in
      let (results, e, none_failed) = throw_first-ok r c' h in
      let (replied, stored) = request-ok (transaction R queue (later_faults c.faults)) c e in
      let fs = later_faults c.faults in
      let no_error : (first_error (run_queue R queue c.clock fs c.store).0 c').0 ≡ ok tt =
        subst (λ x. (first_error (results_of x) c').0 ≡ ok tt) (sym replied) none_failed in
      subst (Ran R queue c.clock c.store)
        (sym (ap (λ (x : Client R). x.store) (exec_or_throw-state R queue c) ∙ stored))
        (run_queue-Ran queue c.clock fs c.store c' no_error)
