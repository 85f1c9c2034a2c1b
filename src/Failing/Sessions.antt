-- ===== src/Failing/Sessions.antt =====
-- Which errors SessionRepository throws.
use node_jwt_redis_session_a.Base.{
  Text, ℕ, refl, Option, none, some, List, [], ◌∷◌, Result, ok, err, Done, Bool-cases, inl, inr,
  All, delivered, rejected, lost, zero, suc, Fault-cases, Fault, lift, next_fault, later_faults,
  or_else, ◌===◌, leb,
}
use node_jwt_redis_session_a.Errors.{Failure}
use node_jwt_redis_session_a.Redis.{Redis, text_of}
use node_jwt_redis_session_a.Redis.Client.{
  Client, Command, request, exec, run_queue, error_of, queued,
}
use node_jwt_redis_session_a.Failing.{
  Fails, Foreign, ErrIs, Fails-bind, request-Fails, ErrIs-and_then, ErrIs-or_else,
}
use node_jwt_redis_session_a.Sessions
use node_jwt_redis_session_a.Sessions.{
  exec_or_throw, first_error, set_command, get_command, Codec, delete_all_script, SessionRecord,
  parse_stored, rotate_session, RotateParams, on_stored, syntax_error, rotate_raw, rotate_script,
  within_grace, decode_session,
}

-- The error of a queued command, if it is one, is a server's.
abbrev NoneOr : Option Failure → Type 0
NoneOr none = Unit
NoneOr (some e) = Foreign e

module _ (R : Redis) where
  queued-NoneOr :
      (command : Command R Done) (f : Fault) (t : ℕ) (s : R.Store)
      → Fails Foreign (command t)
      → NoneOr (error_of (queued f (command t) s).0)
  queued-NoneOr command delivered t s h = outcome (command t s).0 (h s)
    where
      outcome : (r : Result Done) → ErrIs Foreign r → NoneOr (error_of r)
      outcome (ok a) h = tt
      outcome (err e) h = h
  queued-NoneOr command rejected t s h = refl
  queued-NoneOr command lost t s h = refl

  run_queue-NoneOr :
      (queue : List (Command R Done)) (t : ℕ) (fs : List Fault) (s : R.Store)
      → All (λ (c : Command R Done). (t : ℕ) → Fails Foreign (c t)) queue
      → All NoneOr (run_queue R queue t fs s).0
  unfolding run_queue
  run_queue-NoneOr [] t fs s h = tt
  run_queue-NoneOr (command ∷ queue) t fs s (h, hs) = (
    queued-NoneOr command (next_fault fs) t s (h t),
    run_queue-NoneOr queue t (later_faults fs) (queued (next_fault fs) (command t) s).1 hs,
  )

  first_error-Fails :
      {S : Type 0} (errors : List (Option Failure))
      → All NoneOr errors
      → Fails {S = S} Foreign (first_error errors)
  unfolding first_error
  first_error-Fails [] h s = tt
  first_error-Fails (none ∷ errors) (h, hs) s = first_error-Fails errors hs s
  first_error-Fails (some e ∷ errors) (h, hs) s = h

  pub exec_or_throw-Fails :
      (queue : List (Command R Done))
      → All (λ (c : Command R Done). (t : ℕ) → Fails Foreign (c t)) queue
      → Fails {S = Client R} Foreign (exec_or_throw R queue)
  unfolding exec_or_throw exec request
  exec_or_throw-Fails queue h c = elim (Fault-cases (next_fault c.faults)) [
    | inl ran ↦ rw ran (
        first_error-Fails (run_queue R queue c.clock (later_faults c.faults) c.store).0
          (run_queue-NoneOr queue c.clock (later_faults c.faults) c.store h) _)
    | inr (inl refused) ↦ rw refused refl
    | inr (inr silent) ↦ rw silent refl
  ]

  pub set_command-Fails :
      (key value : Text) (n t : ℕ) → Fails {S = R.Store} Foreign (set_command R key value n t)
  set_command-Fails key value zero t s = refl
  set_command-Fails key value (suc n) t s = tt

  pub delete-Fails : (sid uid : Text) → Fails {S = Client R} Foreign (Sessions.delete R sid uid)
  unfolding Sessions.delete
  delete-Fails sid uid = exec_or_throw-Fails _ (λ t s. tt, (λ t s. tt, tt))

  pub delete_all_for_user-Fails :
      (uid : Text) → Fails {S = Client R} Foreign (Sessions.delete_all_for_user R uid)
  unfolding Sessions.delete_all_for_user delete_all_script
  delete_all_for_user-Fails uid = request-Fails Foreign _ refl (λ t s. tt)

module _ (R : Redis) (C : Codec) where
  pub create-Fails :
      (now : ℕ) (sid : Text) (r : SessionRecord)
      → Fails {S = Client R} Foreign (Sessions.create R C now sid r)
  unfolding Sessions.create
  create-Fails now sid r =
      exec_or_throw-Fails R _ (λ t s. set_command-Fails R _ _ _ t s, (λ t s. tt, (λ t s. tt, tt)))

  parse_stored-ErrIs : (o : Option Text) → ErrIs Foreign (parse_stored R C o)
  parse_stored-ErrIs none = tt
  parse_stored-ErrIs (some []) = tt
  parse_stored-ErrIs (some (c ∷ s)) =
      ErrIs-and_then Foreign (or_else (C.parse (c ∷ s)) syntax_error) (λ r. ok (some r))
        (ErrIs-or_else Foreign (C.parse (c ∷ s)) syntax_error refl) (λ r. tt)

  pub get-Fails : (sid : Text) → Fails {S = Client R} Foreign (Sessions.get R C sid)
  unfolding Sessions.get
  get-Fails sid =
      Fails-bind Foreign (request (get_command R _)) (λ o. lift (parse_stored R C o))
        (request-Fails Foreign _ refl (λ t s. tt)) (λ o s. parse_stored-ErrIs o)

  on_stored-ErrIs :
      (x : Result Done × R.Store) → ErrIs Foreign x.0 → ErrIs Foreign (on_stored R C x).0
  on_stored-ErrIs (ok a, s) h = tt
  on_stored-ErrIs (err e, s) h = h

  rotate_session-Fails :
      (key index id : Text) (p : RotateParams) (grace idle t : ℕ) (session : SessionRecord)
      → Fails {S = R.Store} Foreign (rotate_session R C key index p grace idle id session t)
  unfolding rotate_session
  rotate_session-Fails key index id p grace idle t session s =
      elim (Bool-cases (session.refresh_token_hash === p.presented_hash)) [
        | inl same ↦ elim (Bool-cases (leb session.absolute_expires_at p.now)) [
          | inl over ↦ rw (same, over) tt
          | inr live ↦ rw (same, live) (on_stored-ErrIs _ (set_command-Fails R _ _ _ t s))
        ]
        | inr other ↦ elim (Bool-cases (within_grace session p grace)) [
          | inl within ↦ rw (other, within) tt
          | inr late ↦ rw (other, late) tt
        ]
      ]

  rotate_raw-Fails :
      (key index id : Text) (p : RotateParams) (grace idle t : ℕ) (o : Option Text)
      → Fails {S = R.Store} Foreign (rotate_raw R C key index p grace idle id o t)
  unfolding rotate_raw
  rotate_raw-Fails key index id p grace idle t none s = tt
  rotate_raw-Fails key index id p grace idle t (some raw) s =
      Fails-bind Foreign (lift (decode_session R C (C.cjson_decode raw)))
        (λ session. rotate_session R C key index p grace idle id session t)
        (λ s. decoded (C.cjson_decode raw)) (rotate_session-Fails key index id p grace idle t) s
    where
      decoded : (o : Option SessionRecord) → ErrIs Foreign (decode_session R C o)
      decoded none = refl
      decoded (some r) = tt

  pub rotate-Fails :
      (sid uid : Text) (p : RotateParams)
      → Fails {S = Client R} Foreign (Sessions.rotate R C sid uid p)
  unfolding Sessions.rotate rotate_script
  rotate-Fails sid uid p =
      request-Fails Foreign _ refl
        (λ t s. rotate_raw-Fails _ _ _ p _ _ t (text_of (R.live s t _)) s)
