-- ===== src/Redis/Client.antt =====
-- The ioredis client: what the calls of the repositories give, faults included. Each request takes
-- the next fault of a list that stands for the network and the server's memory; where the list
-- ends, requests succeed.
pub use node_jwt_redis_session_a.Base.{
  Fault, delivered, rejected, lost, Fault-cases, next_fault, later_faults,
}
use node_jwt_redis_session_a.Base.{
  ℕ, Option, none, some, List, [], ◌∷◌, Exec, Result, ok, err, Done, drop, length, ◌≡◌, ◌⊎◌, inl,
  inr, arith,
}
use node_jwt_redis_session_a.Errors.{Failure, redis_failure}
use node_jwt_redis_session_a.Redis.{Redis}

pub record Client (R : Redis) : Type 0 where
  pub store : R.Store
  -- The server's clock, in milliseconds.
  pub clock : ℕ
  pub faults : List Fault

abbrev pub no_reply : Failure
no_reply = redis_failure "Connection is closed."

-- A command or a script that the server runs at once, at its time; it may reply with an error.
abbrev pub Command : Redis → Type 0 → Type 0
Command R A = ℕ → Exec R.Store A

module _ {R : Redis} {A : Type 0} where
  abbrev keep_store : Client R → Result A × R.Store → Result A × Client R
  keep_store c (r, s) = (r, record c { store = s })

  abbrev lose_reply : Client R → Result A × R.Store → Result A × Client R
  lose_reply c (r, s) = (err no_reply, record c { store = s })

  abbrev deliver : Fault → Command R A → Client R → Result A × Client R
  deliver delivered command c = keep_store c (command c.clock c.store)
  deliver rejected command c = (err no_reply, c)
  deliver lost command c = lose_reply c (command c.clock c.store)

  unfoldable pub request : Command R A → Exec (Client R) A
  request command c =
      deliver (next_fault c.faults) command (record c { faults = later_faults c.faults })

module _ {R : Redis} {A : Type 0} (command : Command R A) (c : Client R) where
  pub request-delivered :
      next_fault c.faults ≡ delivered
      → request command c ≡ (
        (command c.clock c.store).0,
        record c { faults = later_faults c.faults; store = (command c.clock c.store).1 },
      )
  unfolding request
  request-delivered h = rw h

  pub request-rejected :
      next_fault c.faults ≡ rejected
      → request command c ≡ (err no_reply, record c { faults = later_faults c.faults })
  unfolding request
  request-rejected h = rw h

  -- Whatever the fault, the store is as before or as the command leaves it, and the clock stands.
  pub request-store :
      ((request command c).1.store ≡ c.store)
      ⊎ ((request command c).1.store ≡ (command c.clock c.store).1)
  unfolding request
  request-store = elim (Fault-cases (next_fault c.faults)) [
    | inl ran ↦ inr (rw ran)
    | inr (inl refused) ↦ inl (rw refused)
    | inr (inr silent) ↦ inr (rw silent)
  ]

  -- A request had no effect and is rejected, or it ran and its reply may be lost.
  pub request-cases :
      (((request command c).0 ≡ err no_reply) × ((request command c).1.store ≡ c.store))
      ⊎ ((((request command c).0 ≡ (command c.clock c.store).0)
            ⊎ ((request command c).0 ≡ err no_reply))
          × ((request command c).1.store ≡ (command c.clock c.store).1))
  unfolding request
  request-cases = elim (Fault-cases (next_fault c.faults)) [
    | inl ran ↦ inr (inl (rw ran), rw ran)
    | inr (inl refused) ↦ inl (rw refused, rw refused)
    | inr (inr silent) ↦ inr (inr (rw silent), rw silent)
  ]

  pub request-clock : (request command c).1.clock ≡ c.clock
  unfolding request
  request-clock = ground arith

  pub request-faults : (request command c).1.faults ≡ later_faults c.faults
  unfolding request
  request-faults = elim (Fault-cases (next_fault c.faults)) [
    | inl ran ↦ rw ran
    | inr (inl refused) ↦ rw refused
    | inr (inr silent) ↦ rw silent
  ]

  -- A reply arrives only from a command that ran.
  pub request-ok :
      {a : A}
      → (request command c).0 ≡ ok a
      → ((command c.clock c.store).0 ≡ ok a)
        × ((request command c).1.store ≡ (command c.clock c.store).1)
  unfolding request
  request-ok h = elim (Fault-cases (next_fault c.faults)) [
    | inl ran ↦ (rw ran at h, rw ran)
    | inr (inl refused) ↦ absurd (cc (rw refused at h))
    | inr (inr silent) ↦ absurd (cc (rw silent at h))
  ]

abbrev pub error_of : Result Done → Option Failure
error_of (ok _) = none
error_of (err e) = some e

-- A refused command replies with an error, and the rest of the MULTI runs.
abbrev pub queued : {S : Type 0} → Fault → Exec S Done → Exec S Done
queued delivered command s = command s
queued _ command s = (err no_reply, s)

module _ (R : Redis) where
  -- The commands of a MULTI, run one after the other at one time.
  unfoldable pub run_queue :
      List (Command R Done) → ℕ → List Fault → R.Store → List (Option Failure) × R.Store
  run_queue [] t fs s = ([], s)
  run_queue (command ∷ queue) t fs s =
      let (r, s') = queued (next_fault fs) (command t) s in
      let (errors, s'') = run_queue queue t (later_faults fs) s' in (error_of r ∷ errors, s'')

  abbrev pub transaction :
      List (Command R Done) → List Fault → Command R (Option (List (Option Failure)))
  transaction queue fs t s = let (errors, s') = run_queue queue t fs s in (ok (some errors), s')

  -- The replies of `exec()`; `null` would mean that the transaction was aborted.
  unfoldable pub exec : List (Command R Done) → Exec (Client R) (Option (List (Option Failure)))
  unfolding request run_queue
  exec queue c =
      let (r, c') = request (transaction queue (later_faults c.faults)) c in
      (r, record c' { faults = drop (length queue) c'.faults })
