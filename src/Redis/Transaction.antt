-- ===== src/Redis/Transaction.antt =====
-- MULTI and the single request under every fault: what each command keeps, they keep.
use node_jwt_redis_session_a.Base.{ℕ, ◌≡◌, List, [], ◌∷◌, Done, All, inl, subst, sym, inr}
use node_jwt_redis_session_a.Redis.{Redis}
use node_jwt_redis_session_a.Redis.Client.{
  Client, Command, Fault, delivered, rejected, lost, next_fault, later_faults, request, run_queue,
  exec, transaction, queued, request-store, request-clock,
}

-- The command takes every store to one that is in the relation.
abbrev pub Keeps :
    (R : Redis) (t : ℕ) (P : R.Store → R.Store → Type 0) {A : Type 0} → Command R A → Type 0
Keeps R t P command = (s : R.Store) → P s (command t s).1

module _ (R : Redis) (t : ℕ) (P : R.Store → R.Store → Type 0) (P-refl : (s : R.Store) → P s s)
    (P-trans : (s s' s'' : R.Store) → P s s' → P s' s'' → P s s'') where
  queued-Keeps :
      (f : Fault) (command : Command R Done) (s : R.Store)
      → Keeps R t P command
      → P s (queued f (command t) s).1
  queued-Keeps delivered command s h = h s
  queued-Keeps rejected command s h = P-refl s
  queued-Keeps lost command s h = P-refl s

  pub run_queue-Keeps :
      (queue : List (Command R Done)) (fs : List Fault) (s : R.Store)
      → All (Keeps R t P) queue
      → P s (run_queue R queue t fs s).1
  unfolding run_queue
  run_queue-Keeps [] fs s h = P-refl s
  run_queue-Keeps (command ∷ queue) fs s (h, hs) =
      P-trans s (queued (next_fault fs) (command t) s).1 _
        (queued-Keeps (next_fault fs) command s h) (run_queue-Keeps queue (later_faults fs) _ hs)

  pub request-Keeps :
      {A : Type 0} (command : Command R A) (c : Client R)
      → c.clock ≡ t
      → Keeps R t P command
      → P c.store (request command c).1.store
  request-Keeps command c e h = elim (request-store command c) [
    | inl still ↦ subst (P c.store) (sym still) (P-refl c.store)
    | inr ran ↦ subst (P c.store) (sym ran) (rw e (h c.store))
  ]

  pub exec-Keeps :
      (queue : List (Command R Done)) (c : Client R)
      → c.clock ≡ t
      → All (Keeps R t P) queue
      → P c.store (exec R queue c).1.store
  unfolding exec
  exec-Keeps queue c e h =
      request-Keeps (transaction R queue (later_faults c.faults)) c e
        (λ s. run_queue-Keeps queue (later_faults c.faults) s h)

pub exec-clock :
    (R : Redis) (queue : List (Command R Done)) (c : Client R) → (exec R queue c).1.clock ≡ c.clock
unfolding exec
exec-clock R queue c = request-clock (transaction R queue (later_faults c.faults)) c
