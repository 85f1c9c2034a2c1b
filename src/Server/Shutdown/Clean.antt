-- ===== src/Server/Shutdown/Clean.antt =====
-- What stands behind the exit code 0.
use node_jwt_redis_session_a.Base.{
  if◌then◌else◌, ℕ, zero, suc, ◌+◌, ◌≡◌, refl, sym, ◌∙◌, Bool, true, false, Option, none, some,
  List, [], ◌∷◌, map, All,
}
use node_jwt_redis_session_a.Server.Shutdown.{
  Run, Process, Event, signal, connections_gone, pool_settled, redis_settled, elapse, is_due,
  update, close, settle_pool, settle_redis, step, run_events, started, exit_of_runs, settle_once,
}
use node_jwt_redis_session_a.Server.Shutdown.Deadline.{step-over}
use node_jwt_redis_session_a.Server.Shutdown.Late.{
  Late, one_zero, first_exit, update-Late, map-close-Late, append-Late,
}

-- How the first promise of `pool.end()`, or of `redisClient.quit()`, settles in a trace, if it does:
-- that of the first call of `shutdown`.
abbrev pub first_pool : List Event → Option Bool
first_pool [] = none
first_pool (pool_settled zero fulfilled ∷ events) = some fulfilled
first_pool (_ ∷ events) = first_pool events

abbrev pub first_redis : List Event → Option Bool
first_redis [] = none
first_redis (redis_settled zero fulfilled ∷ events) = some fulfilled
first_redis (_ ∷ events) = first_redis events

abbrev pub Ends : List Event → Type 0
Ends events = (first_pool events ≡ some true) × (first_redis events ≡ some true)

-- The connections end, and after that both clients do.
abbrev pub Drains : List Event → Type 0
Drains [] = ⊥
Drains (connections_gone ∷ events) = Ends events
Drains (_ ∷ events) = Drains events

-- There is a first signal, and after it the connections end, and after that both clients do.
abbrev pub Graceful : List Event → Type 0
Graceful [] = ⊥
Graceful (signal ∷ events) = Drains events
Graceful (_ ∷ events) = Graceful events

-- A process that has exited stays so.
exited-stays :
    (events : List Event) (p : Process) (code : ℕ)
    → p.exited ≡ some code
    → (run_events events p).exited ≡ some code
unfolding run_events
exited-stays [] p code e = e
exited-stays (event ∷ events) p code e =
    exited-stays events (step event p) code (step-over event p code e)

abbrev Process_of : ℕ → Bool → List Run → Option ℕ → Process
Process_of clock drained runs exited = record {
  clock = clock;
  drained = drained;
  runs = runs;
  exited = exited;
}

timer_code : (b : Bool) → ◌≡◌ {A = Option ℕ} (if b then some 1 else none) (some 0) → ⊥
timer_code true e = one_zero e
timer_code false e = cc

-- What has settled, or else what is the first to settle.
abbrev or_first : Option Bool → Option Bool → Option Bool
or_first (some before) later = some before
or_first none later = later

or_first-settle_once :
    (closed : Bool) (o : Option Bool) (b : Bool) (later : Option Bool)
    → closed ≡ true
    → or_first (settle_once closed o b) later ≡ some true
    → or_first o (some b) ≡ some true
or_first-settle_once closed (some before) b later c e = e
or_first-settle_once true none b later c e = e
or_first-settle_once false none b later c e = absurd (cc)

-- From when the connections have ended: an exit with 0 needs both clients of the first call.
ends :
    (events : List Event) (t : ℕ) (d : Bool) (run : Run) (rest : List Run) (x : Option ℕ)
    → run.closed ≡ true
    → All Late rest
    → (x ≡ some 0 → (run.pool_end ≡ some true) × (run.redis_quit ≡ some true))
    → (run_events events (Process_of t d (run ∷ rest) x)).exited ≡ some 0
    → (or_first run.pool_end (first_pool events) ≡ some true)
      × (or_first run.redis_quit (first_redis events) ≡ some true)
unfolding run_events step exit_of_runs update is_due
ends events t d run rest (some code) closed late zero_code e =
    let same = exited-stays events (Process_of t d (run ∷ rest) (some code)) code refl in
    let (pool, redis) = zero_code (sym same ∙ e) in (rw pool refl, rw redis refl)
ends [] t d run rest none closed late zero_code e = absurd (cc)
ends (signal ∷ events) t d run rest none closed late zero_code e =
    ends events t d run _ none closed (append-Late rest _ late refl) zero_code e
ends (connections_gone ∷ events) t d run rest none closed late zero_code e =
    ends events t true (close run) (map close rest) none refl (map-close-Late rest late) zero_code e
ends (pool_settled zero b ∷ events) t d run rest none closed late zero_code e =
    let (pool, redis) =
      ends events t d (settle_pool b run) rest _ closed late
        (first_exit (settle_pool b run) rest late) e in
    (or_first-settle_once run.closed run.pool_end b (first_pool events) closed pool, redis)
ends (pool_settled (suc n) b ∷ events) t d run rest none closed late zero_code e =
    let late' = update-Late n (settle_pool b) rest (λ r l. l) late in
    ends events t d run (update n (settle_pool b) rest) _ closed late' (first_exit run _ late') e
ends (redis_settled zero b ∷ events) t d run rest none closed late zero_code e =
    let (pool, redis) =
      ends events t d (settle_redis b run) rest _ closed late
        (first_exit (settle_redis b run) rest late) e in
    (pool, or_first-settle_once run.closed run.redis_quit b (first_redis events) closed redis)
ends (redis_settled (suc n) b ∷ events) t d run rest none closed late zero_code e =
    let late' = update-Late n (settle_redis b) rest (λ r l. l) late in
    ends events t d run (update n (settle_redis b) rest) _ closed late' (first_exit run _ late') e
ends (elapse ms ∷ events) t d run rest none closed late zero_code e =
    ends events (t + ms) d run rest _ closed late (λ z. absurd (timer_code _ z)) e

-- A first call that waits for the connections to end.
abbrev waiting : ℕ → Bool → Run
waiting deadline close_error = record {
  deadline = deadline;
  close_error = close_error;
  closed = false;
  pool_end = none;
  redis_quit = none;
}

waiting_exit :
    (l : ℕ) (c : Bool) (rest : List Run)
    → All Late rest
    → exit_of_runs (waiting l c ∷ rest) ≡ some 0
    → ⊥
waiting_exit l c rest late e = cc ((first_exit (waiting l c) rest late e).0)

-- From the first signal: an exit with 0 needs the connections to end.
drains :
    (events : List Event) (t l : ℕ) (c : Bool) (rest : List Run) (x : Option ℕ)
    → All Late rest
    → (x ≡ some 0 → ⊥)
    → (run_events events (Process_of t false (waiting l c ∷ rest) x)).exited ≡ some 0
    → Drains events
unfolding run_events step exit_of_runs update is_due
drains events t l c rest (some code) late busy e =
    let same =
      exited-stays events (Process_of t false (waiting l c ∷ rest) (some code)) code refl in
    absurd (busy (sym same ∙ e))
drains [] t l c rest none late busy e = absurd (cc)
drains (signal ∷ events) t l c rest none late busy e =
    drains events t l c _ none (append-Late rest _ late refl) busy e
drains (connections_gone ∷ events) t l c rest none late busy e =
    ends events t true (close (waiting l c)) (map close rest) none refl (map-close-Late rest late)
      (λ z. absurd (busy z)) e
drains (pool_settled zero b ∷ events) t l c rest none late busy e =
    drains events t l c rest _ late (waiting_exit l c rest late) e
drains (pool_settled (suc n) b ∷ events) t l c rest none late busy e =
    let late' = update-Late n (settle_pool b) rest (λ r l'. l') late in
    drains events t l c _ _ late' (waiting_exit l c _ late') e
drains (redis_settled zero b ∷ events) t l c rest none late busy e =
    drains events t l c rest _ late (waiting_exit l c rest late) e
drains (redis_settled (suc n) b ∷ events) t l c rest none late busy e =
    let late' = update-Late n (settle_redis b) rest (λ r l'. l') late in
    drains events t l c _ _ late' (waiting_exit l c _ late') e
drains (elapse ms ∷ events) t l c rest none late busy e =
    drains events (t + ms) l c rest _ late (timer_code _) e

graceful :
    (events : List Event) (t : ℕ)
    → (run_events events (Process_of t false [] none)).exited ≡ some 0
    → Graceful events
unfolding run_events step exit_of_runs update is_due
graceful [] t e = absurd (cc)
graceful (signal ∷ events) t e = drains events t _ _ [] none tt (λ z. cc) e
graceful (connections_gone ∷ events) t e = graceful events t e
graceful (pool_settled n b ∷ events) t e = graceful events t e
graceful (redis_settled n b ∷ events) t e = graceful events t e
graceful (elapse ms ∷ events) t e = graceful events (t + ms) e

-- A process exits with 0 only if a signal came; after that, the first one, the server's connections
-- ended; and after that the promises of `pool.end()` and of `redisClient.quit()` that the first call
-- of `shutdown` made were both fulfilled, whatever the other events and their order.
pub run_events-zero :
    (events : List Event) → (run_events events started).exited ≡ some 0 → Graceful events
run_events-zero events e = graceful events 0 e
