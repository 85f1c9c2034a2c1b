-- ===== src/Server/Shutdown.antt =====
-- src/server.ts: the graceful shutdown, as a machine whose events the environment chooses. The
-- process's natural end, where nothing is left to wait for, is Node's and is not an event.
pub mod Deadline
pub mod Late
pub mod Clean
use node_jwt_redis_session_a.Base.{
  ℕ, zero, suc, ◌+◌, ◌*◌, Bool, true, false, not, ◌||◌, ◌&&◌, Option, none, some, List, [], ◌∷◌,
  ◌++◌, map, leb, if◌then◌else◌,
}

abbrev pub shutdown_timeout_ms : ℕ
shutdown_timeout_ms = 10 * 1000

-- One call of `shutdown`.
pub record Run : Type 0 where
  -- When `forceExit` fires.
  pub deadline : ℕ
  -- `server.close` fails when the server was closed before.
  pub close_error : Bool
  -- The callback of `server.close` was called.
  pub closed : Bool
  -- What `pool.end()` and `redisClient.quit()` settled with: fulfilled or not.
  pub pool_end : Option Bool
  pub redis_quit : Option Bool

pub record Process : Type 0 where
  pub clock : ℕ
  -- The connections of the closed server are gone.
  pub drained : Bool
  pub runs : List Run
  -- The argument of `process.exit`.
  pub exited : Option ℕ

pub data Event : Type 0 where
  -- SIGTERM or SIGINT
  signal : Event
  connections_gone : Event
  pool_settled redis_settled : ℕ → Bool → Event
  elapse : ℕ → Event

abbrev pub is_empty_runs : List Run → Bool
is_empty_runs [] = true
is_empty_runs (run ∷ runs) = false

-- `shutdown(signal)`
abbrev pub new_run : Process → Run
new_run p = record {
  deadline = p.clock + shutdown_timeout_ms;
  close_error = not (is_empty_runs p.runs);
  closed = p.drained;
  pool_end = none;
  redis_quit = none;
}

abbrev pub close : Run → Run
close run = record run { closed = true }

-- A promise settles once, and is made in the callback of `server.close`.
abbrev settle_once : Bool → Option Bool → Bool → Option Bool
settle_once closed (some before) fulfilled = some before
settle_once true none fulfilled = some fulfilled
settle_once false none fulfilled = none

abbrev pub settle_pool : Bool → Run → Run
settle_pool fulfilled run = record run { pool_end = settle_once run.closed run.pool_end fulfilled }

abbrev pub settle_redis : Bool → Run → Run
settle_redis fulfilled run = record run {
  redis_quit = settle_once run.closed run.redis_quit fulfilled;
}

-- `hadError ? 1 : 0`, once `Promise.allSettled` has both results.
abbrev pub exit_code : Bool → Option Bool → Option Bool → Option ℕ
exit_code close_error (some pool) (some redis) =
    some (if close_error || not pool || not redis then 1 else 0)
exit_code close_error _ _ = none

abbrev pub exit_of : Run → Option ℕ
exit_of run = exit_code run.close_error run.pool_end run.redis_quit

abbrev first_code : Option ℕ → Option ℕ → Option ℕ
first_code (some n) later = some n
first_code none later = later

-- The exit of the first call that is through.
unfoldable pub exit_of_runs : List Run → Option ℕ
exit_of_runs [] = none
exit_of_runs (run ∷ runs) = first_code (exit_of run) (exit_of_runs runs)

unfoldable pub update : ℕ → (Run → Run) → List Run → List Run
update n f [] = []
update zero f (run ∷ runs) = f run ∷ runs
update (suc n) f (run ∷ runs) = run ∷ update n f runs

-- Whether some timer is due.
unfoldable pub is_due : ℕ → List Run → Bool
is_due clock [] = false
is_due clock (run ∷ runs) = leb run.deadline clock || is_due clock runs

abbrev settle_runs : Process → List Run → Process
settle_runs p runs = record p { runs = runs; exited = exit_of_runs runs }

abbrev pub step_live : Event → Process → Process
step_live signal p = record p { runs = p.runs ++ new_run p ∷ [] }
step_live connections_gone p =
    if is_empty_runs p.runs then p else record p { drained = true; runs = map close p.runs }
step_live (pool_settled n fulfilled) p = settle_runs p (update n (settle_pool fulfilled) p.runs)
step_live (redis_settled n fulfilled) p = settle_runs p (update n (settle_redis fulfilled) p.runs)
step_live (elapse ms) p = record p {
  clock = p.clock + ms;
  exited = if is_due (p.clock + ms) p.runs then some 1 else none;
}

-- Nothing happens after `process.exit`, but time passes.
abbrev step_by : Option ℕ → Event → Process → Process
step_by none event p = step_live event p
step_by (some code) (elapse ms) p = record p { clock = p.clock + ms }
step_by (some code) event p = p

unfoldable pub step : Event → Process → Process
unfolding exit_of_runs update is_due
step event p = step_by p.exited event p

unfoldable pub run_events : List Event → Process → Process
run_events [] p = p
run_events (event ∷ events) p = run_events events (step event p)

-- A process that serves requests.
abbrev pub started : Process
started = record { clock = 0; drained = false; runs = []; exited = none }
