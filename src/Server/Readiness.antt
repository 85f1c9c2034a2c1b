-- ===== src/Server/Readiness.antt =====
-- src/server.ts: the checks of /ready, with their timeouts. Times are milliseconds since the checks
-- began.
use node_jwt_redis_session_a.Base.{
  ℕ, max, Bool, true, false, ◌&&◌, String, Result, ok, err, Done, if◌then◌else◌, ltb,
}
use node_jwt_redis_session_a.Errors.{js_error}
use node_jwt_redis_session_a.Http.{Response, reply, ready_payload}

-- A promise: it settles at a time, or never.
pub data Promise (A : Type 0) : Type 0 where
  settles : ℕ → Result A → Promise A
  hangs : Promise A

-- A promise that does settle.
pub record Settled (A : Type 0) : Type 0 where
  pub time : ℕ
  pub result : Result A

-- `withTimeout`: the race with a timer. Node runs a timer that is due before the callbacks of I/O, so
-- what settles as the timer fires is late.
unfoldable pub with_timeout : {A : Type 0} → Promise A → ℕ → Settled A
with_timeout (settles t r) ms =
    if ltb t ms
    then record { time = t; result = r }
    else record { time = ms; result = err (js_error "Timed out") }
with_timeout hangs ms = record { time = ms; result = err (js_error "Timed out") }

abbrev pub ready_check_timeout_ms : ℕ
ready_check_timeout_ms = 2000

-- `status === 'fulfilled'`
abbrev pub is_fulfilled : Result Done → Bool
is_fulfilled (ok _) = true
is_fulfilled (err e) = false

abbrev ok_or_error : Bool → String
ok_or_error true = "ok"
ok_or_error false = "error"

-- The response once both checks have settled.
abbrev pub ready_response : Bool → Bool → Response
ready_response postgres_ok redis_ok =
    reply (if postgres_ok && redis_ok then 200 else 503)
      (ready_payload (ok_or_error postgres_ok) (ok_or_error redis_ok))

-- The handler of /ready, for what `SELECT 1` and PING do: `Promise.allSettled` waits for both.
unfoldable pub readiness : Promise Done → Promise Done → ℕ × Response
readiness select_one ping =
    let postgres = with_timeout select_one ready_check_timeout_ms in
    let redis = with_timeout ping ready_check_timeout_ms in
    (
      max postgres.time redis.time,
      ready_response (is_fulfilled postgres.result) (is_fulfilled redis.result),
    )
