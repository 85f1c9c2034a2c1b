-- ===== src/Server/Tests.antt =====
-- The application, its readiness and its shutdown at concrete values.
use node_jwt_redis_session_a.Base.{
  codes, ℕ, ◌+◌, ◌≤◌, ◌≡◌, ◌↔◌, ◌⊎◌, refl, true, none, some, [], ◌∷◌, List, ok, arith, Done,
}
use node_jwt_redis_session_a.Platform.Sample.{platform}
use node_jwt_redis_session_a.Platform.Scene.{world}
use node_jwt_redis_session_a.Routes.{default_rate_limits, get_method}
use node_jwt_redis_session_a.Routes.Sample.{limiter, matching, under, bearer_request}
use node_jwt_redis_session_a.Server.Readiness.{Promise, settles, hangs, readiness}
use node_jwt_redis_session_a.Server.Ready.{InTime, readiness-answers}
use node_jwt_redis_session_a.Server.Application.{
  Express, AppOptions, Probes, readable, destination, create_app,
}
use node_jwt_redis_session_a.Server.Documented.{DescribedAt, create_app-DescribedAt}
use node_jwt_redis_session_a.Server.Shutdown.{
  Event, signal, connections_gone, pool_settled, redis_settled, elapse, run_events, step, started,
  exit_of_runs, update, is_due,
}
use node_jwt_redis_session_a.Server.Shutdown.Deadline.{run_events-exits}
use node_jwt_redis_session_a.Server.Shutdown.Clean.{Graceful, run_events-zero}

abbrev express : Express
express = record { matches = matching; under = under }

abbrev options : AppOptions
options = record {
  rate_limits = default_rate_limits;
  metrics_token = some (codes "m");
  node_env = none;
}

-- PostgreSQL answers after 3 milliseconds, Redis never.
abbrev select_one : Promise Done
select_one = settles 3 (ok tt)

abbrev ping : Promise Done
ping = hangs

abbrev probes : Probes
probes = record { select_one = select_one; ping = ping; registry = none }

create_app-DescribedAt_example :
    DescribedAt platform limiter express options probes
      (destination express get_method (codes "/v1/users/me"))
      get_method
      (create_app platform limiter express options probes get_method
        (codes "/v1/users/me")
        (readable bearer_request)
        world).0
create_app-DescribedAt_example =
    create_app-DescribedAt platform limiter express options probes get_method (codes "/v1/users/me")
      bearer_request world

readiness-answers_example :
    ((readiness select_one ping).0 ≤ 2000)
    × (((readiness select_one ping).1.status ≡ 200) ↔ (InTime 2000 select_one × InTime 2000 ping))
    × (((readiness select_one ping).1.status ≡ 200) ⊎ ((readiness select_one ping).1.status ≡ 503))
readiness-answers_example = readiness-answers select_one ping

-- A second signal, connections that stay open, and ten seconds.
abbrev stuck : List Event
stuck = elapse 4000 ∷ signal ∷ elapse 6000 ∷ []

late :
    (run_events (elapse 5 ∷ []) started).clock + 10000
    ≤ (run_events stuck (step signal (run_events (elapse 5 ∷ []) started))).clock
unfolding run_events step is_due
late = omega arith

run_events-exits_example :
    (code : ℕ) × ((run_events stuck (step signal (run_events (elapse 5 ∷ []) started))).exited
      ≡ some code)
run_events-exits_example = run_events-exits (elapse 5 ∷ []) stuck late

abbrev graceful : List Event
graceful =
    signal
    ∷ elapse 20
    ∷ connections_gone
    ∷ redis_settled 0 true
    ∷ elapse 5
    ∷ pool_settled 0 true
    ∷ []

graceful_exit : (run_events graceful started).exited ≡ some 0
unfolding run_events step exit_of_runs update is_due
graceful_exit = refl

run_events-zero_example : Graceful graceful
run_events-zero_example = run_events-zero graceful graceful_exit
