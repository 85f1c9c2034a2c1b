-- ===== src/Throttle/Tests.antt =====
-- The throttle at concrete values: an account without failures, then seven.
use node_jwt_redis_session_a.Base.{Text, codes, ◌≡◌, refl, none, [], ◌∷◌, ok, err, arith}
use node_jwt_redis_session_a.Redis.Client.{Client}
use node_jwt_redis_session_a.Redis.Sample.{sample}
use node_jwt_redis_session_a.Throttle.{
  default_options, delay, assert_not_throttled, reset, too_many,
}
use node_jwt_redis_session_a.Throttle.Backoff.{IsPositive}
use node_jwt_redis_session_a.Throttle.Streak.{IsFresh, fail_each}
use node_jwt_redis_session_a.Throttle.Guard.{assert_not_throttled-fail_each, reset-IsFresh}

abbrev same_text : Text → Text
same_text s = s

abbrev name : Text
name = codes "ada"

abbrev client : Client sample
client = record { store = λ key. none; clock = 1000; faults = [] }

abbrev positive : IsPositive default_options
positive = record { base = omega arith; most = omega arith; window = omega arith }

client-IsFresh : IsFresh sample same_text default_options positive name client
client-IsFresh = record { calm = refl; uncounted = refl; unlocked = refl }

assert_not_throttled-fail_each_example :
    (assert_not_throttled sample same_text default_options name (
      fail_each sample same_text default_options positive name
        (1 ∷ 2 ∷ 3 ∷ 4 ∷ 5 ∷ 6 ∷ 7 ∷ [])
        client)).0
    ≡ err (too_many sample default_options (delay default_options 2))
assert_not_throttled-fail_each_example =
    assert_not_throttled-fail_each sample same_text default_options positive name client 1
      (2 ∷ 3 ∷ 4 ∷ 5 ∷ 6 ∷ 7 ∷ []) client-IsFresh (omega arith)

reset-IsFresh_example :
    let c' = (reset sample same_text default_options name client).1 in
    ((reset sample same_text default_options name client).0 ≡ ok tt)
    × IsFresh sample same_text default_options positive name c'
    × ((assert_not_throttled sample same_text default_options name c').0 ≡ ok tt)
reset-IsFresh_example = reset-IsFresh sample same_text default_options positive name client refl
