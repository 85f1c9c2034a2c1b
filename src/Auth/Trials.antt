-- ===== src/Auth/Trials.antt =====
-- Rejected logins at concrete values.
use node_jwt_redis_session_a.Base.{
  All, ◌+◌, ◌-◌, ◌≤◌, Text, codes, ◌≡◌, refl, subst, ok, err, some, false, [], ◌∷◌, List, trim,
  trim_start, arith,
}
use node_jwt_redis_session_a.Account.{UserRecord}
use node_jwt_redis_session_a.Validation.{Body, object, text, parse_or_throw, member}
use node_jwt_redis_session_a.Validation.Schemas.{LoginInput, parse_login}
use node_jwt_redis_session_a.Redis.Sample.{sample}
use node_jwt_redis_session_a.Sessions.{session_key, user_sessions_key}
use node_jwt_redis_session_a.Users.{first_row, has_username}
use node_jwt_redis_session_a.Throttle.{
  too_many, delay, default_options, failures_key, lock_key, normalize,
}
use node_jwt_redis_session_a.Throttle.Backoff.{IsPositive}
use node_jwt_redis_session_a.Throttle.Streak.{IsFresh}
use node_jwt_redis_session_a.Platform.Sample.{platform}
use node_jwt_redis_session_a.Platform.Scene.{world, account}
use node_jwt_redis_session_a.Auth.{login}
use node_jwt_redis_session_a.Auth.Rejecting.{IsCalm, IsWrong}
use node_jwt_redis_session_a.Auth.Counting.{Rejected, login-wrong}
use node_jwt_redis_session_a.Auth.Pace.{waits}
use node_jwt_redis_session_a.Auth.Pacing.{checked, checked-waits}
use node_jwt_redis_session_a.Auth.Guessing.{elapsed, Guess, IsGuess, guess_each, login-guessed}

abbrev body_of : Text → Body
body_of password =
    object ((codes "username", text (codes "ada")) ∷ (codes "password", text password) ∷ [])

abbrev wrong_input : LoginInput
wrong_input = record { username = codes "ada"; password = codes "no" }

wrong_parsed : parse_login platform.zod (body_of (codes "no")) ≡ ok wrong_input
unfolding parse_login parse_or_throw member trim trim_start
wrong_parsed = refl

right_parsed :
    parse_login platform.zod (body_of (codes "pw"))
    ≡ ok (record { username = codes "ada"; password = codes "pw" })
unfolding parse_login parse_or_throw member trim trim_start
right_parsed = refl

abbrev positive : IsPositive platform.throttle
positive = record { base = omega arith; most = omega arith; window = omega arith }

account_found :
    first_row (has_username platform.postgres (codes "ada")) world.pool.db ≡ some account
account_found = refl

password_differs : platform.bcrypt.compare (codes "no") account.password_hash ≡ false
password_differs = refl

wrong_input-IsWrong : IsWrong platform world.pool.db wrong_input
wrong_input-IsWrong u found =
    let same : some account ≡ some u = cc (found, account_found) in
    let same' : account ≡ u = cc (same) in
    subst (λ (x : UserRecord). platform.bcrypt.compare (codes "no") x.password_hash ≡ false) same'
      password_differs

world-IsCalm : IsCalm platform world
world-IsCalm = record { redis = refl; postgres = refl }

world-IsFresh :
    IsFresh platform.redis platform.to_lower platform.throttle positive (codes "ada") world.client
unfolding failures_key lock_key normalize session_key user_sessions_key trim trim_start
world-IsFresh = record { calm = refl; uncounted = refl; unlocked = refl }

login-wrong_example :
    Rejected platform positive wrong_input world (login platform (body_of (codes "no")) world)
login-wrong_example =
    login-wrong platform positive wrong_input (body_of (codes "no")) world wrong_parsed world-IsCalm
      (sample.ttl-none (lock_key platform.to_lower (codes "ada")) 1000 world.client.store
        world-IsFresh.unlocked)
      wrong_input-IsWrong

abbrev guess : Guess
guess = record { gap = 7; body = body_of (codes "no"); password = codes "no" }

guess-IsGuess : IsGuess platform positive (codes "ada") world.pool.db guess
guess-IsGuess = record { parsed = wrong_parsed; wrong = wrong_input-IsWrong }

abbrev more : List Guess
more = guess ∷ guess ∷ guess ∷ guess ∷ guess ∷ []

login-guessed_example :
    login platform (body_of (codes "pw")) (guess_each platform (guess ∷ more) world) ≡ (
      err (too_many sample default_options (delay default_options 1)),
      guess_each platform (guess ∷ more) world,
    )
login-guessed_example =
    login-guessed platform positive (codes "ada") world guess more (body_of (codes "pw"))
      (codes "pw") world-IsCalm world-IsFresh
      (
        guess-IsGuess,
        (guess-IsGuess, (guess-IsGuess, (guess-IsGuess, (guess-IsGuess, (guess-IsGuess, tt))))),
      )
      (omega arith) refl right_parsed

abbrev slow : Guess
slow = record { gap = 1800; body = body_of (codes "no"); password = codes "no" }

abbrev slower : List Guess
slower = slow ∷ slow ∷ slow ∷ slow ∷ slow ∷ slow ∷ slow ∷ []

slow-IsGuess : IsGuess platform positive (codes "ada") world.pool.db slow
slow-IsGuess = record { parsed = wrong_parsed; wrong = wrong_input-IsWrong }

slower-All : All (IsGuess platform positive (codes "ada") world.pool.db) (slow ∷ slower)
slower-All = (
  slow-IsGuess,
  (
    slow-IsGuess,
    (
      slow-IsGuess,
      (slow-IsGuess, (slow-IsGuess, (slow-IsGuess, (slow-IsGuess, (slow-IsGuess, tt))))),
    ),
  ),
)

checked-waits_example :
    waits platform.throttle (checked platform (slow ∷ slower) world - (5 + 1)) ≤ elapsed slower
checked-waits_example =
    checked-waits platform positive (codes "ada") slow slower world world-IsCalm world-IsFresh
      slower-All (omega arith)
