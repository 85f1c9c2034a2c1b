-- ===== src/Sessions.antt =====
-- src/repositories/SessionRepository.ts: the sessions in Redis, with its Lua scripts.
mod Records
pub mod Keys
pub mod Views
pub mod Rotation
pub mod Rotate
pub mod Effect
pub mod Operations
pub mod Schedule
pub mod Transactions
pub mod Success
pub mod Reading
pub mod Revocation
pub mod Ideal
pub mod Sample
mod Tests
use node_jwt_redis_session_a.Base.{
  and_then, or_else, Text, codes, ℕ, zero, suc, ◌+◌, ◌-◌, ◌*◌, ◌/◌, ◌<◌, ◌^◌, min, ◌≡◌, refl, arith,
  Bool, true, false, not, ◌&&◌, Option, none, some, List, [], ◌∷◌, ◌++◌, length, leb, ltb, ◌===◌,
  ◌==◌, if◌then◌else◌, Exec, Result, ok, err, Done, pure, throw, lift, ◌>>=◌, ◌>>◌,
}
use node_jwt_redis_session_a.Errors.{Failure, redis_failure, js_error}
use node_jwt_redis_session_a.Account.{UserRole}
use node_jwt_redis_session_a.Redis.{Redis, text_of}
use node_jwt_redis_session_a.Redis.Client.{Client, Command, request, exec}
pub use Records.{
  session_idle_ttl_seconds, session_absolute_ttl_seconds, refresh_grace_period_ms, SessionRecord,
  RotateParams, RotateOutcome, IsPrecise, Codec, rotated, concurrent, reused, missing,
}

abbrev pub session_prefix : Text
session_prefix = codes "session:"

unfoldable pub session_key : Text → Text
session_key session_id = session_prefix ++ session_id

unfoldable pub user_sessions_key : Text → Text
user_sessions_key user_id = codes "user_sessions:" ++ user_id

-- `Math.ceil(ms / 1000)`, for a positive number of milliseconds.
abbrev pub ceil_seconds : ℕ → ℕ
ceil_seconds ms = (ms + 999) / 1000

abbrev pub invalid_expire_time : Failure
invalid_expire_time = redis_failure "ERR invalid expire time in 'set' command"

-- The loop of `execOrThrow`: the first error is thrown.
unfoldable pub first_error : {S : Type 0} → List (Option Failure) → Exec S Done
first_error [] = pure tt
first_error (none ∷ results) = first_error results
first_error (some e ∷ results) = throw e

abbrev results_or_empty : Option (List (Option Failure)) → List (Option Failure)
results_or_empty none = []
results_or_empty (some results) = results

module _ (R : Redis) where
  unfoldable pub exec_or_throw : List (Command R Done) → Exec (Client R) Done
  exec_or_throw queue = exec R queue >>= λ results. first_error (results_or_empty results)

  -- `.set(key, value, 'EX', ttl)`; Redis refuses a number of seconds that is not positive.
  abbrev pub set_command : Text → Text → ℕ → Command R Done
  set_command key value zero t s = (err invalid_expire_time, s)
  set_command key value (suc n) t s = (ok tt, R.set_ex key value (suc n) t s)

  pub set_command_positive :
      (key value : Text) (n t : ℕ) (s : R.Store)
      → 0 < n
      → set_command key value n t s ≡ (ok tt, R.set_ex key value n t s)
  set_command_positive key value zero t s h = absurd (omega arith)
  set_command_positive key value (suc n) t s h = refl

  abbrev sadd_command : Text → Text → Command R Done
  sadd_command key member t s = (ok tt, R.sadd key member t s)

  abbrev expire_command : Text → ℕ → Command R Done
  expire_command key seconds t s = (ok tt, R.expire key seconds t s)

  abbrev pub del_command : Text → Command R Done
  del_command key t s = (ok tt, R.del key t s)

  abbrev srem_command : Text → Text → Command R Done
  srem_command key member t s = (ok tt, R.srem key member t s)

  abbrev pub get_command : Text → Command R (Option Text)
  get_command key t s = (ok (text_of (R.live s t key)), s)

  -- The loop of DELETE_ALL_SCRIPT.
  unfoldable pub delete_each : Text → List Text → ℕ → R.Store → R.Store
  delete_each prefix [] t s = s
  delete_each prefix (id ∷ ids) t s = delete_each prefix ids t (R.del (prefix ++ id) t s)

  -- DELETE_ALL_SCRIPT
  unfoldable pub delete_all_script : Text → Text → Command R ℕ
  delete_all_script index prefix t s =
      let ids = R.smembers index t s in
      (ok (length ids), R.del index t (delete_each prefix ids t s))

-- `s.previousRefreshTokenHash == presented and s.rotatedAt and (now - s.rotatedAt) <= grace`; in
-- Lua every number is true, 0 included.
abbrev pub within_grace : SessionRecord → RotateParams → ℕ → Bool
within_grace session p grace = elim session.previous_refresh_token_hash [
  | none ↦ false
  | some previous ↦
      previous === p.presented_hash
      && elim session.rotated_at [ none ↦ false | some at ↦ leb (p.now - at) grace ]
]

abbrev pub rotated_ttl : SessionRecord → RotateParams → ℕ → ℕ
rotated_ttl session p idle = min idle (ceil_seconds (session.absolute_expires_at - p.now))

abbrev pub rotated_record : SessionRecord → RotateParams → ℕ → SessionRecord
rotated_record session p idle = record session {
  previous_refresh_token_hash = some p.presented_hash;
  refresh_token_hash = p.new_hash;
  role = p.role;
  rotated_at = some p.now;
  expires_at = p.now + rotated_ttl session p idle * 1000;
}

abbrev pub syntax_error : Failure
syntax_error = js_error "SyntaxError: Unexpected token in JSON"

abbrev pub undecodable : Failure
undecodable = redis_failure "ERR Expected value but found invalid token"

module _ (R : Redis) (C : Codec) where
  abbrev answer : RotateOutcome → Command R RotateOutcome
  answer outcome t s = (ok outcome, s)

  -- The branches of ROTATE_SCRIPT that delete the session.
  abbrev revoke : Text → Text → Text → RotateOutcome → Command R RotateOutcome
  revoke key index id outcome t s = (ok outcome, R.srem index id t (R.del key t s))

  -- The script returns 'rotated' unless its SET raises.
  abbrev pub on_stored : Result Done × R.Store → Result RotateOutcome × R.Store
  on_stored (ok _, s) = (ok rotated, s)
  on_stored (err e, s) = (err e, s)

  abbrev store_rotated : Text → SessionRecord → ℕ → Command R RotateOutcome
  store_rotated key session ttl t s = on_stored (set_command R key (C.cjson_encode session) ttl t s)

  -- ROTATE_SCRIPT from its comparison on; `grace` is ARGV[5], `idle` is ARGV[6].
  unfoldable pub rotate_session :
      Text → Text → RotateParams → ℕ → ℕ → Text → SessionRecord → Command R RotateOutcome
  rotate_session key index p grace idle id session =
      if session.refresh_token_hash === p.presented_hash
      then (if leb session.absolute_expires_at p.now
          then revoke key index id missing
          else store_rotated key (rotated_record session p idle) (rotated_ttl session p idle))
      else if within_grace session p grace
      then answer concurrent
      else revoke key index id reused

  abbrev pub decode_session : Option SessionRecord → Result SessionRecord
  decode_session none = err undecodable
  decode_session (some session) = ok session

  unfoldable pub rotate_raw :
      Text → Text → RotateParams → ℕ → ℕ → Text → Option Text → Command R RotateOutcome
  unfolding rotate_session
  rotate_raw key index p grace idle id none t s = (ok missing, s)
  rotate_raw key index p grace idle id (some raw) t s =
      (lift (decode_session (C.cjson_decode raw)) >>= λ session.
      rotate_session key index p grace idle id session t)
        s

  -- ROTATE_SCRIPT
  unfoldable pub rotate_script : Text → Text → RotateParams → ℕ → ℕ → Text → Command R RotateOutcome
  unfolding rotate_raw
  rotate_script key index p grace idle id t s =
      rotate_raw key index p grace idle id (text_of (R.live s t key)) t s

  abbrev pub parse_stored : Option Text → Result (Option SessionRecord)
  parse_stored none = ok none
  parse_stored (some []) = ok none
  parse_stored (some (c ∷ s)) = and_then (or_else (C.parse (c ∷ s)) syntax_error) (λ r. ok (some r))

  unfoldable pub get : Text → Exec (Client R) (Option SessionRecord)
  get session_id = do
    stored ← request (get_command R (session_key session_id))
    lift (parse_stored stored)

  -- `date_now` is the clock of the Node process, which need not be the server's.
  unfoldable pub create : ℕ → Text → SessionRecord → Exec (Client R) Done
  create date_now session_id session = exec_or_throw R (
      set_command R (session_key session_id) (C.stringify session)
        (min session_idle_ttl_seconds (ceil_seconds (session.absolute_expires_at - date_now)))
      ∷ sadd_command R (user_sessions_key session.user_id) session_id
      ∷ expire_command R (user_sessions_key session.user_id) session_absolute_ttl_seconds
      ∷ [])

  unfoldable pub rotate : Text → Text → RotateParams → Exec (Client R) RotateOutcome
  rotate session_id user_id p = request (
      rotate_script (session_key session_id) (user_sessions_key user_id) p refresh_grace_period_ms
        session_idle_ttl_seconds session_id)

module _ (R : Redis) where
  unfoldable pub delete : Text → Text → Exec (Client R) Done
  delete session_id user_id = exec_or_throw R (
      del_command R (session_key session_id)
      ∷ srem_command R (user_sessions_key user_id) session_id
      ∷ [])

  unfoldable pub delete_all_for_user : Text → Exec (Client R) ℕ
  delete_all_for_user user_id =
      request (delete_all_script R (user_sessions_key user_id) session_prefix)
