-- ===== src/Sessions/Ideal.antt =====
-- What SessionRepository means, without Redis, its texts and its clock: the sessions by their
-- identifiers, and which of them each user's index names.
pub mod Commands
pub mod Calls
pub mod Rotating
pub mod Refines
mod Tests
use node_jwt_redis_session_a.Base.{
  Text, ℕ, Bool, true, false, not, ◌&&◌, ◌||◌, Option, none, some, List, [], ◌∷◌, ◌===◌, leb,
  if◌then◌else◌, ◌≡◌, Exec, Done, pure, ◌>>=◌, ok, Result,
}
use node_jwt_redis_session_a.Redis.{Redis, has, is_set}
use node_jwt_redis_session_a.Redis.Client.{Client}
use node_jwt_redis_session_a.Sessions
use node_jwt_redis_session_a.Sessions.{
  Codec, SessionRecord, RotateParams, RotateOutcome, rotated, concurrent, reused, missing,
  IsPrecise, within_grace, rotated_record, session_idle_ttl_seconds, refresh_grace_period_ms,
}
use node_jwt_redis_session_a.Sessions.Views.{raw_at, index_at, Holds, Lacks}

pub record Ideal : Type 0 where
  pub sessions : Text → Option SessionRecord
  pub index : Text → Text → Bool

abbrev pub put_session : Text → SessionRecord → Ideal → Ideal
put_session id r a = record a { sessions = λ j. if id === j then some r else a.sessions j }

abbrev pub remove_session : Text → Ideal → Ideal
remove_session id a = record a { sessions = λ j. if id === j then none else a.sessions j }

abbrev pub add_to_index : Text → Text → Ideal → Ideal
add_to_index uid id a = record a {
  index = λ v j. if uid === v then (id === j || a.index v j) else a.index v j;
}

abbrev pub remove_from_index : Text → Text → Ideal → Ideal
remove_from_index uid id a = record a {
  index = λ v j. if uid === v then (not (id === j) && a.index v j) else a.index v j;
}

-- The methods of the repository.
pub data Call : Type 0 where
  get_call : Text → Call
  create_call : ℕ → Text → SessionRecord → Call
  rotate_call : Text → Text → RotateParams → Call
  delete_call : Text → Text → Call
  delete_all_call : Text → Call

-- What they return; the number that deleteAllForUser returns is left out.
pub data Reply : Type 0 where
  found : Option SessionRecord → Reply
  outcome : RotateOutcome → Reply
  done : Reply

abbrev revoke_ideal : Text → Text → Ideal → Ideal
revoke_ideal id uid a = remove_from_index uid id (remove_session id a)

-- A rotation of a session that is there.
abbrev pub rotate_ideal : Text → Text → RotateParams → SessionRecord → Ideal → Reply × Ideal
rotate_ideal id uid p r a =
    if r.refresh_token_hash === p.presented_hash
    then (if leb r.absolute_expires_at p.now
        then (outcome missing, revoke_ideal id uid a)
        else (outcome rotated, put_session id (rotated_record r p session_idle_ttl_seconds) a))
    else if within_grace r p refresh_grace_period_ms
    then (outcome concurrent, a)
    else (outcome reused, revoke_ideal id uid a)

abbrev pub rotate_found : Text → Text → RotateParams → Option SessionRecord → Ideal → Reply × Ideal
rotate_found id uid p none a = (outcome missing, a)
rotate_found id uid p (some r) a = rotate_ideal id uid p r a

abbrev pub ideal : Call → Ideal → Reply × Ideal
ideal (get_call id) a = (found (a.sessions id), a)
ideal (create_call now id r) a = (done, add_to_index r.user_id id (put_session id r a))
ideal (rotate_call id uid p) a = rotate_found id uid p (a.sessions id) a
ideal (delete_call id uid) a = (done, remove_from_index uid id (remove_session id a))
ideal (delete_all_call uid) a = (
  done,
  record {
    sessions = λ j. if a.index uid j then none else a.sessions j;
    index = λ v j. if uid === v then false else a.index v j;
  },
)

-- Calls one after the other, and what they return.
abbrev pub ideals : List Call → Ideal → List Reply × Ideal
ideals [] a = ([], a)
ideals (call ∷ calls) a =
    let (reply, a') = ideal call a in let (replies, a'') = ideals calls a' in (reply ∷ replies, a'')

module _ (R : Redis) (C : Codec) where
  abbrev pub perform : Call → Exec (Client R) Reply
  perform (get_call id) = Sessions.get R C id >>= λ r. pure (found r)
  perform (create_call now id r) = Sessions.create R C now id r >>= λ _. pure done
  perform (rotate_call id uid p) = Sessions.rotate R C id uid p >>= λ o. pure (outcome o)
  perform (delete_call id uid) = Sessions.delete R id uid >>= λ _. pure done
  perform (delete_all_call uid) = Sessions.delete_all_for_user R uid >>= λ n. pure done

  abbrev pub performs : List Call → Client R → List (Result Reply) × Client R
  performs [] c = ([], c)
  performs (call ∷ calls) c =
      let (reply, c') = perform call c in
      let (replies, c'') = performs calls c' in (reply ∷ replies, c'')

  -- A session of the ideal, as Redis shows it: in a form that Node and Lua read, with times that
  -- Lua prints exactly.
  abbrev pub Shows : R.Store → ℕ → Text → Option SessionRecord → Type 0
  Shows s t id none = Lacks R s t id
  Shows s t id (some r) = Holds R C s t id r × IsPrecise r

  pub record Represents (s : R.Store) (t : ℕ) (a : Ideal) : Type 0 where
    pub shown : (id : Text) → Shows s t id (a.sessions id)
    pub indexed : (uid id : Text) → has (index_at R s t uid) id ≡ a.index uid id
    pub sets : (uid : Text) → is_set (index_at R s t uid) ≡ true
