-- ===== src/Sessions/Tests.antt =====
-- The sessions at concrete values: one session in Redis, refreshed, replayed and revoked.
use node_jwt_redis_session_a.Base.{
  Text, codes, ℕ, ◌+◌, ◌-◌, ◌*◌, ◌≤◌, min, ◌≡◌, refl, sym, true, not, ◌&&◌, none, some, [], ◌∷◌, ok,
  ◌===◌, if◌then◌else◌, length, arith, subst,
}
use node_jwt_redis_session_a.Account.{user, admin}
use node_jwt_redis_session_a.Redis.{has, deadline_of}
use node_jwt_redis_session_a.Redis.Client.{Client}
use node_jwt_redis_session_a.Redis.Sample.{sample, SampleStore}
use node_jwt_redis_session_a.Sessions.{
  SessionRecord, RotateParams, IsPrecise, rotated, concurrent, reused, missing, session_key,
  user_sessions_key, rotate, create, delete, delete_all_for_user, session_idle_ttl_seconds,
  session_absolute_ttl_seconds, ceil_seconds,
}
use node_jwt_redis_session_a.Sessions.Sample.{codec, decode-encode}
use node_jwt_redis_session_a.Sessions.Views.{raw_at, index_at, Holds, Lacks}
use node_jwt_redis_session_a.Sessions.Rotate.{
  IsInGrace, IsRenewed, rotate-current, rotate-concurrent, rotate-reused, rotate-over,
}
use node_jwt_redis_session_a.Sessions.Schedule.{
  rotating, deleting, passing, wins, Precise, creating,
}
use node_jwt_redis_session_a.Sessions.Schedule.Once.{wins-le-one}
use node_jwt_redis_session_a.Sessions.Success.{create-ok}
use node_jwt_redis_session_a.Sessions.Revocation.{
  delete-ok, delete-reply, delete_all_for_user-delivered, create-reply,
}
use node_jwt_redis_session_a.Sessions.Schedule.Gone.{steps, steps-Lacks}

abbrev sid : Text
sid = codes "s"

abbrev uid : Text
uid = codes "u"

-- Refreshed once, at 500.
abbrev session : SessionRecord
session = record {
  user_id = uid;
  role = user;
  refresh_token_hash = codes "hh";
  previous_refresh_token_hash = some (codes "h");
  rotated_at = some 500;
  created_at = 100;
  expires_at = 900000;
  absolute_expires_at = 900000;
}

abbrev empty_store : SampleStore
empty_store key = none

abbrev stored : SampleStore
stored = sample.set_ex (session_key sid) (codec.stringify session) 800 1000 empty_store

abbrev client : Client sample
client = record { store = stored; clock = 1000; faults = [] }

client-stored : raw_at sample stored 1000 sid ≡ some (codec.stringify session)
unfolding session_key
client-stored = refl

client-Holds : Holds sample codec stored 1000 sid session
client-Holds = record {
  raw = codec.stringify session;
  stored = client-stored;
  decoded = decode-encode session;
  parsed = decode-encode session;
}

session-IsPrecise : IsPrecise session
session-IsPrecise = (omega arith, omega arith, omega arith, λ t h. ground arith)

abbrev params : Text → ℕ → RotateParams
params hash now = record { presented_hash = hash; new_hash = codes "hhh"; role = admin; now = now }

client-Precise : Precise sample codec sid client
client-Precise = record {
  precise = λ r (raw, e, d).
      let same : r ≡ session = cc (e, d, client-stored, decode-encode session) in
      subst IsPrecise (sym same) session-IsPrecise;
}

wins-le-one_example :
    wins sample codec sid
      (codes "hh")
      (rotating sid uid (params (codes "hh") 1000)
        ∷ passing 3
        ∷ rotating sid uid (params (codes "hh") 1001)
        ∷ deleting sid uid
        ∷ [])
      client
    ≤ 1
wins-le-one_example =
    wins-le-one sample codec sid (codes "hh")
      (rotating sid uid (params (codes "hh") 1000)
        ∷ passing 3
        ∷ rotating sid uid (params (codes "hh") 1001)
        ∷ deleting sid uid
        ∷ [])
      client client-Precise (((λ h. cc), omega arith), (tt, (((λ h. cc), omega arith), (tt, tt))))

rotate-current_example :
    ((rotate sample codec sid uid (params (codes "hh") 1000) client).0 ≡ ok rotated)
    × ((r' : SessionRecord) × Holds sample codec
          (rotate sample codec sid uid (params (codes "hh") 1000) client).1.store
          1000
          sid
          r'
        × IsRenewed session (params (codes "hh") 1000) r')
    × ((j : Text)
        → raw_at sample
            (rotate sample codec sid uid (params (codes "hh") 1000) client).1.store
            1000
            j
          ≡ (if sid === j
              then raw_at sample
                  (rotate sample codec sid uid (params (codes "hh") 1000) client).1.store
                  1000
                  sid
              else raw_at sample stored 1000 j))
rotate-current_example =
    rotate-current sample codec sid uid (params (codes "hh") 1000) client session refl client-Holds
      session-IsPrecise (omega arith) refl (omega arith)

rotate-concurrent_example :
    ((rotate sample codec sid uid (params (codes "h") 1000) client).0 ≡ ok concurrent)
    × ((rotate sample codec sid uid (params (codes "h") 1000) client).1.store ≡ stored)
rotate-concurrent_example =
    rotate-concurrent sample codec sid uid (params (codes "h") 1000) client session refl
      client-Holds (λ h. cc)
      (record { at = 500; previous = refl; rotated_at = refl; recent = omega arith })

late-not-IsInGrace : ¬ IsInGrace session (params (codes "h") 40000)
late-not-IsInGrace g = let recent = g.recent in let at = g.rotated_at in ground (arith, recent, at)

rotate-reused_example :
    ((rotate sample codec sid uid (params (codes "h") 40000) client).0 ≡ ok reused)
    × ((j : Text)
        → raw_at sample
            (rotate sample codec sid uid (params (codes "h") 40000) client).1.store
            1000
            j
          ≡ (if sid === j then none else raw_at sample stored 1000 j))
rotate-reused_example =
    rotate-reused sample codec sid uid (params (codes "h") 40000) client session refl client-Holds
      (λ h. cc) late-not-IsInGrace

rotate-over_example :
    ((rotate sample codec sid uid (params (codes "hh") 900000) client).0 ≡ ok missing)
    × Lacks sample
        (rotate sample codec sid uid (params (codes "hh") 900000) client).1.store
        1000
        sid
rotate-over_example =
    rotate-over sample codec sid uid (params (codes "hh") 900000) client session refl client-Holds
      refl (omega arith)

abbrev empty_client : Client sample
empty_client = record { store = empty_store; clock = 1000; faults = [] }

create-ok_example :
    let s = (create sample codec 1000 sid session empty_client).1.store in
    Holds sample codec s 1000 sid session
    × (has (index_at sample s 1000 uid) sid ≡ true)
    × (deadline_of (index_at sample s 1000 uid) ≡ some (1000 + session_absolute_ttl_seconds * 1000))
    × (deadline_of (sample.live s 1000 (session_key sid))
        ≡ some (1000 + min session_idle_ttl_seconds (ceil_seconds (900000 - 1000)) * 1000))
create-ok_example =
    create-ok sample codec 1000 sid session empty_client refl
      (create-reply sample codec 1000 sid session empty_client refl (omega arith))

delete-ok_example :
    let s = (delete sample sid uid client).1.store in
    ((j : Text)
      → raw_at sample s 1000 j ≡ (if sid === j then none else raw_at sample stored 1000 j))
    × ((m : Text)
        → has (index_at sample s 1000 uid) m
          ≡ (not (sid === m) && has (index_at sample stored 1000 uid) m))
delete-ok_example = delete-ok sample sid uid client (delete-reply sample sid uid client refl)

delete_all_for_user-delivered_example :
    let s = (delete_all_for_user sample uid client).1.store in
    ((delete_all_for_user sample uid client).0
      ≡ ok (length (sample.smembers (user_sessions_key uid) 1000 stored)))
    × ((j : Text)
        → raw_at sample s 1000 j
          ≡ (if has (index_at sample stored 1000 uid) j then none else raw_at sample stored 1000 j))
    × (index_at sample s 1000 uid ≡ none)
delete_all_for_user-delivered_example = delete_all_for_user-delivered sample uid client refl

steps-Lacks_example :
    let c =
      steps sample codec
        (rotating sid uid (params (codes "hh") 1000)
          ∷ creating 1000 (codes "s2") session
          ∷ passing 5
          ∷ [])
        empty_client in
    Lacks sample c.store c.clock sid
steps-Lacks_example =
    steps-Lacks sample codec sid
      (rotating sid uid (params (codes "hh") 1000)
        ∷ creating 1000 (codes "s2") session
        ∷ passing 5
        ∷ [])
      empty_client refl (tt, (refl, (tt, tt)))
