-- ===== src/Sessions/Schedule.antt =====
-- Any number of requests at once. Redis runs each command, MULTI and script as one step, so what
-- concurrent requests do to the sessions is a sequence of such steps, in any order, with any time
-- between them and any fault at each.
pub mod Turns
pub mod Once
pub mod Gone
use node_jwt_redis_session_a.Base.{
  Text, ℕ, ◌+◌, ◌*◌, ◌≤◌, ◌<◌, ◌^◌, ◌≡◌, ◌≢◌, ◌⊎◌, refl, sym, ap, ◌∙◌, Bool, true, false, some,
  List, [], ◌∷◌, Result, ok, err, ◌===◌, ===_iff, ne→===, if◌then◌else◌, arith, All, Bool-cases,
  inl, inr, ===-refl, subst,
}
use node_jwt_redis_session_a.Redis.{Redis}
use node_jwt_redis_session_a.Redis.Client.{Client, request-clock, no_reply}
use node_jwt_redis_session_a.Sessions.{
  Codec, IsPrecise, RotateParams, RotateOutcome, rotated, concurrent, reused, missing,
  SessionRecord, create, rotate, delete, delete_all_for_user, rotated_record,
  session_idle_ttl_seconds,
}
use node_jwt_redis_session_a.Sessions.Views.{raw_at, raw_at-set_ex, raw_at-later}
use node_jwt_redis_session_a.Sessions.Rotation.{run, rotated_record-IsPrecise}
use node_jwt_redis_session_a.Sessions.Effect.{
  Swapped-ttl, rotate-cases, KeptOrGone, Swapped, Quiet, rotate_script-cases,
}
use node_jwt_redis_session_a.Sessions.Operations.{
  Kept, create-Kept, delete-Kept, delete_all_for_user-Kept, create-clock, delete-clock,
  delete_all_for_user-clock,
}

pub data Event : Type 0 where
  rotating : Text → Text → RotateParams → Event
  creating : ℕ → Text → SessionRecord → Event
  deleting : Text → Text → Event
  deleting_all : Text → Event
  passing : ℕ → Event

abbrev pub is_rotated : Result RotateOutcome → Bool
is_rotated (ok rotated) = true
is_rotated _ = false

pub is_rotated-refused : (r : Result RotateOutcome) → r ≢ ok rotated → is_rotated r ≡ false
is_rotated-refused (ok rotated) h = absurd (h refl)
is_rotated-refused (ok concurrent) h = refl
is_rotated-refused (ok reused) h = refl
is_rotated-refused (ok missing) h = refl
is_rotated-refused (err e) h = refl

module _ (R : Redis) (C : Codec) where
  unfoldable pub step : Event → Client R → Client R
  step (rotating id user_id p) c = (rotate R C id user_id p c).1
  step (creating date_now id r) c = (create R C date_now id r c).1
  step (deleting id user_id) c = (delete R id user_id c).1
  step (deleting_all user_id) c = (delete_all_for_user R user_id c).1
  step (passing ms) c = record c { clock = c.clock + ms }

  -- 1 if the step is a rotation of the session that presents the hash and is told 'rotated'.
  unfoldable pub won : Text → Text → Event → Client R → ℕ
  won id h (rotating j user_id p) c =
      if j === id
      then (if p.presented_hash === h
          then (if is_rotated (rotate R C j user_id p c).0 then 1 else 0)
          else 0)
      else 0
  won id h _ c = 0

  unfoldable pub wins : Text → Text → List Event → Client R → ℕ
  unfolding step won
  wins id h [] c = 0
  wins id h (e ∷ es) c = won id h e c + wins id h es (step e c)

  -- What the program's other parts see to: identifiers and hashes are fresh, and the clock is one
  -- that Lua prints exactly.
  abbrev pub IsFresh : Text → Text → Event → Type 0
  IsFresh id h (rotating j user_id p) = (p.new_hash ≢ h) × (p.now < 9 * 10 ^ 13)
  IsFresh id h (creating date_now j r) = (j === id) ≡ false
  IsFresh id h _ = Unit

  -- The sessions that Lua reads under an identifier.
  abbrev pub Reads : Client R → Text → SessionRecord → Type 0
  Reads c id r =
      (raw : Text) × (raw_at R c.store c.clock id ≡ some raw) × (C.cjson_decode raw ≡ some r)

  pub record Precise (id : Text) (c : Client R) : Type 0 where
    pub precise : (r : SessionRecord) → Reads c id r → IsPrecise r

  pub record Retired (id h : Text) (c : Client R) : Type 0 where
    pub other : (r : SessionRecord) → Reads c id r → r.refresh_token_hash ≢ h

  -- From one state to a later one the session under `id` is kept, or it goes.
  unfoldable pub Advance : Text → Client R → Client R → Type 0
  Advance id c c' = KeptOrGone (raw_at R c.store c.clock id) (raw_at R c'.store c'.clock id)

  pub Reads-earlier :
      (id : Text) (c c' : Client R) (r : SessionRecord)
      → Advance id c c'
      → Reads c' id r
      → Reads c id r
  unfolding Advance
  Reads-earlier id c c' r (inl same) (raw, e, d) = (raw, sym same ∙ e, d)
  Reads-earlier id c c' r (inr gone) (raw, e, d) = absurd (ground (arith, gone, e))

  pub Precise-later : (id : Text) (c c' : Client R) → Advance id c c' → Precise id c → Precise id c'
  Precise-later id c c' a h = record {
    precise = λ r reads. h.precise r (Reads-earlier id c c' r a reads);
  }

  pub Retired-later :
      (id h : Text) (c c' : Client R) → Advance id c c' → Retired id h c → Retired id h c'
  Retired-later id h c c' a ret = record {
    other = λ r reads. ret.other r (Reads-earlier id c c' r a reads);
  }

  -- A step keeps the session or drops it and wins nothing, or it swaps the hash: then it wins at
  -- most once, and nothing if the hash was out of use.
  pub data Turn (id h : Text) (c c' : Client R) (n : ℕ) : Type 0 where
    still : Advance id c c' → n ≡ 0 → Turn id h c c' n
    swap : Precise id c' → Retired id h c' → n ≤ 1 → (Retired id h c → n ≡ 0) → Turn id h c c' n

  pub Advance-same_clock :
      (id : Text) (c c' : Client R)
      → c'.clock ≡ c.clock
      → Kept R c.clock id c.store c'.store
      → Advance id c c'
  unfolding Advance
  Advance-same_clock id c c' e k = rw e k
