-- ===== src/Sessions/Schedule/Once.antt =====
-- Successful rotations with one hash, over a sequence of steps.
use node_jwt_redis_session_a.Base.{
  Text, ◌+◌, ◌≤◌, ◌≡◌, refl, sym, List, [], ◌∷◌, ◌===◌, ===_iff, arith, All, Bool-cases, inl, inr,
  subst,
}
use node_jwt_redis_session_a.Redis.{Redis}
use node_jwt_redis_session_a.Redis.Client.{Client}
use node_jwt_redis_session_a.Sessions.{Codec, create, rotate, delete, delete_all_for_user}
use node_jwt_redis_session_a.Sessions.Operations.{
  create-Kept, delete-Kept, delete_all_for_user-Kept, create-clock, delete-clock,
  delete_all_for_user-clock,
}
use node_jwt_redis_session_a.Sessions.Views.{raw_at-later}
use node_jwt_redis_session_a.Sessions.Schedule.{
  Event, rotating, creating, deleting, deleting_all, passing, step, won, wins, IsFresh, Precise,
  Retired, Advance, Precise-later, Retired-later, Turn, still, swap, Advance-same_clock,
}
use node_jwt_redis_session_a.Sessions.Schedule.Turns.{own_rotation, other_rotation}

module _ (R : Redis) (C : Codec) where
  turn :
      (id h : Text) (e : Event) (c : Client R)
      → Precise R C id c
      → IsFresh R C id h e
      → Turn R C id h c (step R C e c) (won R C id h e c)
  unfolding step won Advance
  turn id h (rotating j user_id p) c precise fresh = elim (Bool-cases (j === id)) [
    | inr apart ↦ other_rotation R C j user_id p c id h apart
    | inl same ↦
        subst
          (λ k.
            Turn R C id h c (rotate R C k user_id p c).1 (won R C id h (rotating k user_id p) c))
          (sym ((===_iff j id).0 same)) (own_rotation R C user_id p c id h precise fresh)
  ]
  turn id h (creating date_now j r) c precise fresh =
      still
        (Advance-same_clock R C id c (create R C date_now j r c).1 (create-clock R C date_now j r c)
          (create-Kept R C date_now j r c id fresh))
        refl
  turn id h (deleting j user_id) c precise fresh =
      still
        (Advance-same_clock R C id c (delete R j user_id c).1 (delete-clock R j user_id c)
          (delete-Kept R j user_id c id))
        refl
  turn id h (deleting_all user_id) c precise fresh =
      still
        (Advance-same_clock R C id c (delete_all_for_user R user_id c).1
          (delete_all_for_user-clock R user_id c) (delete_all_for_user-Kept R user_id c id))
        refl
  turn id h (passing ms) c precise fresh =
      still (raw_at-later R c.store c.clock (c.clock + ms) id (omega arith)) refl

  -- A hash out of use stays out of use, and wins nothing.
  wins-Retired :
      (id h : Text) (es : List Event) (c : Client R)
      → Precise R C id c
      → Retired R C id h c
      → All (IsFresh R C id h) es
      → wins R C id h es c ≡ 0
  unfolding wins
  wins-Retired id h [] c precise ret fresh = refl
  wins-Retired id h (e ∷ es) c precise ret (f, fs) = elim (turn id h e c precise f) [
    | still a n ↦ omega (
      arith,
      n,
      wins-Retired id h es (step R C e c) (Precise-later R C id c (step R C e c) a precise)
          (Retired-later R C id h c (step R C e c) a ret) fs,
    )
    | swap precise' ret' n unused ↦
        omega (arith, unused ret, wins-Retired id h es (step R C e c) precise' ret' fs)
  ]

  -- However requests interleave, whatever fails and however long it takes: of all the rotations of
  -- a session that present the same hash, at most one is told 'rotated', provided that new hashes
  -- differ from it, no login reuses the session's identifier, and the stored times and the clocks
  -- of the requests are small enough for Lua to print exactly.
  pub wins-le-one :
      (id h : Text) (es : List Event) (c : Client R)
      → Precise R C id c
      → All (IsFresh R C id h) es
      → wins R C id h es c ≤ 1
  unfolding wins
  wins-le-one id h [] c precise fresh = omega arith
  wins-le-one id h (e ∷ es) c precise (f, fs) = elim (turn id h e c precise f) [
    | still a n ↦ omega (
      arith,
      n,
      wins-le-one id h es (step R C e c) (Precise-later R C id c (step R C e c) a precise) fs,
    )
    | swap precise' ret' n unused ↦
        omega (arith, n, wins-Retired id h es (step R C e c) precise' ret' fs)
  ]
