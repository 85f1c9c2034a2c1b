-- ===== src/Sessions/Schedule/Gone.antt =====
-- Sessions that are gone, over a sequence of steps.
use node_jwt_redis_session_a.Base.{
  Text, ◌+◌, ◌≡◌, ap, ◌∙◌, false, none, List, [], ◌∷◌, ◌===◌, ===_iff, arith, All, Bool-cases, inl,
  inr, Option,
}
use node_jwt_redis_session_a.Redis.{Redis}
use node_jwt_redis_session_a.Redis.Client.{Client}
use node_jwt_redis_session_a.Sessions.{Codec, RotateParams, rotate}
use node_jwt_redis_session_a.Sessions.Views.{raw_at, raw_at-set_ex, raw_at-later, Lacks}
use node_jwt_redis_session_a.Sessions.Rotation.{run}
use node_jwt_redis_session_a.Sessions.Effect.{
  KeptOrGone, Swapped, Swapped-ttl, rotate-cases, rotate_script-cases, rotate-clock,
}
use node_jwt_redis_session_a.Sessions.Operations.{
  create-Kept, delete-Kept, delete_all_for_user-Kept, create-clock, delete-clock,
  delete_all_for_user-clock,
}
use node_jwt_redis_session_a.Sessions.Schedule.{
  Event, rotating, creating, deleting, deleting_all, passing, step,
}

KeptOrGone-none : {a b : Option Text} → KeptOrGone a b → a ≡ none → b ≡ none
KeptOrGone-none (inl same) h = same ∙ h
KeptOrGone-none (inr gone) h = gone

-- No login gives out the identifier again.
abbrev pub IsNew : Text → Event → Type 0
IsNew id (creating date_now j r) = (j === id) ≡ false
IsNew id _ = Unit

module _ (R : Redis) (C : Codec) where
  unfoldable pub steps : List Event → Client R → Client R
  unfolding step
  steps [] c = c
  steps (e ∷ es) c = steps es (step R C e c)

  swapped-other :
      (j user_id : Text) (p : RotateParams) (c : Client R) (id : Text)
      → Swapped R C j user_id p c.clock c.store
      → Lacks R c.store c.clock id
      → raw_at R (run R C j user_id p c.clock c.store).1 c.clock id ≡ none
  swapped-other j user_id p c id w h = elim (Bool-cases (j === id)) [
    | inl same ↦ absurd (cc (w.stored, h, (===_iff j id).0 same))
    | inr apart ↦
        ap (λ x. raw_at R x.1 c.clock id) w.result
        ∙ raw_at-set_ex R j _ _ c.clock c.store id (Swapped-ttl R C j user_id p c.clock c.store w)
        ∙ rw apart h
  ]

  rotate-Lacks :
      (j user_id : Text) (p : RotateParams) (c : Client R) (id : Text)
      → Lacks R c.store c.clock id
      → raw_at R (rotate R C j user_id p c).1.store c.clock id ≡ none
  rotate-Lacks j user_id p c id h = elim (rotate-cases R C j user_id p c) [
    | inl (refused, same) ↦ ap (λ s. raw_at R s c.clock id) same ∙ h
    | inr (reply, ran) ↦ elim (rotate_script-cases R C j user_id p c.clock c.store) [
      | inl w ↦ ap (λ s. raw_at R s c.clock id) ran ∙ swapped-other j user_id p c id w h
      | inr q ↦ ap (λ s. raw_at R s c.clock id) ran ∙ KeptOrGone-none (q.kept id) h
    ]
  ]

  step-Lacks :
      (id : Text) (e : Event) (c : Client R)
      → IsNew id e
      → Lacks R c.store c.clock id
      → Lacks R (step R C e c).store (step R C e c).clock id
  unfolding step
  step-Lacks id (rotating j user_id p) c new h =
      rw (rotate-clock R C j user_id p c) (rotate-Lacks j user_id p c id h)
  step-Lacks id (creating date_now j r) c new h =
      rw (create-clock R C date_now j r c)
        (KeptOrGone-none (create-Kept R C date_now j r c id new) h)
  step-Lacks id (deleting j user_id) c new h =
      rw (delete-clock R j user_id c) (KeptOrGone-none (delete-Kept R j user_id c id) h)
  step-Lacks id (deleting_all user_id) c new h =
      rw (delete_all_for_user-clock R user_id c)
        (KeptOrGone-none (delete_all_for_user-Kept R user_id c id) h)
  step-Lacks id (passing ms) c new h =
      KeptOrGone-none (raw_at-later R c.store c.clock (c.clock + ms) id (omega arith)) h

  -- A session that is gone, revoked or expired, never comes back: not by any sequence of refreshes,
  -- logins and logouts, of whatever users and in whatever order, with any time between them and any
  -- fault at each, unless a login is given the session's identifier again.
  pub steps-Lacks :
      (id : Text) (es : List Event) (c : Client R)
      → Lacks R c.store c.clock id
      → All (IsNew id) es
      → Lacks R (steps es c).store (steps es c).clock id
  unfolding steps
  steps-Lacks id [] c h new = h
  steps-Lacks id (e ∷ es) c h (n, ns) = steps-Lacks id es (step R C e c) (step-Lacks id e c n h) ns
