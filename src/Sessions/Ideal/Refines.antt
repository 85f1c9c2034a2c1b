-- ===== src/Sessions/Ideal/Refines.antt =====
-- SessionRepository implements its ideal.
use node_jwt_redis_session_a.Base.{
  ◌<◌, ◌^◌, ◌*◌, ◌≡◌, refl, sym, subst, List, [], ◌∷◌, map, All, ok,
}
use node_jwt_redis_session_a.Redis.{Redis}
use node_jwt_redis_session_a.Redis.Client.{Client}
use node_jwt_redis_session_a.Sessions.{Codec, IsPrecise}
use node_jwt_redis_session_a.Sessions.Ideal.{
  Ideal, Call, get_call, create_call, rotate_call, delete_call, delete_all_call, ideal, ideals,
  perform, performs, Represents,
}
use node_jwt_redis_session_a.Sessions.Ideal.Calls.{
  Meets, get-Meets, create-Meets, delete-Meets, delete_all-Meets,
}
use node_jwt_redis_session_a.Sessions.Ideal.Rotating.{rotate-Meets}

-- Times that Lua prints exactly, and a session that is not over when it is created.
abbrev pub Sane : Call → Type 0
Sane (create_call now id r) = IsPrecise r × (now < r.absolute_expires_at)
Sane (rotate_call id uid p) = p.now < 9 * 10 ^ 13
Sane _ = Unit

module _ (R : Redis) (C : Codec) where
  perform-Meets :
      (call : Call) (c : Client R) (a : Ideal)
      → c.faults ≡ []
      → Represents R C c.store c.clock a
      → Sane call
      → Meets R C c (ideal call a) (perform R C call c)
  perform-Meets (get_call id) c a calm h sane = get-Meets R C c a calm h id
  perform-Meets (create_call now id r) c a calm h (precise, fresh) =
      create-Meets R C c a calm h now id r precise fresh
  perform-Meets (rotate_call id uid p) c a calm h small = rotate-Meets R C id uid p c a calm h small
  perform-Meets (delete_call id uid) c a calm h sane = delete-Meets R C c a calm h id uid
  perform-Meets (delete_all_call uid) c a calm h sane = delete_all-Meets R C c a calm h uid

  -- Calls of the repository one after the other, from a store that represents some sessions, with
  -- replies from Redis, in any order, while no session expires: each returns what the ideal returns,
  -- and the store represents the sessions and the indices that the ideal ends with.
  pub performs-ideals :
      (calls : List Call) (c : Client R) (a : Ideal)
      → c.faults ≡ []
      → Represents R C c.store c.clock a
      → All Sane calls
      → ((performs R C calls c).0 ≡ map ok (ideals calls a).0)
        × Represents R C (performs R C calls c).1.store c.clock (ideals calls a).1
  performs-ideals [] c a calm h sane = (refl, h)
  performs-ideals (call ∷ calls) c a calm h (sane, rest) =
      let (replied, kept, quiet, clock) = perform-Meets call c a calm h sane in
      let c' = (perform R C call c).1 in
      let a' = (ideal call a).1 in
      let (replies, ends) =
        performs-ideals calls c' a' quiet
          (subst (λ t. Represents R C c'.store t a') (sym clock) kept) rest in
      (
        λ i. replied i ∷ replies i,
        subst (λ t. Represents R C (performs R C calls c').1.store t (ideals calls a').1) clock
            ends,
      )
