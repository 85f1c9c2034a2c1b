-- ===== src/Logging/RequestId.antt =====
-- Which identifiers a request may get.
use node_jwt_redis_session_a.Base.{
  Text, ℕ, ◌⊎◌, ◌≡◌, ◌≤◌, refl, true, Option, none, some, [], ◌∷◌, length, Bool-cases, inl, inr,
  arith, All, le→leb,
}
use node_jwt_redis_session_a.Logging.{is_safe, all_safe, is_request_id, gen_req_id}

-- A letter, a digit, a dot, an underscore or a hyphen, in ASCII.
abbrev pub IsIdChar : ℕ → Type 0
IsIdChar c =
    ((65 ≤ c) × (c ≤ 90))
    ⊎ (((97 ≤ c) × (c ≤ 122)) ⊎ (((48 ≤ c) × (c ≤ 57)) ⊎ ((c ≡ 46) ⊎ ((c ≡ 95) ⊎ (c ≡ 45)))))

-- One to 128 such characters.
abbrev pub SafeId : Text → Type 0
SafeId s = (1 ≤ length s) × (length s ≤ 128) × All IsIdChar s

is_safe-IsIdChar : (c : ℕ) → is_safe c ≡ true → IsIdChar c
is_safe-IsIdChar c h = ground arith

IsIdChar-is_safe : (c : ℕ) → IsIdChar c → is_safe c ≡ true
IsIdChar-is_safe c h = ground arith

all_safe-All : (s : Text) → all_safe s ≡ true → All IsIdChar s
all_safe-All [] h = tt
all_safe-All (c ∷ s) h = elim (Bool-cases (is_safe c)) [
  | inl safe ↦ (is_safe-IsIdChar c safe, all_safe-All s (rw safe at h))
  | inr other ↦ absurd (cc (rw other at h))
]

All-all_safe : (s : Text) → All IsIdChar s → all_safe s ≡ true
All-all_safe [] h = refl
All-all_safe (c ∷ s) (h, hs) = rw (IsIdChar-is_safe c h) (All-all_safe s hs)

is_request_id-SafeId : (s : Text) → is_request_id s ≡ true → SafeId s
is_request_id-SafeId s h = elim (Bool-cases (all_safe s)) [
  | inl safe ↦ (ground arith, ground arith, all_safe-All s safe)
  | inr other ↦ absurd (ground (arith, rw other at h))
]

SafeId-is_request_id : (s : Text) → SafeId s → is_request_id s ≡ true
SafeId-is_request_id s (low, high, safe) =
    rw (le→leb 1 (length s) low, le→leb (length s) 128 high) (All-all_safe s safe)

-- Whatever a client sends, the identifier that is logged and sent back has one to 128 characters,
-- each a letter, a digit, a dot, an underscore or a hyphen in ASCII, as long as `randomUUID` gives
-- such a text; a client's own identifier of that form is kept, and instead of any other, or of none,
-- the one of `randomUUID` is taken.
pub gen_req_id-SafeId :
    (header : Option Text) (uuid : Text)
    → SafeId uuid
    → SafeId (gen_req_id header uuid)
      × ((id : Text) → header ≡ some id → SafeId id → gen_req_id header uuid ≡ id)
      × (((id : Text) → header ≡ some id → ¬ SafeId id) → gen_req_id header uuid ≡ uuid)
unfolding gen_req_id
gen_req_id-SafeId none uuid safe = (safe, λ id e. absurd (cc), λ other. refl)
gen_req_id-SafeId (some existing) uuid safe = elim (Bool-cases (is_request_id existing)) [
  | inl kept ↦
      let good = is_request_id-SafeId existing kept in
      (rw kept good, λ id e good'. rw kept (cc (e)), λ other. absurd (other existing refl good))
  | inr other ↦ (
    rw other safe,
    λ id e good. absurd (cc (SafeId-is_request_id id good, e, other)),
    λ bad. rw other refl,
  )
]
