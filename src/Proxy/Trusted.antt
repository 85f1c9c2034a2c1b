-- ===== src/Proxy/Trusted.antt =====
-- What a value of TRUST_PROXY comes to.
use node_jwt_redis_session_a.Base.{
  Text, ℕ, codes, ◌≡◌, ◌≢◌, ◌⊎◌, ◌≤◌, ◌+◌, ◌*◌, ◌-◌, ◌^◌, Option, none, some, [], ◌∷◌, Result, ok,
  err, All, length,
}
use node_jwt_redis_session_a.Proxy.{TrustProxy, distrust, hops, subnets}
use node_jwt_redis_session_a.Proxy.Trimming.{IsTrimmed}

-- A digit in ASCII.
abbrev pub IsDigit : ℕ → Type 0
IsDigit c = (48 ≤ c) × (c ≤ 57)

-- The number that digits stand for in the decimal system: each counts by its place.
abbrev pub decimal : Text → ℕ
decimal [] = 0
decimal (c ∷ s) = (c - 48) * 10 ^ length s + decimal s

-- Which results belong to a value without its outer white space.
abbrev pub Justified : Text → Result TrustProxy → Type 0
Justified s (err e) = s ≡ codes "true"
Justified s (ok distrust) = (s ≡ []) ⊎ (s ≡ codes "false")
Justified s (ok (hops n)) = (s ≢ []) × All IsDigit s × (n ≡ decimal s)
Justified s (ok (subnets t)) =
    (t ≡ s) × (s ≢ []) × (s ≢ codes "false") × (s ≢ codes "true") × (¬ All IsDigit s)

-- The value without its outer white space; a variable that is missing is like an empty one.
abbrev pub Says : Option Text → Text → Type 0
Says none s = s ≡ []
Says (some value) s = IsTrimmed value s
