-- ===== src/Guards/Metrics.antt =====
-- Who may read /metrics.
use node_jwt_redis_session_a.Base.{
  Text, codes, ◌≡◌, ◌≢◌, ◌⊎◌, refl, sym, ap, ◌∙◌, true, Option, none, some, ◌++◌, ===_iff,
  Bool-cases, inl, inr, some_text,
}
use node_jwt_redis_session_a.Tokens.{Crypto}
use node_jwt_redis_session_a.Guards.{
  metrics_guard, guard_by, same_digest, presented, production, is_production, next,
}

is_production-true : (env : Option Text) → is_production env ≡ true → env ≡ some production
is_production-true none h = absurd (cc)
is_production-true (some env) h = ap some ((===_iff env production).0 h)

module _ (K : Crypto) (apart : (a b : Text) → K.sha256_hex a ≡ K.sha256_hex b → a ≡ b) where
  same_digest-true : (a b : Text) → same_digest K a b ≡ true → a ≡ b
  same_digest-true a b h = apart a b ((===_iff (K.sha256_hex a) (K.sha256_hex b)).0 h)

  guard_by-next :
      (token env header : Option Text)
      → guard_by K token env header ≡ next
      → ((token ≡ none) × (env ≢ some production))
        ⊎ ((t : Text) × (token ≡ some t) × (presented header ≡ codes "Bearer " ++ t))
  guard_by-next none env header h = elim (Bool-cases (is_production env)) [
    | inl hidden ↦ absurd (cc (rw hidden at h))
    | inr shown ↦ inl (refl, λ e. absurd (cc (sym shown ∙ ap is_production e)))
  ]
  guard_by-next (some t) env header h =
      elim (Bool-cases (same_digest K (presented header) (codes "Bearer " ++ t))) [
        | inl same ↦ inr (t, refl, same_digest-true _ _ same)
        | inr other ↦ absurd (cc (rw other at h))
      ]

  -- Where SHA-256 has no collision, a request passes the guard of /metrics only in one of two ways:
  -- no token is set, or an empty one, and the environment is not production; or a token is set and
  -- the header Authorization is Bearer with that token.
  pub metrics_guard-next :
      (token env header : Option Text)
      → metrics_guard K token env header ≡ next
      → ((some_text token ≡ none) × (env ≢ some production))
        ⊎ ((t : Text) × (some_text token ≡ some t) × (presented header ≡ codes "Bearer " ++ t))
  unfolding metrics_guard
  metrics_guard-next token env header h = guard_by-next (some_text token) env header h
