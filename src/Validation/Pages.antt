-- ===== src/Validation/Pages.antt =====
-- What listUsersQuerySchema lets through.
use node_jwt_redis_session_a.Base.{
  Text, codes, ℕ, ◌≤◌, ◌≡◌, Option, none, some, List, [], ◌∷◌, ok, and_then-ok, arith,
}
use node_jwt_redis_session_a.Validation.{
  Value, Zod, Number, not_finite, fractional, negative, natural, no_less, no_more, parse_number,
  checked_number, member, NumberCheck,
}
use node_jwt_redis_session_a.Validation.Schemas.{
  PageQuery, parse_page_query, limit_schema, offset_schema, as_natural, max_page_limit,
}

module _ (Z : Zod) where
  abbrev limit_rest : List NumberCheck
  limit_rest =
      no_less 1 "limit must be at least 1."
      ∷ no_more max_page_limit "limit must be at most 100."
      ∷ []

  limit_natural :
      (k n : ℕ)
      → as_natural (Z.run_number limit_schema.checks (natural k)) ≡ ok n
      → (1 ≤ n) × (n ≤ 100)
  limit_natural k n h =
      let a = Z.run_number-whole "limit must be an integer." limit_rest (natural k) in
      let b =
        Z.run_number-no_less 1 "limit must be at least 1."
          (no_more max_page_limit "limit must be at most 100." ∷ []) k in
      let c = Z.run_number-no_more max_page_limit "limit must be at most 100." [] k in
      let d = Z.run_number-nil (natural k) in ground (arith, a, b, c, d, h)

  limit_checked :
      (x : Number) (n : ℕ)
      → as_natural (checked_number Z limit_schema x) ≡ ok n
      → (1 ≤ n) × (n ≤ 100)
  limit_checked not_finite n h = absurd (cc)
  limit_checked fractional n h =
      absurd (cc (Z.run_number-whole "limit must be an integer." limit_rest fractional))
  limit_checked negative n h = absurd (
      cc (
        Z.run_number-whole "limit must be an integer." limit_rest negative,
        Z.run_number-negative 1 "limit must be at least 1."
            (no_more max_page_limit "limit must be at most 100." ∷ []),
      ))
  limit_checked (natural k) n h = limit_natural k n h

  limit-bounds :
      (o : Option Value) (n : ℕ)
      → as_natural (parse_number Z limit_schema o) ≡ ok n
      → (1 ≤ n) × (n ≤ 100)
  limit-bounds none n h = ground (arith, h)
  limit-bounds (some v) n h = limit_checked (Z.to_number v) n h

  -- A page query that is accepted asks for at least one and at most a hundred users.
  pub parse_page_query-bounds :
      (query : List (Text × Value)) (q : PageQuery)
      → parse_page_query Z query ≡ ok q
      → (1 ≤ q.limit) × (q.limit ≤ 100)
  unfolding parse_page_query
  parse_page_query-bounds query q h =
      let (limit, e, rest) =
        and_then-ok (as_natural (parse_number Z limit_schema (member (codes "limit") query))) _ h in
      let (offset, e', same) =
        and_then-ok (as_natural (parse_number Z offset_schema (member (codes "offset") query))) _
          rest in
      let l : limit ≡ q.limit = cc (same) in
      let bounds = limit-bounds (member (codes "limit") query) limit e in
      (omega (arith, l, bounds.0), omega (arith, l, bounds.1))
