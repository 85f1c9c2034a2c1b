-- ===== src/Failing/Schemas.antt =====
-- Which errors the schemas throw.
use node_jwt_redis_session_a.Base.{
  Text, codes, ℕ, refl, List, [], ◌∷◌, Result, ok, and_then, inl, inr,
}
use node_jwt_redis_session_a.Errors.{Failure, status_code}
use node_jwt_redis_session_a.Failing.{In, ErrIs, ErrIs-and_then}
use node_jwt_redis_session_a.Validation.{
  natural, not_finite, fractional, negative, parse_number, member, Zod, Body, Parsed,
  parsed_or_throw, parse_or_throw, Value, Number,
}
use node_jwt_redis_session_a.Validation.Schemas.{
  PageQuery, limit_schema, offset_schema, parse_login, parse_create_user, parse_page_query,
  login_schema, login_values, create_user_schema, create_user_values, as_natural,
}

-- The statuses of a validation error, and of an error that is no domain error.
abbrev Invalid : Failure → Type 0
Invalid = In (400 ∷ 500 ∷ [])

parsed_or_throw-ErrIs : {A : Type 0} (r : Parsed A) → ErrIs Invalid (parsed_or_throw r)
unfolding status_code
parsed_or_throw-ErrIs (inl a) = tt
parsed_or_throw-ErrIs (inr m) = refl

module _ (Z : Zod) where
  pub parse_login-ErrIs : (input : Body) → ErrIs Invalid (parse_login Z input)
  unfolding parse_login parse_or_throw
  parse_login-ErrIs input =
      ErrIs-and_then Invalid (parse_or_throw Z login_schema input) login_values
        (parsed_or_throw-ErrIs (Z.safe_parse login_schema input)) values
    where
      values : (vs : List Text) → ErrIs Invalid (login_values vs)
      values [] = refl
      values (a ∷ []) = refl
      values (a ∷ b ∷ []) = tt
      values (a ∷ b ∷ c ∷ vs) = refl

  pub parse_create_user-ErrIs : (input : Body) → ErrIs Invalid (parse_create_user Z input)
  unfolding parse_create_user parse_or_throw
  parse_create_user-ErrIs input =
      ErrIs-and_then Invalid (parse_or_throw Z create_user_schema input) create_user_values
        (parsed_or_throw-ErrIs (Z.safe_parse create_user_schema input)) values
    where
      values : (vs : List Text) → ErrIs Invalid (create_user_values vs)
      values [] = refl
      values (a ∷ []) = refl
      values (a ∷ b ∷ []) = refl
      values (a ∷ b ∷ c ∷ []) = refl
      values (a ∷ b ∷ c ∷ d ∷ []) = tt
      values (a ∷ b ∷ c ∷ d ∷ e ∷ vs) = refl

  as_natural-ErrIs : (r : Parsed Number) → ErrIs Invalid (as_natural r)
  unfolding status_code
  as_natural-ErrIs (inl (natural n)) = tt
  as_natural-ErrIs (inl not_finite) = refl
  as_natural-ErrIs (inl fractional) = refl
  as_natural-ErrIs (inl negative) = refl
  as_natural-ErrIs (inr m) = refl

  pub parse_page_query-ErrIs :
      (query : List (Text × Value)) → ErrIs Invalid (parse_page_query Z query)
  unfolding parse_page_query
  parse_page_query-ErrIs query =
      let limit = parse_number Z limit_schema (member (codes "limit") query) in
      let offset = parse_number Z offset_schema (member (codes "offset") query) in
      let page : ℕ → ℕ → Result PageQuery = λ l o. ok (record { limit = l; offset = o }) in
      ErrIs-and_then Invalid (as_natural limit) (λ l. and_then (as_natural offset) (page l))
        (as_natural-ErrIs limit)
        (λ l.
          ErrIs-and_then Invalid (as_natural offset) (page l) (as_natural-ErrIs offset) (λ o. tt))
