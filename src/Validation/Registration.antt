-- ===== src/Validation/Registration.antt =====
-- What createUserSchema lets through.
use node_jwt_redis_session_a.Base.{
  Text, codes, ℕ, ◌≤◌, ◌≡◌, ◌⊎◌, refl, ap, ◌∙◌, sym, true, Option, none, some, List, [], ◌∷◌, ok,
  and_then-ok, arith, inl, inr, length, trim, String, leb, Bool-cases, subst,
}
use node_jwt_redis_session_a.Validation.{
  Value, text, falsy, truthy, Body, object, array_body, no_body, Zod, Schema, StringSchema, Parsed,
  with_rest, member, parse_or_throw, parsed_or_throw, trimmed, lower_case, at_least, at_most, email,
}
use node_jwt_redis_session_a.Validation.Schemas.{
  CreateUserInput, parse_create_user, create_user_schema, create_user_values, max_password_length,
}

member-cases :
    (o : Option Value) → ((s : Text) × (o ≡ some (text s))) ⊎ ((s : Text) → o ≡ some (text s) → ⊥)
member-cases none = inr (λ s h. cc)
member-cases (some (text s)) = inl (s, refl)
member-cases (some falsy) = inr (λ s h. cc)
member-cases (some truthy) = inr (λ s h. cc)

with_rest-inl :
    (r : Parsed Text) (rest : Parsed (List Text)) (vs : List Text)
    → with_rest r rest ≡ inl vs
    → (v : Text) × (r ≡ inl v) × (us : List Text) × (rest ≡ inl us) × (vs ≡ v ∷ us)
with_rest-inl (inr m) rest vs h = absurd (cc)
with_rest-inl (inl v) (inr m) vs h = absurd (cc)
with_rest-inl (inl v) (inl us) vs h = (v, refl, us, refl, cc)

parsed-ok : {A : Type 0} (r : Parsed A) (a : A) → parsed_or_throw r ≡ ok a → r ≡ inl a
parsed-ok (inl b) a h = cc
parsed-ok (inr m) a h = absurd (cc)

module _ (Z : Zod) where
  -- The member is a string, and the checks of its schema give the value.
  abbrev From : List (Text × Value) → Text → StringSchema → Text → Type 0
  From fields k z v = (s : Text) × (member k fields ≡ some (text s)) × (Z.run z.checks s ≡ inl v)

  -- An object that a schema accepts has the schema's first member.
  safe_parse-first :
      (k : Text) (z : StringSchema) (schema : Schema) (fields : List (Text × Value))
      (vs : List Text)
      → Z.safe_parse ((k, z) ∷ schema) (object fields) ≡ inl vs
      → (v : Text) × From fields k z v
        × (us : List Text) × (Z.safe_parse schema (object fields) ≡ inl us)
        × (vs ≡ v ∷ us)
  safe_parse-first k z schema fields vs h = elim (member-cases (member k fields)) [
    | inl (s, there) ↦
        let (v, checked, us, rest, same) =
          with_rest-inl (Z.run z.checks s) (Z.safe_parse schema (object fields)) vs
            (sym (Z.safe_parse-text k s z schema fields there) ∙ h) in
        (v, (s, there, checked), us, rest, same)
    | inr missing ↦ absurd (cc (Z.safe_parse-missing k z schema fields missing, h))
  ]

  safe_parse-object :
      (schema : Schema) (body : Body) (vs : List Text)
      → Z.safe_parse schema body ≡ inl vs
      → (fields : List (Text × Value)) × (body ≡ object fields)
  safe_parse-object schema (object fields) vs h = (fields, refl)
  safe_parse-object schema array_body vs h = absurd (cc (Z.safe_parse-array schema, h))
  safe_parse-object schema no_body vs h = absurd (cc (Z.safe_parse-no_body schema, h))

  -- `.min(low, m).max(high, m')`
  bounded :
      (low high : ℕ) (m m' : String) (s v : Text)
      → Z.run (at_least low m ∷ at_most high m' ∷ []) s ≡ inl v
      → (v ≡ s) × (low ≤ length v) × (length v ≤ high)
  bounded low high m m' s v h =
      let a = Z.run-at_least low m (at_most high m' ∷ []) s in
      let b = Z.run-at_most high m' [] s in
      let c = Z.run-nil s in
      elim (Bool-cases (leb low (length s))) [
        | inr short ↦ absurd (cc (rw short at a, h))
        | inl enough ↦ elim (Bool-cases (leb (length s) high)) [
          | inr long ↦ absurd (cc (rw enough at a, rw long at b, h))
          | inl fits ↦
              let same : v ≡ s = cc (rw enough at a, rw fits at b, c, h) in
              (
                same,
                subst (λ x. low ≤ length x) (sym same) (ground (arith, enough)),
                subst (λ x. length x ≤ high) (sym same) (ground (arith, fits)),
              )
        ]
      ]

  trimmed_bounded :
      (low high : ℕ) (m m' : String) (s v : Text)
      → Z.run (trimmed ∷ at_least low m ∷ at_most high m' ∷ []) s ≡ inl v
      → (v ≡ trim s) × (low ≤ length v) × (length v ≤ high)
  trimmed_bounded low high m m' s v h =
      bounded low high m m' (trim s) v
        (sym (Z.run-trimmed (at_least low m ∷ at_most high m' ∷ []) s) ∙ h)

  address :
      (m : String) (s v : Text)
      → Z.run (trimmed ∷ lower_case ∷ email m ∷ []) s ≡ inl v
      → (v ≡ Z.to_lower (trim s)) × (Z.is_email v ≡ true)
  address m s v h =
      let x = Z.to_lower (trim s) in
      let a =
        Z.run-trimmed (lower_case ∷ email m ∷ []) s
        ∙ Z.run-lower_case (email m ∷ []) (trim s)
        ∙ Z.run-email m [] x in
      elim (Bool-cases (Z.is_email x)) [
        | inr bad ↦ absurd (cc (rw bad at a, h))
        | inl good ↦
            let same : v ≡ x = cc (rw good at a, Z.run-nil x, h) in
            (same, subst (λ y. Z.is_email y ≡ true) (sym same) good)
      ]

  -- What an accepted registration is made of.
  pub record WellFormed (body : Body) (input : CreateUserInput) : Type 0 where
    pub fields : List (Text × Value)
    pub sent : body ≡ object fields
    pub raw_username : Text
    pub raw_name : Text
    pub raw_email : Text
    pub username_sent : member (codes "username") fields ≡ some (text raw_username)
    pub name_sent : member (codes "name") fields ≡ some (text raw_name)
    pub email_sent : member (codes "email") fields ≡ some (text raw_email)
    pub password_sent : member (codes "password") fields ≡ some (text input.password)
    pub username :
        (input.username ≡ trim raw_username)
        × (3 ≤ length input.username)
        × (length input.username ≤ 30)
    pub name : (input.name ≡ trim raw_name) × (2 ≤ length input.name) × (length input.name ≤ 100)
    pub email_address :
        (input.email_address ≡ Z.to_lower (trim raw_email))
        × (Z.is_email input.email_address ≡ true)
    pub password : (12 ≤ length input.password) × (length input.password ≤ 72)

  values-WellFormed :
      (fields : List (Text × Value)) (vs : List Text) (input : CreateUserInput)
      → Z.safe_parse create_user_schema (object fields) ≡ inl vs
      → create_user_values vs ≡ ok input
      → WellFormed (object fields) input
  values-WellFormed fields vs input h made =
      let (u, (su, mu, cu), us, ru, eu) = safe_parse-first _ _ _ fields vs h in
      let (n, (sn, mn, cn), ns, rn, en) = safe_parse-first _ _ _ fields us ru in
      let (a, (sa, ma, ca), as', ra, ea) = safe_parse-first _ _ _ fields ns rn in
      let (p, (sp, mp, cp), ps, rp, ep) = safe_parse-first _ _ _ fields as' ra in
      let end : ps ≡ [] = cc (Z.safe_parse-nil fields, rp) in
      let all : vs ≡ u ∷ n ∷ a ∷ p ∷ [] =
        eu
        ∙ ap (λ x. u ∷ x)
            (en ∙ ap (λ x. n ∷ x) (ea ∙ ap (λ x. a ∷ x) (ep ∙ ap (λ x. p ∷ x) end))) in
      let same : record { username = u; name = n; email_address = a; password = p } ≡ input =
        cc (subst (λ x. create_user_values x ≡ ok input) all made) in
      let (pe, low, high) = bounded 12 max_password_length _ _ sp p cp in
      subst (WellFormed (object fields)) same (record {
        fields = fields;
        sent = refl;
        raw_username = su;
        raw_name = sn;
        raw_email = sa;
        username_sent = mu;
        name_sent = mn;
        email_sent = ma;
        password_sent = mp ∙ ap (λ x. some (text x)) (sym pe);
        username = trimmed_bounded 3 30 _ _ su u cu;
        name = trimmed_bounded 2 100 _ _ sn n cn;
        email_address = address _ sa a ca;
        password = (low, high);
      })

  pub parse_create_user-WellFormed :
      (body : Body) (input : CreateUserInput)
      → parse_create_user Z body ≡ ok input
      → WellFormed body input
  unfolding parse_create_user parse_or_throw
  parse_create_user-WellFormed body input h =
      let (vs, parsed, made) =
        and_then-ok (parsed_or_throw (Z.safe_parse create_user_schema body)) create_user_values h in
      let accepted = parsed-ok (Z.safe_parse create_user_schema body) vs parsed in
      let (fields, sent) = safe_parse-object create_user_schema body vs accepted in
      subst (λ b. WellFormed b input) (sym sent)
        (values-WellFormed fields vs input
          (subst (λ b. Z.safe_parse create_user_schema b ≡ inl vs) sent accepted) made)
