-- ===== src/Validation/Sample.antt =====
-- A validator that meets the laws of the interface.
use node_jwt_redis_session_a.Base.{
  Text, ℕ, ◌≡◌, refl, ap, Bool, true, false, Option, none, some, List, [], ◌∷◌, leb, length, trim,
  inl, inr, index_of, if◌then◌else◌, String,
}
use node_jwt_redis_session_a.Validation.{
  Value, text, falsy, truthy, Body, object, array_body, no_body, member, Check, trimmed, lower_case,
  at_least, at_most, email, StringSchema, Number, not_finite, fractional, negative, natural,
  NumberCheck, whole, no_less, no_more, Parsed, Schema, is_whole, with_rest, Zod,
}

abbrev is_some : Option ℕ → Bool
is_some none = false
is_some (some i) = true

abbrev is_email : Text → Bool
is_email s = is_some (index_of b'@' s)

abbrev run : List Check → Text → Parsed Text
run [] s = inl s
run (trimmed ∷ cs) s = run cs (trim s)
run (lower_case ∷ cs) s = run cs s
run (at_least n m ∷ cs) s = let rest = run cs s in if leb n (length s) then rest else inr m
run (at_most n m ∷ cs) s = let rest = run cs s in if leb (length s) n then rest else inr m
run (email m ∷ cs) s = let rest = run cs s in if is_email s then rest else inr m

abbrev check_natural : Parsed Number → Bool → String → Parsed Number
check_natural rest true m = rest
check_natural rest false m = inr m

abbrev run_number : List NumberCheck → Number → Parsed Number
run_number [] x = inl x
run_number (whole m ∷ cs) x = let rest = run_number cs x in if is_whole x then rest else inr m
run_number (no_less n m ∷ cs) (natural k) =
    let rest = run_number cs (natural k) in if leb n k then rest else inr m
run_number (no_less n m ∷ cs) not_finite = inr m
run_number (no_less n m ∷ cs) fractional = inr m
run_number (no_less n m ∷ cs) negative = inr m
run_number (no_more n m ∷ cs) (natural k) =
    let rest = run_number cs (natural k) in if leb k n then rest else inr m
run_number (no_more n m ∷ cs) not_finite = inr m
run_number (no_more n m ∷ cs) fractional = inr m
run_number (no_more n m ∷ cs) negative = run_number cs negative

abbrev run_member : StringSchema → Option Value → Parsed Text
run_member z none = inr z.error
run_member z (some (text s)) = run z.checks s
run_member z (some falsy) = inr z.error
run_member z (some truthy) = inr z.error

abbrev safe_parse : Schema → Body → Parsed (List Text)
safe_parse schema array_body = inr "Expected an object"
safe_parse schema no_body = inr "Expected an object"
safe_parse [] (object fields) = inl []
safe_parse ((k, z) ∷ schema) (object fields) =
    with_rest (run_member z (member k fields)) (safe_parse schema (object fields))

run_member-missing :
    (z : StringSchema) (o : Option Value)
    → ((s : Text) → o ≡ some (text s) → ⊥)
    → run_member z o ≡ inr z.error
run_member-missing z none h = refl
run_member-missing z (some (text s)) h = absurd (h s refl)
run_member-missing z (some falsy) h = refl
run_member-missing z (some truthy) h = refl

pub safe_parse-array_lem :
    (schema : Schema) → safe_parse schema array_body ≡ inr "Expected an object"
safe_parse-array_lem [] = refl
safe_parse-array_lem ((k, z) ∷ schema) = refl

pub safe_parse-no_body_lem :
    (schema : Schema) → safe_parse schema no_body ≡ inr "Expected an object"
safe_parse-no_body_lem [] = refl
safe_parse-no_body_lem ((k, z) ∷ schema) = refl

pub safe_parse-missing_lem :
    (k : Text) (z : StringSchema) (schema : Schema) (fields : List (Text × Value))
    → ((s : Text) → member k fields ≡ some (text s) → ⊥)
    → safe_parse ((k, z) ∷ schema) (object fields) ≡ inr z.error
safe_parse-missing_lem k z schema fields h =
    ap (λ r. with_rest r (safe_parse schema (object fields)))
      (run_member-missing z (member k fields) h)

pub safe_parse-text_lem :
    (k s : Text) (z : StringSchema) (schema : Schema) (fields : List (Text × Value))
    → member k fields ≡ some (text s)
    → safe_parse ((k, z) ∷ schema) (object fields)
      ≡ with_rest (run z.checks s) (safe_parse schema (object fields))
safe_parse-text_lem k s z schema fields h =
    ap (λ o. with_rest (run_member z o) (safe_parse schema (object fields))) h

abbrev pub zod : Zod
zod = record {
  to_lower = λ s. s;
  is_email = is_email;
  run = run;
  safe_parse = safe_parse;
  not_an_object = "Expected an object";
  to_number = λ v. natural 1;
  run_number = run_number;
  run-nil = λ s. refl;
  run-trimmed = λ cs s. refl;
  run-lower_case = λ cs s. refl;
  run-at_least = λ n m cs s. refl;
  run-at_most = λ n m cs s. refl;
  run-email = λ m cs s. refl;
  run_number-nil = λ x. refl;
  run_number-whole = λ m cs x. refl;
  run_number-no_less = λ n m cs k. refl;
  run_number-negative = λ n m cs. refl;
  run_number-no_more = λ n m cs k. refl;
  safe_parse-array = safe_parse-array_lem;
  safe_parse-no_body = safe_parse-no_body_lem;
  safe_parse-nil = λ fields. refl;
  safe_parse-text = safe_parse-text_lem;
  safe_parse-missing = safe_parse-missing_lem;
}
