-- ===== src/Validation.antt =====
-- src/validation/parse.ts and the schemas of src/services/. The package zod is a parameter: what
-- each method of a string schema does is a law.
pub mod Schemas
pub mod Pages
pub mod Registration
pub mod Sample
use node_jwt_redis_session_a.Base.{
  Text, ℕ, ◌≡◌, ◌⊎◌, inl, inr, Bool, true, false, Option, none, some, List, [], ◌∷◌, leb, length,
  trim, ◌===◌, if◌then◌else◌, Result, ok, err, String,
}
use node_jwt_redis_session_a.Errors.{Failure, app, validation}

-- A member of a request body: a string, or another JSON value, of which JavaScript reads `null`,
-- `false` and `0` as false.
pub data Value : Type 0 where
  text : Text → Value
  falsy : Value
  truthy : Value

-- `request.body`: a parsed object with its members, a parsed array, or undefined, where the request
-- has no JSON body.
pub data Body : Type 0 where
  object : List (Text × Value) → Body
  array_body no_body : Body

-- `body.key`, `none` for undefined.
unfoldable pub member : Text → List (Text × Value) → Option Value
member k [] = none
member k ((j, v) ∷ fields) = if j === k then some v else member k fields

-- The methods that the schemas call on `z.string()`, in order; the text is the message.
pub data Check : Type 0 where
  trimmed lower_case : Check
  at_least at_most : ℕ → String → Check
  email : String → Check

pub record StringSchema : Type 0 where
  -- The message for a missing value and for one that is no string.
  pub error : String
  pub checks : List Check

-- A JavaScript number, as far as the schemas tell numbers apart: NaN and the infinities, a number
-- that is no integer, an integer below zero, and the rest.
pub data Number : Type 0 where
  not_finite fractional negative : Number
  natural : ℕ → Number

-- The methods that the schemas call on `z.coerce.number()`.
pub data NumberCheck : Type 0 where
  whole : String → NumberCheck
  no_less no_more : ℕ → String → NumberCheck

-- `z.coerce.number({ error }).….optional().default(n)`
pub record NumberSchema : Type 0 where
  pub error : String
  pub checks : List NumberCheck
  pub default : ℕ

abbrev pub is_whole : Number → Bool
is_whole fractional = false
is_whole _ = true

-- The value that a schema gives, or the message of its first issue.
abbrev pub Parsed : Type 0 → Type 0
Parsed A = A ⊎ String

abbrev pub Schema : Type 0
Schema = List (Text × StringSchema)

abbrev pub with_rest : Parsed Text → Parsed (List Text) → Parsed (List Text)
with_rest (inr m) rest = inr m
with_rest (inl s) (inr m) = inr m
with_rest (inl s) (inl values) = inl (s ∷ values)

pub record Zod : Type 0 where
  pub to_lower : Text → Text
  pub is_email : Text → Bool
  -- `z.string({ error }).….safeParse(text)`, by its checks.
  pub run : List Check → Text → Parsed Text
  -- `z.object({ … }).safeParse(body)`: the values of the schema's keys in order, or the message of
  -- the first issue.
  pub safe_parse : Schema → Body → Parsed (List Text)
  pub not_an_object : String
  -- `Number(value)`, and the checks of a number schema.
  pub to_number : Value → Number
  pub run_number : List NumberCheck → Number → Parsed Number
  pub run-nil : (s : Text) → run [] s ≡ inl s
  pub run-trimmed : (cs : List Check) (s : Text) → run (trimmed ∷ cs) s ≡ run cs (trim s)
  pub run-lower_case : (cs : List Check) (s : Text) → run (lower_case ∷ cs) s ≡ run cs (to_lower s)
  pub run-at_least :
      (n : ℕ) (m : String) (cs : List Check) (s : Text)
      → run (at_least n m ∷ cs) s ≡ (if leb n (length s) then run cs s else inr m)
  pub run-at_most :
      (n : ℕ) (m : String) (cs : List Check) (s : Text)
      → run (at_most n m ∷ cs) s ≡ (if leb (length s) n then run cs s else inr m)
  pub run-email :
      (m : String) (cs : List Check) (s : Text)
      → run (email m ∷ cs) s ≡ (if is_email s then run cs s else inr m)
  pub run_number-nil : (x : Number) → run_number [] x ≡ inl x
  pub run_number-whole :
      (m : String) (cs : List NumberCheck) (x : Number)
      → run_number (whole m ∷ cs) x ≡ (if is_whole x then run_number cs x else inr m)
  pub run_number-no_less :
      (n : ℕ) (m : String) (cs : List NumberCheck) (k : ℕ)
      → run_number (no_less n m ∷ cs) (natural k)
        ≡ (if leb n k then run_number cs (natural k) else inr m)
  pub run_number-negative :
      (n : ℕ) (m : String) (cs : List NumberCheck) → run_number (no_less n m ∷ cs) negative ≡ inr m
  pub run_number-no_more :
      (n : ℕ) (m : String) (cs : List NumberCheck) (k : ℕ)
      → run_number (no_more n m ∷ cs) (natural k)
        ≡ (if leb k n then run_number cs (natural k) else inr m)
  pub safe_parse-array : (schema : Schema) → safe_parse schema array_body ≡ inr not_an_object
  pub safe_parse-no_body : (schema : Schema) → safe_parse schema no_body ≡ inr not_an_object
  pub safe_parse-nil : (fields : List (Text × Value)) → safe_parse [] (object fields) ≡ inl []
  pub safe_parse-text :
      (k s : Text) (z : StringSchema) (schema : Schema) (fields : List (Text × Value))
      → member k fields ≡ some (text s)
      → safe_parse ((k, z) ∷ schema) (object fields)
        ≡ with_rest (run z.checks s) (safe_parse schema (object fields))
  pub safe_parse-missing :
      (k : Text) (z : StringSchema) (schema : Schema) (fields : List (Text × Value))
      → ((s : Text) → member k fields ≡ some (text s) → ⊥)
      → safe_parse ((k, z) ∷ schema) (object fields) ≡ inr z.error

-- `parseOrThrow`: the first issue's message is the error's.
abbrev pub parsed_or_throw : {A : Type 0} → Parsed A → Result A
parsed_or_throw (inl a) = ok a
parsed_or_throw (inr m) = err (app (validation m))

unfoldable pub parse_or_throw : Zod → Schema → Body → Result (List Text)
parse_or_throw Z schema input = parsed_or_throw (Z.safe_parse schema input)

-- A query parameter by its schema: NaN has the schema's message, undefined the default.
abbrev pub checked_number : Zod → NumberSchema → Number → Parsed Number
checked_number Z schema not_finite = inr schema.error
checked_number Z schema x = Z.run_number schema.checks x

abbrev pub parse_number : Zod → NumberSchema → Option Value → Parsed Number
parse_number Z schema none = inl (natural schema.default)
parse_number Z schema (some v) = checked_number Z schema (Z.to_number v)
