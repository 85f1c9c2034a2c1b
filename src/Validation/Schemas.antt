-- ===== src/Validation/Schemas.antt =====
-- The schemas of AuthService.ts and UserService.ts, and the values that they give.
use node_jwt_redis_session_a.Base.{
  Text, codes, ℕ, List, [], ◌∷◌, String, Result, ok, err, and_then, inl, inr,
}
use node_jwt_redis_session_a.Errors.{js_error, app, validation}
use node_jwt_redis_session_a.Validation.{
  Schema, Zod, Body, trimmed, lower_case, at_least, at_most, email, parse_or_throw, NumberSchema,
  Parsed, Value, Number, parse_number, whole, member, no_less, natural, no_more,
}

abbrev pub credentials_required : String
credentials_required = "Username and password are required."

abbrev pub login_schema : Schema
login_schema =
    (
      codes "username",
      record {
        error = credentials_required;
        checks = trimmed ∷ at_least 1 credentials_required ∷ [];
      },
    )
    ∷ (
      codes "password",
      record { error = credentials_required; checks = at_least 1 credentials_required ∷ [] },
    )
    ∷ []

pub record LoginInput : Type 0 where
  pub username : Text
  pub password : Text

-- The destructuring of the result; the schema has two members.
abbrev pub login_values : List Text → Result LoginInput
login_values (username ∷ password ∷ []) = ok (record { username = username; password = password })
login_values _ = err (js_error "unreachable")

unfoldable pub parse_login : Zod → Body → Result LoginInput
parse_login Z input = and_then (parse_or_throw Z login_schema input) login_values

abbrev pub max_password_length : ℕ
max_password_length = 72

abbrev pub create_user_schema : Schema
create_user_schema =
    (
      codes "username",
      record {
        error = "Username is required.";
        checks =
            trimmed
            ∷ at_least 3 "Username must be at least 3 characters."
            ∷ at_most 30 "Username must be at most 30 characters."
            ∷ [];
      },
    )
    ∷ (
      codes "name",
      record {
        error = "Name is required.";
        checks =
            trimmed
            ∷ at_least 2 "Name must be at least 2 characters."
            ∷ at_most 100 "Name must be at most 100 characters."
            ∷ [];
      },
    )
    ∷ (
      codes "email",
      record {
        error = "Email is required.";
        checks = trimmed ∷ lower_case ∷ email "Email must be a valid email address." ∷ [];
      },
    )
    ∷ (
      codes "password",
      record {
        error = "Password is required.";
        checks =
            at_least 12 "Password must be at least 12 characters."
            ∷ at_most max_password_length "Password must be at most 72 characters."
            ∷ [];
      },
    )
    ∷ []

pub record CreateUserInput : Type 0 where
  pub username : Text
  pub name : Text
  pub email_address : Text
  pub password : Text

abbrev pub create_user_values : List Text → Result CreateUserInput
create_user_values (username ∷ name ∷ address ∷ password ∷ []) =
    ok (record { username = username; name = name; email_address = address; password = password })
create_user_values _ = err (js_error "unreachable")

unfoldable pub parse_create_user : Zod → Body → Result CreateUserInput
parse_create_user Z input = and_then (parse_or_throw Z create_user_schema input) create_user_values

abbrev pub default_page_limit : ℕ
default_page_limit = 20

abbrev pub max_page_limit : ℕ
max_page_limit = 100

-- The members of listUsersQuerySchema.
abbrev pub limit_schema : NumberSchema
limit_schema = record {
  error = "limit must be a number.";
  checks =
      whole "limit must be an integer."
      ∷ no_less 1 "limit must be at least 1."
      ∷ no_more max_page_limit "limit must be at most 100."
      ∷ [];
  default = default_page_limit;
}

abbrev pub offset_schema : NumberSchema
offset_schema = record {
  error = "offset must be a number.";
  checks = whole "offset must be an integer." ∷ no_less 0 "offset must be at least 0." ∷ [];
  default = 0;
}

pub record PageQuery : Type 0 where
  pub limit : ℕ
  pub offset : ℕ

abbrev pub as_natural : Parsed Number → Result ℕ
as_natural (inl (natural n)) = ok n
as_natural (inl _) = err (js_error "unreachable")
as_natural (inr m) = err (app (validation m))

-- `parseOrThrow(listUsersQuerySchema, query)`: the first issue is that of `limit`.
unfoldable pub parse_page_query : Zod → List (Text × Value) → Result PageQuery
parse_page_query Z query =
    and_then (as_natural (parse_number Z limit_schema (member (codes "limit") query))) λ limit.
      and_then (as_natural (parse_number Z offset_schema (member (codes "offset") query)))
        λ offset. ok (record { limit = limit; offset = offset })
