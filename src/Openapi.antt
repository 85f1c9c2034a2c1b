-- ===== src/Openapi.antt =====
-- src/docs/openapi.ts: the description of the API, and what it says of an operation.
pub mod Value
mod Schemas
mod Infra
mod Users
mod Entering
mod Leaving
mod Admin
use node_jwt_redis_session_a.Base.{
  Text, codes, ℕ, ◌+◌, ◌*◌, ◌-◌, Bool, true, false, Option, none, some, List, [], ◌∷◌, map,
}
use Value.{Json, string, number, boolean, obj, arr, at, keys}
use Schemas.{user_public_schema, error_schema}
use Infra.{root_path, health_path, ready_path, metrics_path}
use Users.{users_path}
use Entering.{login_path, refresh_path}
use Leaving.{logout_path, logout_all_path, users_me_path}
use Admin.{admin_users_path}

abbrev pub openapi_spec : Json
openapi_spec = obj (
    ("openapi", string "3.0.3")
    ∷ (
      "info",
      obj (
          ("title", string "Node.js + Redis + PostgreSQL REST API")
          ∷ ("version", string "3.0.0")
          ∷ (
            "description",
            string
                "User registration, JWT access/refresh authentication with Redis-backed session revocation, role-based access control, and a separate Redis read-through profile cache. Business endpoints are versioned under /v1; /health, /ready, /metrics, and /docs are not.",
          )
          ∷ []),
    )
    ∷ ("servers", arr (obj (("url", string "/") ∷ []) ∷ []))
    ∷ (
      "components",
      obj (
          (
            "securitySchemes",
            obj (
                (
                  "bearerAuth",
                  obj (
                      ("type", string "http")
                      ∷ ("scheme", string "bearer")
                      ∷ ("bearerFormat", string "JWT")
                      ∷ []),
                )
                ∷ (
                  "metricsToken",
                  obj (
                      ("type", string "http")
                      ∷ ("scheme", string "bearer")
                      ∷ ("description", string "The static METRICS_TOKEN configured on the server.")
                      ∷ []),
                )
                ∷ []),
          )
          ∷ ("schemas", obj (("UserPublic", user_public_schema) ∷ ("Error", error_schema) ∷ []))
          ∷ []),
    )
    ∷ (
      "paths",
      obj (
          ("/", root_path)
          ∷ ("/health", health_path)
          ∷ ("/ready", ready_path)
          ∷ ("/metrics", metrics_path)
          ∷ ("/v1/users", users_path)
          ∷ ("/v1/login", login_path)
          ∷ ("/v1/auth/refresh", refresh_path)
          ∷ ("/v1/auth/logout", logout_path)
          ∷ ("/v1/auth/logout-all", logout_all_path)
          ∷ ("/v1/users/me", users_me_path)
          ∷ ("/v1/admin/users", admin_users_path)
          ∷ []),
    )
    ∷ [])

abbrev at_option : Text → Option Json → Option Json
at_option key none = none
at_option key (some value) = at key value

-- `openapiSpec.paths[path][method]`
abbrev pub operation_at : Text → Text → Option Json
operation_at path method = at_option method (at_option path (at (codes "paths") openapi_spec))

abbrev digits : ℕ → Text → ℕ
digits n [] = n
digits n (c ∷ s) = digits (n * 10 + (c - 48)) s

abbrev keys_option : Option Json → List Text
keys_option none = []
keys_option (some value) = keys value

-- The statuses that an operation documents.
abbrev pub statuses : Json → List ℕ
statuses operation = map (digits 0) (keys_option (at (codes "responses") operation))

abbrev is_present : Option Json → Bool
is_present none = false
is_present (some value) = true

-- Whether an operation asks for credentials.
abbrev pub is_secured : Json → Bool
is_secured operation = is_present (at (codes "security") operation)
