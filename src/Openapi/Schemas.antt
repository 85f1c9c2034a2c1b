-- ===== src/Openapi/Schemas.antt =====
-- src/docs/openapi.ts: the schemas and the answers that several operations share.
use node_jwt_redis_session_a.Base.{[], ◌∷◌}
use node_jwt_redis_session_a.Openapi.Value.{Json, string, obj, arr}

abbrev pub user_public_schema : Json
user_public_schema = obj (
    ("type", string "object")
    ∷ (
      "properties",
      obj (
          ("id", obj (("type", string "string") ∷ ("format", string "uuid") ∷ []))
          ∷ ("name", obj (("type", string "string") ∷ []))
          ∷ ("username", obj (("type", string "string") ∷ []))
          ∷ ("email", obj (("type", string "string") ∷ ("format", string "email") ∷ []))
          ∷ (
            "role",
            obj (
                ("type", string "string")
                ∷ ("enum", arr (string "user" ∷ string "admin" ∷ []))
                ∷ []),
          )
          ∷ []),
    )
    ∷ [])

abbrev pub error_schema : Json
error_schema = obj (
    ("type", string "object")
    ∷ ("properties", obj (("error", obj (("type", string "string") ∷ [])) ∷ []))
    ∷ [])

abbrev pub api_rate_limited_429 : Json
api_rate_limited_429 = obj (
    ("description", string "Too many requests from this IP across /v1 endpoints (100 req/min)")
    ∷ ("content", obj (("application/json", obj (("schema", error_schema) ∷ [])) ∷ []))
    ∷ [])

abbrev pub meta_rate_limited_429 : Json
meta_rate_limited_429 = obj (
    ("description", string "Too many requests to this endpoint from this IP (60 req/min)")
    ∷ ("content", obj (("application/json", obj (("schema", error_schema) ∷ [])) ∷ []))
    ∷ [])
