-- ===== src/Openapi/Admin.antt =====
-- src/docs/openapi.ts: the operations of /v1 for the list of users.
use node_jwt_redis_session_a.Base.{[], ◌∷◌, false}
use node_jwt_redis_session_a.Openapi.Value.{Json, string, number, boolean, obj, arr}
use node_jwt_redis_session_a.Openapi.Schemas.{
  user_public_schema, error_schema, api_rate_limited_429,
}

abbrev pub admin_users_path : Json
admin_users_path = obj (
    (
      "get",
      obj (
          ("summary", string "List all users (admin only)")
          ∷ (
            "description",
            string
                "Role-based access control: the caller's access token must carry `role: \"admin\"`, read from PostgreSQL at login and on every refresh. There is no self-service way to become an admin — see the README.",
          )
          ∷ ("security", arr (obj (("bearerAuth", arr []) ∷ []) ∷ []))
          ∷ (
            "parameters",
            arr (
                obj (
                  ("name", string "limit")
                  ∷ ("in", string "query")
                  ∷ ("required", boolean false)
                  ∷ ("description", string "Page size (default 20, max 100)")
                  ∷ (
                    "schema",
                    obj (
                        ("type", string "integer")
                        ∷ ("minimum", number 1)
                        ∷ ("maximum", number 100)
                        ∷ []),
                  )
                  ∷ [])
                ∷ obj (
                    ("name", string "offset")
                    ∷ ("in", string "query")
                    ∷ ("required", boolean false)
                    ∷ ("description", string "Number of rows to skip (default 0)")
                    ∷ ("schema", obj (("type", string "integer") ∷ ("minimum", number 0) ∷ []))
                    ∷ [])
                ∷ []),
          )
          ∷ (
            "responses",
            obj (
                (
                  "200",
                  obj (
                      ("description", string "A page of users, ordered by creation time then id")
                      ∷ (
                        "content",
                        obj (
                            (
                              "application/json",
                              obj (
                                  (
                                    "schema",
                                    obj (
                                        ("type", string "object")
                                        ∷ (
                                          "properties",
                                          obj (
                                              (
                                                "items",
                                                obj (
                                                    ("type", string "array")
                                                    ∷ ("items", user_public_schema)
                                                    ∷ []),
                                              )
                                              ∷ ("total", obj (("type", string "integer") ∷ []))
                                              ∷ ("limit", obj (("type", string "integer") ∷ []))
                                              ∷ ("offset", obj (("type", string "integer") ∷ []))
                                              ∷ []),
                                        )
                                        ∷ []),
                                  )
                                  ∷ []),
                            )
                            ∷ []),
                      )
                      ∷ []),
                )
                ∷ (
                  "400",
                  obj (
                      ("description", string "Invalid limit/offset")
                      ∷ (
                        "content",
                        obj (("application/json", obj (("schema", error_schema) ∷ [])) ∷ []),
                      )
                      ∷ []),
                )
                ∷ (
                  "401",
                  obj (
                      ("description", string "Missing, invalid, or revoked token")
                      ∷ (
                        "content",
                        obj (("application/json", obj (("schema", error_schema) ∷ [])) ∷ []),
                      )
                      ∷ []),
                )
                ∷ (
                  "403",
                  obj (
                      ("description", string "Authenticated, but not an admin")
                      ∷ (
                        "content",
                        obj (("application/json", obj (("schema", error_schema) ∷ [])) ∷ []),
                      )
                      ∷ []),
                )
                ∷ ("429", api_rate_limited_429)
                ∷ []),
          )
          ∷ []),
    )
    ∷ [])
