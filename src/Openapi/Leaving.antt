-- ===== src/Openapi/Leaving.antt =====
-- src/docs/openapi.ts: the operations of /v1 for logging out and the profile.
use node_jwt_redis_session_a.Base.{[], ◌∷◌}
use node_jwt_redis_session_a.Openapi.Value.{Json, string, obj, arr}
use node_jwt_redis_session_a.Openapi.Schemas.{
  user_public_schema, error_schema, api_rate_limited_429,
}

abbrev pub logout_path : Json
logout_path = obj (
    (
      "post",
      obj (
          ("summary", string "Revoke the caller's current session")
          ∷ (
            "description",
            string
                "Deletes the session from Redis, taking effect immediately — the access token used to authenticate this call is rejected on its very next use, even though it has not expired yet.",
          )
          ∷ ("security", arr (obj (("bearerAuth", arr []) ∷ []) ∷ []))
          ∷ (
            "responses",
            obj (
                ("200", obj (("description", string "Logout successful") ∷ []))
                ∷ (
                  "401",
                  obj (
                      ("description", string "Missing, invalid, or already-revoked token")
                      ∷ (
                        "content",
                        obj (("application/json", obj (("schema", error_schema) ∷ [])) ∷ []),
                      )
                      ∷ []),
                )
                ∷ ("429", api_rate_limited_429)
                ∷ []),
          )
          ∷ []),
    )
    ∷ [])

abbrev pub logout_all_path : Json
logout_all_path = obj (
    (
      "post",
      obj (
          ("summary", string "Revoke every session of the caller (log out everywhere)")
          ∷ (
            "description",
            string
                "Deletes all of the user's sessions — on every device — via the per-user session index in Redis. Every access token and refresh token issued to this user stops working immediately.",
          )
          ∷ ("security", arr (obj (("bearerAuth", arr []) ∷ []) ∷ []))
          ∷ (
            "responses",
            obj (
                (
                  "200",
                  obj (
                      ("description", string "All sessions revoked")
                      ∷ (
                        "content",
                        obj (
                            (
                              "application/json",
                              obj (
                                  (
                                    "schema",
                                    obj (
                                        ("type", string "object")
                                        ∷ (
                                          "properties",
                                          obj (
                                              ("message", obj (("type", string "string") ∷ []))
                                              ∷ (
                                                "revokedSessions",
                                                obj (("type", string "integer") ∷ []),
                                              )
                                              ∷ []),
                                        )
                                        ∷ []),
                                  )
                                  ∷ []),
                            )
                            ∷ []),
                      )
                      ∷ []),
                )
                ∷ (
                  "401",
                  obj (
                      ("description", string "Missing, invalid, or already-revoked token")
                      ∷ (
                        "content",
                        obj (("application/json", obj (("schema", error_schema) ∷ [])) ∷ []),
                      )
                      ∷ []),
                )
                ∷ ("429", api_rate_limited_429)
                ∷ []),
          )
          ∷ []),
    )
    ∷ [])

abbrev pub users_me_path : Json
users_me_path = obj (
    (
      "get",
      obj (
          ("summary", string "Get the authenticated user's own profile")
          ∷ ("security", arr (obj (("bearerAuth", arr []) ∷ []) ∷ []))
          ∷ (
            "responses",
            obj (
                (
                  "200",
                  obj (
                      (
                        "description",
                        string
                            "The user profile. Served from the Redis cache on a hit; on a miss, read from PostgreSQL and the cache is repopulated (true read-through cache).",
                      )
                      ∷ (
                        "content",
                        obj (("application/json", obj (("schema", user_public_schema) ∷ [])) ∷ []),
                      )
                      ∷ []),
                )
                ∷ (
                  "401",
                  obj (
                      ("description", string "Missing, invalid, or revoked token")
                      ∷ (
                        "content",
                        obj (("application/json", obj (("schema", error_schema) ∷ [])) ∷ []),
                      )
                      ∷ []),
                )
                ∷ (
                  "404",
                  obj (
                      ("description", string "The user does not exist in PostgreSQL")
                      ∷ (
                        "content",
                        obj (("application/json", obj (("schema", error_schema) ∷ [])) ∷ []),
                      )
                      ∷ []),
                )
                ∷ ("429", api_rate_limited_429)
                ∷ []),
          )
          ∷ []),
    )
    ∷ [])
