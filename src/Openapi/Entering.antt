-- ===== src/Openapi/Entering.antt =====
-- src/docs/openapi.ts: the operations of /v1 for logging in and refreshing.
use node_jwt_redis_session_a.Base.{[], ◌∷◌, true}
use node_jwt_redis_session_a.Openapi.Value.{Json, string, boolean, obj, arr}
use node_jwt_redis_session_a.Openapi.Schemas.{error_schema}

abbrev pub login_path : Json
login_path = obj (
    (
      "post",
      obj (
          ("summary", string "Authenticate a user")
          ∷ (
            "description",
            string
                "Usernames match case-insensitively. Failed attempts are counted per account: after 5 failures within 15 minutes, each further failure imposes an exponentially growing delay (1s, 2s, 4s, … capped at 15 min) — not a fixed lockout. A successful login clears the counter.",
          )
          ∷ (
            "requestBody",
            obj (
                ("required", boolean true)
                ∷ (
                  "content",
                  obj (
                      (
                        "application/json",
                        obj (
                            (
                              "schema",
                              obj (
                                  ("type", string "object")
                                  ∷ ("required", arr (string "username" ∷ string "password" ∷ []))
                                  ∷ (
                                    "properties",
                                    obj (
                                        ("username", obj (("type", string "string") ∷ []))
                                        ∷ ("password", obj (("type", string "string") ∷ []))
                                        ∷ []),
                                  )
                                  ∷ []),
                            )
                            ∷ []),
                      )
                      ∷ []),
                )
                ∷ []),
          )
          ∷ (
            "responses",
            obj (
                (
                  "200",
                  obj (
                      (
                        "description",
                        string
                            "Login successful, returns a short-lived access token, a long-lived refresh token, and the user profile",
                      )
                      ∷ []),
                )
                ∷ (
                  "400",
                  obj (
                      ("description", string "Missing username or password")
                      ∷ (
                        "content",
                        obj (("application/json", obj (("schema", error_schema) ∷ [])) ∷ []),
                      )
                      ∷ []),
                )
                ∷ (
                  "401",
                  obj (
                      ("description", string "Invalid credentials")
                      ∷ (
                        "content",
                        obj (("application/json", obj (("schema", error_schema) ∷ [])) ∷ []),
                      )
                      ∷ []),
                )
                ∷ (
                  "429",
                  obj (
                      (
                        "description",
                        string
                            "Too many login requests from this IP (20 per 15 min), or this account is in a failed-login backoff (sends a `Retry-After` header with the remaining seconds)",
                      )
                      ∷ (
                        "headers",
                        obj (
                            (
                              "Retry-After",
                              obj (
                                  ("description", string "Seconds until the account backoff ends")
                                  ∷ ("schema", obj (("type", string "integer") ∷ []))
                                  ∷ []),
                            )
                            ∷ []),
                      )
                      ∷ (
                        "content",
                        obj (("application/json", obj (("schema", error_schema) ∷ [])) ∷ []),
                      )
                      ∷ []),
                )
                ∷ []),
          )
          ∷ []),
    )
    ∷ [])

abbrev pub refresh_path : Json
refresh_path = obj (
    (
      "post",
      obj (
          ("summary", string "Rotate an access/refresh token pair")
          ∷ (
            "description",
            string
                "Exchanges a valid refresh token for a new access/refresh pair. The rotation is an atomic compare-and-swap in Redis. The old refresh token stops working immediately. Presenting it again within 30 s of its rotation is treated as a benign concurrent refresh (409, session kept); later than that, as theft — the whole session is deleted (reuse detection). The role is re-read from PostgreSQL on every refresh, and a session can never be refreshed past 30 days after login (absolute lifetime).",
          )
          ∷ (
            "requestBody",
            obj (
                ("required", boolean true)
                ∷ (
                  "content",
                  obj (
                      (
                        "application/json",
                        obj (
                            (
                              "schema",
                              obj (
                                  ("type", string "object")
                                  ∷ ("required", arr (string "refreshToken" ∷ []))
                                  ∷ (
                                    "properties",
                                    obj (
                                        ("refreshToken", obj (("type", string "string") ∷ []))
                                        ∷ []),
                                  )
                                  ∷ []),
                            )
                            ∷ []),
                      )
                      ∷ []),
                )
                ∷ []),
          )
          ∷ (
            "responses",
            obj (
                (
                  "200",
                  obj (("description", string "A new access token and a new refresh token") ∷ []),
                )
                ∷ (
                  "400",
                  obj (
                      ("description", string "Missing refresh token")
                      ∷ (
                        "content",
                        obj (("application/json", obj (("schema", error_schema) ∷ [])) ∷ []),
                      )
                      ∷ []),
                )
                ∷ (
                  "401",
                  obj (
                      (
                        "description",
                        string
                            "Malformed, unknown, expired, or reused refresh token, or the user no longer exists",
                      )
                      ∷ (
                        "content",
                        obj (("application/json", obj (("schema", error_schema) ∷ [])) ∷ []),
                      )
                      ∷ []),
                )
                ∷ (
                  "409",
                  obj (
                      (
                        "description",
                        string
                            "This token was rotated by a concurrent request less than 30 s ago. The session is still alive: retry with the newest refresh token the client holds.",
                      )
                      ∷ (
                        "content",
                        obj (("application/json", obj (("schema", error_schema) ∷ [])) ∷ []),
                      )
                      ∷ []),
                )
                ∷ (
                  "429",
                  obj (
                      (
                        "description",
                        string "Too many refresh attempts for this session (10 per 15 min)",
                      )
                      ∷ (
                        "content",
                        obj (("application/json", obj (("schema", error_schema) ∷ [])) ∷ []),
                      )
                      ∷ []),
                )
                ∷ []),
          )
          ∷ []),
    )
    ∷ [])
