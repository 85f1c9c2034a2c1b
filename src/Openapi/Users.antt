-- ===== src/Openapi/Users.antt =====
-- src/docs/openapi.ts: the operations of /v1 for creating a user.
use node_jwt_redis_session_a.Base.{[], ◌∷◌, true}
use node_jwt_redis_session_a.Openapi.Value.{Json, string, number, boolean, obj, arr}
use node_jwt_redis_session_a.Openapi.Schemas.{error_schema, api_rate_limited_429}

abbrev pub users_path : Json
users_path = obj (
    (
      "post",
      obj (
          ("summary", string "Create a new user")
          ∷ (
            "requestBody",
            obj (
                ("required", boolean true)
                ∷ (
                  "content",
                  obj (
                      (
                        "application/json",
                        obj (
                            (
                              "schema",
                              obj (
                                  ("type", string "object")
                                  ∷ (
                                    "required",
                                    arr (
                                        string "name"
                                        ∷ string "username"
                                        ∷ string "email"
                                        ∷ string "password"
                                        ∷ []),
                                  )
                                  ∷ (
                                    "properties",
                                    obj (
                                        (
                                          "name",
                                          obj (
                                              ("type", string "string")
                                              ∷ ("minLength", number 2)
                                              ∷ ("maxLength", number 100)
                                              ∷ []),
                                        )
                                        ∷ (
                                          "username",
                                          obj (
                                              ("type", string "string")
                                              ∷ ("minLength", number 3)
                                              ∷ ("maxLength", number 30)
                                              ∷ []),
                                        )
                                        ∷ (
                                          "email",
                                          obj (
                                              ("type", string "string")
                                              ∷ ("format", string "email")
                                              ∷ []),
                                        )
                                        ∷ (
                                          "password",
                                          obj (
                                              ("type", string "string")
                                              ∷ ("minLength", number 12)
                                              ∷ ("maxLength", number 72)
                                              ∷ (
                                                "description",
                                                string
                                                    "Capped at 72 characters — bcrypt silently truncates anything longer.",
                                              )
                                              ∷ []),
                                        )
                                        ∷ []),
                                  )
                                  ∷ []),
                            )
                            ∷ []),
                      )
                      ∷ []),
                )
                ∷ []),
          )
          ∷ (
            "responses",
            obj (
                ("201", obj (("description", string "User created successfully") ∷ []))
                ∷ (
                  "400",
                  obj (
                      (
                        "description",
                        string
                            "A required field is missing or fails validation (username/name/password length, email format)",
                      )
                      ∷ (
                        "content",
                        obj (("application/json", obj (("schema", error_schema) ∷ [])) ∷ []),
                      )
                      ∷ []),
                )
                ∷ (
                  "409",
                  obj (
                      ("description", string "Username already taken, or email already registered")
                      ∷ (
                        "content",
                        obj (("application/json", obj (("schema", error_schema) ∷ [])) ∷ []),
                      )
                      ∷ []),
                )
                ∷ ("429", api_rate_limited_429)
                ∷ []),
          )
          ∷ []),
    )
    ∷ [])
