-- ===== src/Openapi/Infra.antt =====
-- src/docs/openapi.ts: the paths that are not versioned.
use node_jwt_redis_session_a.Base.{[], ◌∷◌}
use node_jwt_redis_session_a.Openapi.Value.{Json, string, obj, arr}
use node_jwt_redis_session_a.Openapi.Schemas.{error_schema, meta_rate_limited_429}

abbrev pub root_path : Json
root_path = obj (
    (
      "get",
      obj (
          ("summary", string "Root — server is running")
          ∷ (
            "responses",
            obj (("200", obj (("description", string "Server is running") ∷ [])) ∷ []),
          )
          ∷ []),
    )
    ∷ [])

abbrev pub health_path : Json
health_path = obj (
    (
      "get",
      obj (
          ("summary", string "Liveness probe — no dependency checks")
          ∷ (
            "responses",
            obj (
                ("200", obj (("description", string "Always ok if the process can respond") ∷ []))
                ∷ []),
          )
          ∷ []),
    )
    ∷ [])

abbrev pub ready_path : Json
ready_path = obj (
    (
      "get",
      obj (
          ("summary", string "Readiness probe — checks PostgreSQL and Redis")
          ∷ (
            "responses",
            obj (
                ("200", obj (("description", string "Both dependencies reachable") ∷ []))
                ∷ ("429", meta_rate_limited_429)
                ∷ (
                  "503",
                  obj (("description", string "At least one dependency is unreachable") ∷ []),
                )
                ∷ []),
          )
          ∷ []),
    )
    ∷ [])

abbrev pub metrics_path : Json
metrics_path = obj (
    (
      "get",
      obj (
          ("summary", string "Prometheus metrics")
          ∷ (
            "description",
            string
                "Default Node.js process metrics plus an HTTP request duration histogram labeled by method, route, and status code. Requires `Authorization: Bearer <METRICS_TOKEN>` when METRICS_TOKEN is set; without it, open in development and 404 in production.",
          )
          ∷ ("security", arr (obj (("metricsToken", arr []) ∷ []) ∷ []))
          ∷ (
            "responses",
            obj (
                (
                  "200",
                  obj (("description", string "Metrics in Prometheus text exposition format") ∷ []),
                )
                ∷ (
                  "401",
                  obj (
                      ("description", string "Missing or wrong metrics token")
                      ∷ (
                        "content",
                        obj (("application/json", obj (("schema", error_schema) ∷ [])) ∷ []),
                      )
                      ∷ []),
                )
                ∷ (
                  "404",
                  obj (
                      ("description", string "Production with no METRICS_TOKEN configured")
                      ∷ (
                        "content",
                        obj (("application/json", obj (("schema", error_schema) ∷ [])) ∷ []),
                      )
                      ∷ []),
                )
                ∷ ("429", meta_rate_limited_429)
                ∷ []),
          )
          ∷ []),
    )
    ∷ [])
