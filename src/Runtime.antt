-- ===== src/Runtime.antt =====
-- src/mcp_server_auth_template/application/runtime_status.py and
-- src/mcp_server_auth_template/adapters/runtime_probes.py: readiness, and the probes that report it.
use mcp_server_auth_template.Base.{
  ℕ, String, Bool, true, false, ◌||◌, not, Option, none, some, [], ◌∷◌, ◌==◌, if◌then◌else◌, ◌++◌,
}
use mcp_server_auth_template.Base.Value.{Dict}
use mcp_server_auth_template.Http.{Scope, http, Response}

-- The lock makes each method one step.
pub record RuntimeStatus : Type 0 where
  pub ready : Bool

abbrev pub initial : RuntimeStatus
initial = record { ready = false }

unfoldable pub is_ready : RuntimeStatus → Bool
is_ready status = status.ready

unfoldable pub mark_ready : RuntimeStatus → RuntimeStatus
mark_ready status = record { ready = true }

unfoldable pub mark_not_ready : RuntimeStatus → RuntimeStatus
mark_not_ready status = record { ready = false }

abbrev pub probe_headers : Dict String
probe_headers = ("Cache-Control", "no-store") ∷ ("X-Content-Type-Options", "nosniff") ∷ []

-- `{"status": …}` as JSONResponse renders it
abbrev pub status_response : ℕ → String → Response
status_response code body = record { status = code; headers = probe_headers; body = body }

-- The response of OperationalProbeMiddleware, or `none` for a scope that it hands to the application.
unfoldable pub probe : RuntimeStatus → Scope → Option Response
unfolding is_ready
probe status scope = elim scope.type [
  | http ↦
      if not (scope.path == "/livez" || scope.path == "/readyz")
      then none
      else if not (scope.method == "GET")
      then some
          (record { status = 405; headers = probe_headers ++ ("Allow", "GET") ∷ []; body = "" })
      else if scope.path == "/livez"
      then some (status_response 200 "{\"status\":\"ok\"}")
      else if is_ready status
      then some (status_response 200 "{\"status\":\"ready\"}")
      else some (status_response 503 "{\"status\":\"not_ready\"}")
  | _ ↦ none
]
