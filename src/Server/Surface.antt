-- ===== src/Server/Surface.antt =====
-- src/mcp_server_auth_template/entrypoints/mcp_server.py: the stack of the middleware that a request
-- passes from the outside, and the lifetime of the process. The tracing middleware of the
-- observability kit, which hands every request on, is left out of the stack.
use mcp_server_auth_template.Base.{Bool, List, Option, String, [], none, some, ℕ, ◌∷◌}
use mcp_server_auth_template.Base.Value.{Dict, Value}
use mcp_server_auth_template.Http.{http, Response, Scope}
use mcp_server_auth_template.ProgressiveHttp.{ProgressiveAuthorizationContext, context_for}
use mcp_server_auth_template.Runtime.{RuntimeStatus, probe}
use mcp_server_auth_template.Settings.{Settings}
use mcp_server_auth_template.Transport.{refused, Admission, Limits, admit}
pub mod Guard
pub mod Probes

abbrev pub probe_paths : List String
probe_paths = "/livez" ∷ "/readyz" ∷ []

abbrev pub operational : Option RuntimeStatus → List String
operational none = []
operational (some status) = probe_paths

-- The arguments of the admission middleware.
unfoldable pub limits_of : Settings → Option RuntimeStatus → Limits
limits_of s status = record {
  mcp_path = "/mcp";
  max_header_count = s.transport_max_header_count;
  max_header_bytes = s.transport_max_header_bytes;
  max_concurrent_requests = s.transport_max_concurrent_requests;
  operational_paths = operational status;
}

-- Who answers a request: one of the outer middlewares, or the application, with the context that the
-- progressive middleware has set.
pub data Served : Type 0 where
  turned_away : Response → List (Dict Value) → Served
  probed : Response → Served
  dispatched : Option ProgressiveAuthorizationContext → Served

module _ (b64_utf8 : String → Option String) (sdk_check : Scope → Bool → Option Response) where
  -- what the progressive middleware sets; it only serves HTTP
  abbrev pub context_of : Scope → Option ProgressiveAuthorizationContext
  context_of scope = elim scope.type [ http ↦ some (context_for b64_utf8 "/mcp" scope) | _ ↦ none ]

  abbrev pub probe_of : Option RuntimeStatus → Scope → Option Response
  probe_of none scope = none
  probe_of (some status) scope = probe status scope

  abbrev pub after_probe : Scope → Option Response → Served
  after_probe scope (some response) = probed response
  after_probe scope none = dispatched (context_of scope)

  abbrev pub after_admission : Option RuntimeStatus → Scope → Admission → Served
  after_admission status scope (refused response events) = turned_away response events
  after_admission status scope _ = after_probe scope (probe_of status scope)

  -- The stack of `_build_streamable_http_app` on a request, with the count of requests in flight.
  unfoldable pub serve_request : Settings → Option RuntimeStatus → Scope → ℕ → Served × ℕ
  unfolding limits_of admit probe context_for
  serve_request s status scope in_flight =
      let (admission, in_flight') = admit (limits_of s status) sdk_check scope in_flight in
      (after_admission status scope admission, in_flight')
