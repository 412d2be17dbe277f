-- ===== src/Transport/Tests.antt =====
-- Requests at a server with a limit of one request, and a check of hosts that accepts everything.
use mcp_server_auth_template.Base.{
  length, Bool, Option, [], none, refl, some, ◌+◌, ◌↔◌, ◌∷◌, ◌≡◌, ◌≢◌, ◌≤◌,
}
use mcp_server_auth_template.Http.{Response, Scope, http, lower}
use mcp_server_auth_template.Transport.{
  Limits, admit, duplicate_header, is_critical, refuse, reject, release, scan_headers, total_bytes,
  try_admit, validate_envelope,
}
use mcp_server_auth_template.Transport.Concurrency.{
  arrive, arrives, here, next, Reach-counted, start,
}
use mcp_server_auth_template.Transport.Envelope.{IsSoundEnvelope, validate_envelope_iff}

abbrev limits : Limits
limits = record {
  mcp_path = "/mcp";
  max_header_count = 3;
  max_header_bytes = 100;
  max_concurrent_requests = 1;
  operational_paths = "/livez" ∷ [];
}

abbrev accept_host : Scope → Bool → Option Response
accept_host scope is_post = none

abbrev call : Scope
call = record {
  type = http;
  method = "POST";
  path = "/mcp";
  headers = ("Host", "localhost") ∷ ("Origin", "null") ∷ [];
}

second_request_is_refused : admit limits accept_host call 1 ≡ (
  refuse (
      reject "concurrency_limit" 503
        (("Retry-After", "1") ∷ [])
        "Server is at its request concurrency limit"),
  1,
)
unfolding admit validate_envelope total_bytes scan_headers try_admit is_critical lower
second_request_is_refused = refl

duplicate_host :
    validate_envelope limits (("Host", "a") ∷ ("hOST", "b") ∷ []) ≡ some duplicate_header
unfolding validate_envelope total_bytes scan_headers is_critical lower
duplicate_host = refl

Reach-counted_example :
    ((arrive limits accept_host 7 call start).in_flight
      ≡ length (arrive limits accept_host 7 call start).running)
    × ((arrive limits accept_host 7 call start).in_flight ≤ limits.max_concurrent_requests)
    × ((arrive limits accept_host 7 call start).running ≢ []
        → release (arrive limits accept_host 7 call start).in_flight + 1
          ≡ (arrive limits accept_host 7 call start).in_flight)
Reach-counted_example =
    Reach-counted limits accept_host (arrive limits accept_host 7 call start)
      (next here (arrives 7 call start))

validate_envelope_iff_example :
    (validate_envelope limits call.headers ≡ none) ↔ IsSoundEnvelope limits call.headers
validate_envelope_iff_example = validate_envelope_iff limits call.headers
