-- ===== src/Transport.antt =====
-- src/mcp_server_auth_template/adapters/http_transport_security.py: the admission of a request before
-- authentication.
pub mod Envelope
pub mod Concurrency
pub mod Pipeline
mod Tests
use mcp_server_auth_template.Base.{
  not, ℕ, ◌+◌, suc, ◌-◌, String, Bool, true, false, ◌&&◌, ◌||◌, Option, none, some, List, [], ◌∷◌,
  ◌==◌, length, ltb, leb, if◌then◌else◌,
}
use mcp_server_auth_template.Base.Text
use mcp_server_auth_template.Base.Sets.{contains}
use mcp_server_auth_template.Base.Value.{Value, Dict}
use mcp_server_auth_template.Http.{Bytes, Header, lower, Scope, http, Response}
use mcp_server_auth_template.SecurityAudit.{
  transport_rejected, denied, details, emit_security_audit,
}

abbrev pub critical_singleton_headers : List Bytes
critical_singleton_headers =
    "authorization" ∷ "content-length" ∷ "content-type" ∷ "host" ∷ "mcp-method" ∷ "mcp-name"
    ∷ "mcp-protocol-version" ∷ "mcp-session-id" ∷ "origin" ∷ "transfer-encoding" ∷ []

unfoldable pub is_critical : Bytes → Bool
unfolding contains
is_critical name = contains name critical_singleton_headers

-- A response that refuses a request, with the reason that is audited.
pub record Rejection : Type 0 where
  pub reason : String
  pub response : Response

abbrev pub reject : String → ℕ → Dict String → String → Rejection
reject reason status headers body = record {
  reason = reason;
  response = record { status = status; headers = headers; body = body };
}

-- `_audit_transport_rejection`
unfoldable pub transport_rejection_event : String → ℕ → Dict Value
transport_rejection_event reason status =
    emit_security_audit transport_rejected denied
      (record (details reason) { status_code = some status })

-- The fields of HttpTransportAdmissionMiddleware that its tests read.
pub record Limits : Type 0 where
  pub mcp_path : String
  pub max_header_count : ℕ
  pub max_header_bytes : ℕ
  pub max_concurrent_requests : ℕ
  pub operational_paths : List String

-- `sum(len(name) + len(value) + 4 for name, value in headers)`
unfoldable pub total_bytes : List Header → ℕ
total_bytes [] = 0
total_bytes ((name, value) ∷ headers) =
    Text.length name + Text.length value + 4 + total_bytes headers

abbrev pub duplicate_header : Rejection
duplicate_header = reject "duplicate_security_header" 400 [] "Duplicate security-critical header"

abbrev pub ambiguous_framing : Rejection
ambiguous_framing = reject "ambiguous_request_framing" 400 [] "Ambiguous request framing"

-- The loop of `_validate_envelope`, with the names seen so far and the two flags.
unfoldable pub scan_headers : List Bytes → Bool → Bool → List Header → Option Rejection
scan_headers seen has_length has_encoding [] =
    if has_length && has_encoding then some ambiguous_framing else none
scan_headers seen has_length has_encoding ((raw_name, _) ∷ headers) =
    let name = lower raw_name in
    let rest =
      scan_headers (if is_critical name then name ∷ seen else seen)
        (has_length || name == "content-length") (has_encoding || name == "transfer-encoding")
        headers in
    if is_critical name && contains name seen then some duplicate_header else rest

-- `_validate_envelope`
unfoldable pub validate_envelope : Limits → List Header → Option Rejection
validate_envelope limits headers =
    if ltb limits.max_header_count (length headers)
    then some (reject "header_count_limit" 431 [] "Too many request headers")
    else if ltb limits.max_header_bytes (total_bytes headers)
    then some (reject "header_bytes_limit" 431 [] "Request headers too large")
    else scan_headers [] false false headers

-- `_try_admit`: whether the request is admitted, and the new `_in_flight`.
unfoldable pub try_admit : Limits → ℕ → Bool × ℕ
try_admit limits in_flight =
    if leb limits.max_concurrent_requests in_flight
    then (false, in_flight)
    else (true, suc in_flight)

-- `_release`, for a counter above 0.
unfoldable pub release : ℕ → ℕ
release in_flight = in_flight - 1

-- What the middleware does with a request before the application runs.
pub data Admission : Type 0 where
  -- handed to the application, without a slot
  bypass : Admission
  -- handed to the application, with a slot that is released when it returns or raises
  admitted : Admission
  refused : Response → List (Dict Value) → Admission

abbrev pub refuse : Rejection → Admission
refuse r = refused r.response (transport_rejection_event r.reason r.response.status ∷ [])

-- `sdk_check` is TransportSecurityMiddleware.validate_request of the MCP SDK: the Host and Origin
-- check, whose response is the refusal.
module _ (limits : Limits) (sdk_check : Scope → Bool → Option Response) where
  abbrev pub admit_slot : ℕ → Admission × ℕ
  admit_slot in_flight =
      let (granted, in_flight') = try_admit limits in_flight in
      if granted then (admitted, in_flight') else (
        refuse (
            reject "concurrency_limit" 503 (("Retry-After", "1") ∷ [])
              "Server is at its request concurrency limit"),
        in_flight',
      )

  abbrev pub after_host_check : Scope → Option Response → ℕ → Admission × ℕ
  after_host_check scope (some response) in_flight = (
    refused response (transport_rejection_event "host_or_origin_rejected" response.status ∷ []),
    in_flight,
  )
  after_host_check scope none in_flight =
      if scope.path == limits.mcp_path && not (scope.method == "POST")
      then (refuse (reject "method_not_allowed" 405 (("Allow", "POST") ∷ []) ""), in_flight)
      else admit_slot in_flight

  abbrev pub after_envelope : Scope → Option Rejection → ℕ → Admission × ℕ
  after_envelope scope (some rejection) in_flight = (refuse rejection, in_flight)
  after_envelope scope none in_flight =
      if contains scope.path limits.operational_paths
      then (bypass, in_flight)
      else after_host_check scope (sdk_check scope (scope.method == "POST")) in_flight

  -- HttpTransportAdmissionMiddleware.__call__, up to the call of the application.
  unfoldable pub admit : Scope → ℕ → Admission × ℕ
  admit scope in_flight = elim scope.type [
    | http ↦ after_envelope scope (validate_envelope limits scope.headers) in_flight
    | _ ↦ (bypass, in_flight)
  ]
