-- ===== src/ProgressiveHttp.antt =====
-- src/mcp_server_auth_template/adapters/progressive_auth_http.py: the target of a request from its
-- headers, and the 403 that replaces the response when the verifier asks for scopes.
pub mod Laws
pub mod Target
mod Tests
use Prim.Native.String
use mcp_server_auth_template.Base.{
  ◌++◌, ℕ, ◌-◌, String, Bool, true, false, not, ◌&&◌, ◌||◌, Option, none, some, List, [], ◌∷◌, ◌==◌,
  length, ltb, keep, if◌then◌else◌,
}
use mcp_server_auth_template.Base.Text
use mcp_server_auth_template.Base.Text.{
  is_empty, take, drop, all_codes, starts_with, ends_with, strip, join,
}
use mcp_server_auth_template.Base.Sets.{no_items}
use mcp_server_auth_template.Base.Value.{Value, Dict}
use mcp_server_auth_template.Http.{Bytes, Header, lower, Scope, http}
use mcp_server_auth_template.SecurityAudit.{
  oauth_scope_step_up, challenged, details, emit_security_audit,
}

pub record McpRequestTarget : Type 0 where
  pub method : String
  pub name : String

pub record ProgressiveAuthorizationContext : Type 0 where
  pub is_mcp_request : Bool
  pub target : Option McpRequestTarget
  pub required_scopes : List String

-- `[value for name, value in headers if name.lower() == expected_name]`
unfoldable pub header_values : Bytes → List Header → List Bytes
unfolding lower
header_values expected [] = []
header_values expected ((name, value) ∷ headers) =
    let rest = header_values expected headers in
    if lower name == expected then value ∷ rest else rest

abbrev pub ascii_text : Bytes → Option String
ascii_text value = if all_codes (λ c. ltb c 128) value then some value else none

abbrev pub single_value : List Bytes → Option String
single_value [] = none
single_value (value ∷ []) = ascii_text value
single_value (value ∷ _ ∷ _) = none

-- `_single_header`
unfoldable pub single_header : Scope → Bytes → Option String
unfolding header_values
single_header scope expected = single_value (header_values expected scope.headers)

abbrev pub is_text : Option String → String → Bool
is_text none s = false
is_text (some t) s = t == s

-- `b64_utf8` decodes base64 strictly and then UTF-8, by Python's standard library: `none` where
-- either raises.
module _ (b64_utf8 : String → Option String) where
  -- `_decode_header_value`
  unfoldable pub decode_header_value : String → Option String
  unfolding starts_with ends_with strip
  decode_header_value value =
      if starts_with value "=?base64?" && ends_with value "?="
      then b64_utf8 (drop 9 (take (Text.length value - 2) value))
      else if value == strip value
      then some value
      else none

  abbrev pub target_named : Option String → Option McpRequestTarget
  target_named none = none
  target_named (some name) =
      if is_empty name then none else some (record { method = "tools/call"; name = name })

  abbrev pub decoded_target : Option String → Option McpRequestTarget
  decoded_target none = none
  decoded_target (some name) = target_named (decode_header_value name)

  -- `_target_from_scope`
  unfoldable pub target_from_scope : Scope → Option McpRequestTarget
  target_from_scope scope =
      if not (scope.method == "POST")
      then none
      else if is_text (single_header scope "mcp-protocol-version") "2026-07-28"
          && is_text (single_header scope "mcp-method") "tools/call"
      then decoded_target (single_header scope "mcp-name")
      else none

  -- The context that `__call__` sets for a request.
  unfoldable pub context_for : String → Scope → ProgressiveAuthorizationContext
  context_for mcp_path scope =
      let is_mcp = scope.method == "POST" && scope.path == mcp_path in
      record {
        is_mcp_request = is_mcp;
        target = if is_mcp then target_from_scope scope else none;
        required_scopes = [];
      }

-- A message of the ASGI protocol.
pub data Message : Type 0 where
  response_start : ℕ → Dict Bytes → Message
  response_body : Bytes → Message
  other_message : Message

-- `f'Bearer error=…'`
unfoldable pub challenge_value : List String → String → String
unfolding join
challenge_value scopes url =
    String.◌++◌ "Bearer error=\"insufficient_scope\", scope=\"" (
      String.◌++◌ (join " " scopes) (String.◌++◌ "\", resource_metadata=\"" (String.◌++◌ url "\"")))

abbrev pub challenge_body : Bytes
challenge_body =
    "{\"error\":\"insufficient_scope\",\"error_description\":\"Additional authorization is required for this operation.\"}"

abbrev pub challenge_start : Bytes → Message
challenge_start value = response_start 403 (
    ("content-type", "application/json")
    ∷ ("content-length", "109")
    ∷ ("cache-control", "no-store")
    ∷ ("www-authenticate", value)
    ∷ [])

-- What the application does that this middleware can see, in order: the verifier sets the scopes
-- that the request lacks, or a message is sent.
pub data AppEvent : Type 0 where
  requires : List String → AppEvent
  sends : Message → AppEvent

-- The messages that reach the client, and the audit events. The run ends early if the challenge
-- cannot be encoded as ASCII.
pub record Sent : Type 0 where
  pub messages : List Message
  pub events : List (Dict Value)
  pub raised : Bool

abbrev pub tool_of : Option McpRequestTarget → Option String
tool_of none = none
tool_of (some target) = some target.name

unfoldable pub step_up_event : Option McpRequestTarget → List String → Dict Value
step_up_event target scopes =
    emit_security_audit oauth_scope_step_up challenged (record (details "missing_permission") {
      tool_name = tool_of target;
      status_code = some 403;
      required_scope_count = some (length scopes);
    })

abbrev pub send_before : List Message → Sent → Sent
send_before ms s = record s { messages = ms ++ s.messages }

module _ (url : String) (target : Option McpRequestTarget) where
  abbrev pub challenge_then : List String → Sent → Sent
  challenge_then scopes rest =
      let value = challenge_value scopes url in
      let event = step_up_event target scopes in
      if all_codes (λ c. ltb c 128) value
      then record {
        messages = challenge_start value ∷ response_body challenge_body ∷ rest.messages;
        events = event ∷ rest.events;
        raised = rest.raised;
      }
      else record { messages = []; events = event ∷ []; raised = true }

  -- `send_with_scope_challenge` over the events of one request, with `context.required_scopes` and
  -- `response_replaced`.
  unfoldable pub run_app : List String → Bool → List AppEvent → Sent
  run_app scopes replaced [] = record { messages = []; events = []; raised = false }
  run_app scopes replaced (requires wanted ∷ es) = run_app wanted replaced es
  run_app scopes replaced (sends (response_start status headers) ∷ es) =
      let rest = run_app scopes (replaced || not (no_items scopes)) es in
      if no_items scopes
      then send_before (response_start status headers ∷ []) rest
      else challenge_then scopes rest
  run_app scopes replaced (sends (response_body body) ∷ es) =
      let rest = run_app scopes replaced es in
      if replaced then rest else send_before (response_body body ∷ []) rest
  run_app scopes replaced (sends other_message ∷ es) =
      send_before (other_message ∷ []) (run_app scopes replaced es)
