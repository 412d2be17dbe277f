-- ===== src/ProgressiveHttp/Tests.antt =====
-- A tool call with the headers of protocol version 2026-07-28, and the responses to it.
use mcp_server_auth_template.Base.{Option, String, [], none, refl, some, ◌∷◌, ◌≡◌}
use mcp_server_auth_template.Http.{Scope, http}
use mcp_server_auth_template.ProgressiveHttp.{
  McpRequestTarget, context_for, decode_header_value, single_header, target_from_scope,
}

abbrev plain_only : String → Option String
plain_only value = none

abbrev call : Scope
call = record {
  type = http;
  method = "POST";
  path = "/mcp";
  headers =
      ("MCP-Protocol-Version", "2026-07-28")
      ∷ ("Mcp-Method", "tools/call")
      ∷ ("Mcp-Name", "health")
      ∷ [];
}

abbrev health : McpRequestTarget
health = record { method = "tools/call"; name = "health" }

abbrev metadata_url : String
metadata_url = "https://api/.well-known/oauth-protected-resource/mcp"

the_target : (context_for plain_only "/mcp" call).target ≡ some health
unfolding context_for target_from_scope single_header decode_header_value
the_target = refl

twice_named :
    (context_for plain_only "/mcp"
      (record call { headers = ("mcp-name", "x") ∷ call.headers })).target
    ≡ none
unfolding context_for target_from_scope single_header
twice_named = refl
