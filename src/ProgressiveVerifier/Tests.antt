-- ===== src/ProgressiveVerifier/Tests.antt =====
-- A token that lacks the scopes of the tool it calls.
use mcp_server_auth_template.Base.{List, String, [], none, refl, some, true, ◌∷◌, ◌≡◌, ◌≢◌}
use mcp_server_auth_template.Base.Sets.{subset}
use mcp_server_auth_template.Base.Value.{Value}
use mcp_server_auth_template.McpPrincipal.{AccessToken, generic, principal_from_access_token}
use mcp_server_auth_template.ProgressiveHttp.{McpRequestTarget, ProgressiveAuthorizationContext}
use mcp_server_auth_template.ProgressiveVerifier.{
  Verifier, challenge_scopes, global_step, verify_token,
}
use mcp_server_auth_template.ProgressiveVerifier.Laws.{
  AsksNothing, challenge_suffices, verify_token_sound, with_more,
}
use mcp_server_auth_template.ToolAuthorization.{
  authorize, decide_kind, oauth_scopes, permission_decision,
}

abbrev verifier : Verifier
verifier = record {
  authorizer = record {
    policies = ("health", record { kind = oauth_scopes; permissions = "h" ∷ "g" ∷ [] }) ∷ [];
  };
  auth_provider = generic;
  global_required_scopes = "mcp" ∷ [];
}

abbrev small_token : AccessToken
small_token = record {
  token = "t";
  client_id = "cli";
  scopes = "mcp" ∷ "g" ∷ [];
  expires_at = 100;
  resource = "api";
  subject = some "sub";
  claims = none;
}

abbrev big_token : AccessToken
big_token = record small_token { scopes = "mcp" ∷ "g" ∷ "h" ∷ [] }

abbrev print_other : Value → String
print_other v = "?"

abbrev call : ProgressiveAuthorizationContext
call = record {
  is_mcp_request = true;
  target = some (record { method = "tools/call"; name = "health" });
  required_scopes = [];
}

challenge_suffices_example :
    (ss : List String) × (call.is_mcp_request ≡ true)
    × (ss ≢ [])
    × ((verify_token print_other verifier (some small_token) (some call)).context
        ≡ some (record call { required_scopes = ss }))
    × ((verify_token print_other verifier (some (with_more small_token ss)) (some call)).token
        ≡ some (with_more small_token ss))
unfolding verify_token challenge_scopes global_step authorize decide_kind permission_decision
    principal_from_access_token
challenge_suffices_example = challenge_suffices print_other verifier small_token call refl

verify_token_sound_example :
    (some big_token ≡ some big_token)
    × (call.is_mcp_request ≡ true
        → (subset verifier.global_required_scopes big_token.scopes ≡ true)
          × ((target : McpRequestTarget)
              → call.target ≡ some target
              → AsksNothing (
                  authorize verifier.authorizer target.name (
                    some
                      (principal_from_access_token print_other big_token verifier.auth_provider)))))
unfolding verify_token challenge_scopes global_step authorize decide_kind permission_decision
    principal_from_access_token
verify_token_sound_example =
    verify_token_sound print_other verifier (some big_token) call big_token refl
