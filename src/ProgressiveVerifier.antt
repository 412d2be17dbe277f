-- ===== src/ProgressiveVerifier.antt =====
-- src/mcp_server_auth_template/adapters/progressive_token_verifier.py: the verifier that asks for
-- missing scopes instead of accepting a token.
pub mod Laws
mod Tests
use mcp_server_auth_template.Base.{
  String, Bool, true, false, not, ◌&&◌, Option, none, some, List, [], ◌∷◌, ◌++◌, if◌then◌else◌,
}
use mcp_server_auth_template.Base.Sets.{subset, sorted_set, no_items}
use mcp_server_auth_template.Base.Value.{Value, Dict}
use mcp_server_auth_template.ToolAuthorization.{
  ToolAuthorizationService, AuthorizationDecision, AuthorizationReason, missing_permission,
  authorize,
}
use mcp_server_auth_template.McpPrincipal.{AuthProvider, AccessToken, principal_from_access_token}
use mcp_server_auth_template.ProgressiveHttp.{ProgressiveAuthorizationContext, McpRequestTarget}
use mcp_server_auth_template.SecurityAudit.{
  authentication_rejected, denied, details, emit_security_audit,
}

pub record Verifier : Type 0 where
  pub authorizer : ToolAuthorizationService
  pub auth_provider : AuthProvider
  pub global_required_scopes : List String

-- ProgressiveAuthorizationTokenVerifier.__init__, without the delegate
unfoldable pub progressive_verifier :
    ToolAuthorizationService → AuthProvider → List String → Verifier
progressive_verifier authorizer provider scopes = record {
  authorizer = authorizer;
  auth_provider = provider;
  global_required_scopes = sorted_set scopes;
}

-- The result, the context after the call and the audit events.
pub record Verified : Type 0 where
  pub token : Option AccessToken
  pub context : Option ProgressiveAuthorizationContext
  pub events : List (Dict Value)

abbrev pub is_missing : AuthorizationReason → Bool
is_missing missing_permission = true
is_missing _ = false

-- The scopes that a decision adds to the challenge.
abbrev pub step_scopes : AuthorizationDecision → List String
step_scopes d =
    if not d.is_allowed && (is_missing d.reason && not (no_items d.required_scopes))
    then d.required_scopes
    else []

module _ (print_value : Value → String) (v : Verifier) where
  unfoldable pub global_step : AccessToken → List String
  global_step t = if subset v.global_required_scopes t.scopes then [] else v.global_required_scopes

  abbrev pub target_step : AccessToken → Option McpRequestTarget → List String
  target_step t none = []
  target_step t (some target) = step_scopes (
      authorize v.authorizer target.name
        (some (principal_from_access_token print_value t v.auth_provider)))

  -- `challenge_scopes`
  unfoldable pub challenge_scopes : AccessToken → Option McpRequestTarget → List String
  challenge_scopes t target = global_step t ++ target_step t target

  abbrev pub challenge : AccessToken → ProgressiveAuthorizationContext → List String → Verified
  challenge t ctx scopes =
      if no_items scopes
      then record { token = some t; context = some ctx; events = [] }
      else record {
        token = none;
        context = some (record ctx { required_scopes = sorted_set scopes });
        events = [];
      }

  abbrev pub verify_for : AccessToken → Option ProgressiveAuthorizationContext → Verified
  verify_for t none = record { token = some t; context = none; events = [] }
  verify_for t (some ctx) =
      if not ctx.is_mcp_request
      then record { token = some t; context = some ctx; events = [] }
      else challenge t ctx (challenge_scopes t ctx.target)

  -- `verify_token`, on what the delegate's `verify_token` returned
  unfoldable pub verify_token :
      Option AccessToken → Option ProgressiveAuthorizationContext → Verified
  verify_token none ctx = record {
    token = none;
    context = ctx;
    events =
        emit_security_audit authentication_rejected denied (details "token_verification_failed")
        ∷ [];
  }
  verify_token (some t) ctx = verify_for t ctx
