-- ===== src/Server/Registry.antt =====
-- src/mcp_server_auth_template/entrypoints/mcp_server.py: the registry of tool policies.
use mcp_server_auth_template.Base.{[], Option, String, none, some, ◌∷◌}
use mcp_server_auth_template.Base.Result.{Result, ok, ◌>>=◌}
use mcp_server_auth_template.Base.Sets.{sorted}
use mcp_server_auth_template.Base.Value.{Dict}
use mcp_server_auth_template.McpPrincipal.{AuthProvider, entra, generic}
use mcp_server_auth_template.ScopeClaims.{qualify_scopes}
use mcp_server_auth_template.Settings.{Settings}
use mcp_server_auth_template.ToolAuthorization.{
  PolicyError, ToolAuthorizationService, ToolPolicy, authenticated_policy, delegated_scopes,
  delegated_scopes_policy, oauth_scopes, oauth_scopes_policy,
}
pub mod Laws
pub mod Default

abbrev pub health_scope : String
health_scope = "mcp:tools:health"

unfoldable pub health_policy : AuthProvider → Result PolicyError ToolPolicy
unfolding delegated_scopes_policy oauth_scopes_policy
health_policy entra = delegated_scopes_policy (health_scope ∷ [])
health_policy generic = oauth_scopes_policy (health_scope ∷ [])

-- `policy_registry` without a registry given
unfoldable pub default_registry : AuthProvider → Result PolicyError (Dict ToolPolicy)
unfolding authenticated_policy health_policy
default_registry provider = do
  health ← health_policy provider
  whoami ← authenticated_policy
  ok (("whoami", whoami) ∷ ("health", health) ∷ [])

-- one turn of the loop over the registry, for a resource URI
unfoldable pub effective_policy : String → ToolPolicy → Result PolicyError ToolPolicy
unfolding delegated_scopes_policy oauth_scopes_policy qualify_scopes sorted
effective_policy uri p = elim p.kind [
  | delegated_scopes ↦ delegated_scopes_policy (qualify_scopes (sorted p.permissions) uri)
  | oauth_scopes ↦ oauth_scopes_policy (qualify_scopes (sorted p.permissions) uri)
  | _ ↦ ok p
]

-- The loop over the registry, in which each name stands once.
unfoldable pub effective_policies : String → Dict ToolPolicy → Result PolicyError (Dict ToolPolicy)
unfolding effective_policy
effective_policies uri [] = ok []
effective_policies uri ((name, p) ∷ registry) = do
  e ← effective_policy uri p
  others ← effective_policies uri registry
  ok ((name, e) ∷ others)

abbrev pub service_of : Dict ToolPolicy → ToolAuthorizationService
service_of registry = record { policies = registry }

abbrev pub effective_registry :
    AuthProvider → Option String → Dict ToolPolicy → Result PolicyError (Dict ToolPolicy)
effective_registry entra (some uri) registry = effective_policies uri registry
effective_registry _ _ registry = ok registry

abbrev pub registry_of :
    AuthProvider → Option (Dict ToolPolicy) → Result PolicyError (Dict ToolPolicy)
registry_of provider none = default_registry provider
registry_of provider (some policies) = ok policies

-- `_build_tool_authorizer`
unfoldable pub build_tool_authorizer :
    Settings → Option (Dict ToolPolicy) → Result PolicyError ToolAuthorizationService
unfolding default_registry effective_policies
build_tool_authorizer s policies = do
  registry ← registry_of s.auth_provider policies
  effective ← effective_registry s.auth_provider s.entra_application_id_uri registry
  ok (service_of effective)
