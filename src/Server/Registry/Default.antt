-- ===== src/Server/Registry/Default.antt =====
-- The registry that the server starts with.
use mcp_server_auth_template.Base.{Option, String, [], false, none, refl, some, true, ◌∷◌, ◌≡◌}
use mcp_server_auth_template.Base.Result.{ok}
use mcp_server_auth_template.Base.Sets.{sorted}
use mcp_server_auth_template.Base.Text.{is_empty}
use mcp_server_auth_template.Base.Value.{Dict}
use mcp_server_auth_template.McpPrincipal.{AuthProvider, entra, generic}
use mcp_server_auth_template.ScopeClaims.{qualify_scopes, resource_prefix}
use mcp_server_auth_template.Server.Registry.{
  build_tool_authorizer, default_registry, effective_policies, effective_policy, effective_registry,
  health_scope, service_of,
}
use mcp_server_auth_template.Server.Registry.Laws.{is_scope_kind}
use mcp_server_auth_template.Settings.{Settings}
use mcp_server_auth_template.ToolAuthorization.{
  ToolAuthorizationService, ToolPolicy, ToolPolicyKind, application_roles, authenticated,
  delegated_scopes, delegated_scopes_policy, is_valid_oauth_scope_token, oauth_scopes,
  oauth_scopes_policy, required_scopes_for,
}
use Prim.Native.String
use text.Mathlib.TextLemmas.{nil-append, cons-append}

-- The scope that the health tool asks for.
abbrev pub health_scope_of : AuthProvider → Option String → String
health_scope_of entra (some uri) = String.◌++◌ (resource_prefix uri) health_scope
health_scope_of _ _ = health_scope

scope_policies_single :
    (x : String)
    → is_empty x ≡ false
    → is_valid_oauth_scope_token x ≡ true
    → (delegated_scopes_policy (x ∷ [])
        ≡ ok (record { kind = delegated_scopes; permissions = x ∷ [] }))
      × (oauth_scopes_policy (x ∷ []) ≡ ok (record { kind = oauth_scopes; permissions = x ∷ [] }))
unfolding delegated_scopes_policy oauth_scopes_policy
scope_policies_single x full valid = rw (full, valid) (refl, refl)

qualify_scopes_single :
    (uri : String)
    → qualify_scopes (sorted (health_scope ∷ [])) uri ≡ health_scope_of entra (some uri) ∷ []
unfolding qualify_scopes
qualify_scopes_single uri = refl

is_empty-append : (p s : String) → is_empty s ≡ false → is_empty (String.◌++◌ p s) ≡ false
is_empty-append String.[] s h = rw nil-append h
is_empty-append (String.◌∷◌ c p) s h = rw cons-append refl

abbrev health_kind : AuthProvider → ToolPolicyKind
health_kind entra = delegated_scopes
health_kind generic = oauth_scopes

-- the registry that is to come out
abbrev started : ToolPolicyKind → String → Dict ToolPolicy
started kind scope =
    ("whoami", record { kind = authenticated; permissions = [] })
    ∷ ("health", record { kind = kind; permissions = scope ∷ [] })
    ∷ []

default_registry_lem :
    (provider : AuthProvider)
    → default_registry provider ≡ ok (started (health_kind provider) health_scope)
unfolding default_registry
default_registry_lem entra = refl
default_registry_lem generic = refl

effective_started :
    (provider : AuthProvider) (uri : Option String)
    → is_valid_oauth_scope_token (health_scope_of provider uri) ≡ true
    → effective_registry provider uri (started (health_kind provider) health_scope)
      ≡ ok (started (health_kind provider) (health_scope_of provider uri))
unfolding effective_policies effective_policy
effective_started generic uri valid = refl
effective_started entra none valid = refl
effective_started entra (some uri) valid =
    rw
      (
        qualify_scopes_single uri,
        (scope_policies_single (health_scope_of entra (some uri))
            (is_empty-append (resource_prefix uri) health_scope refl) valid).0,
      )
      refl

started_scopes :
    (kind : ToolPolicyKind) (scope : String)
    → is_scope_kind kind ≡ true
    → (required_scopes_for (service_of (started kind scope)) "health" ≡ scope ∷ [])
      × (required_scopes_for (service_of (started kind scope)) "whoami" ≡ [])
unfolding required_scopes_for sorted
started_scopes delegated_scopes scope h = (refl, refl)
started_scopes oauth_scopes scope h = (refl, refl)
started_scopes authenticated scope h = cc
started_scopes application_roles scope h = cc

is_scope_kind-health_kind : (provider : AuthProvider) → is_scope_kind (health_kind provider) ≡ true
is_scope_kind-health_kind entra = refl
is_scope_kind-health_kind generic = refl

-- The default registry can always be built where the scope of the health tool, qualified with the
-- application ID URI under Entra ID, is a scope-token; then `health` asks for exactly that scope,
-- and `whoami` for none.
build_tool_authorizer_exists :
    (s : Settings)
    → is_valid_oauth_scope_token (health_scope_of s.auth_provider s.entra_application_id_uri) ≡ true
    → (service : ToolAuthorizationService) × (build_tool_authorizer s none ≡ ok service)
      × (required_scopes_for service "health"
          ≡ health_scope_of s.auth_provider s.entra_application_id_uri ∷ [])
      × (required_scopes_for service "whoami" ≡ [])
unfolding build_tool_authorizer
build_tool_authorizer_exists s valid =
    let scope = health_scope_of s.auth_provider s.entra_application_id_uri in
    let (health, whoami) =
      started_scopes (health_kind s.auth_provider) scope
        (is_scope_kind-health_kind s.auth_provider) in
    (
      service_of (started (health_kind s.auth_provider) scope),
      rw
          (
            default_registry_lem s.auth_provider,
            effective_started s.auth_provider s.entra_application_id_uri valid,
          )
          refl,
      health,
      whoami,
    )
