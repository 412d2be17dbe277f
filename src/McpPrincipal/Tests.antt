-- ===== src/McpPrincipal/Tests.antt =====
-- An Entra token of an application, and what it may call.
use mcp_server_auth_template.Base.{String, [], none, refl, some, true, ◌∷◌, ◌≡◌, ◌≢◌, ◌⊎◌}
use mcp_server_auth_template.Base.Value.{Dict, Value, arr, cons, get, lookup, nil, str}
use mcp_server_auth_template.McpPrincipal.{
  AccessToken, claims_or_empty, entra, entra_principal_kind, generic, principal_from_access_token,
}
use mcp_server_auth_template.McpPrincipal.Laws.{provider_confines}
use mcp_server_auth_template.Principal.{application}
use mcp_server_auth_template.ScopeClaims.{claim_words}
use mcp_server_auth_template.ToolAuthorization.{
  ToolAuthorizationService, ToolPolicy, application_roles, authenticated, authorize,
  delegated_scopes, oauth_scopes,
}

abbrev app_claims : Dict Value
app_claims = ("idtyp", str "app") ∷ ("roles", arr (cons (str "Admin") nil)) ∷ []

abbrev app_token : AccessToken
app_token = record {
  token = "t";
  client_id = "cli";
  scopes = [];
  expires_at = 100;
  resource = "api";
  subject = none;
  claims = some app_claims;
}

abbrev admin_policy : ToolPolicy
admin_policy = record { kind = application_roles; permissions = "Admin" ∷ [] }

abbrev registry : ToolAuthorizationService
registry = record { policies = ("admin", admin_policy) ∷ [] }

abbrev print_other : Value → String
print_other v = "?"

app_is_application : entra_principal_kind app_claims ≡ application
unfolding entra_principal_kind
app_is_application = refl

provider_confines_example :
    ((authorize registry "admin"
          (some (principal_from_access_token print_other app_token generic))).is_allowed
        ≡ true
      → (admin_policy.kind ≡ authenticated) ⊎ (admin_policy.kind ≡ oauth_scopes))
    × (claim_words (get "scp" (claims_or_empty app_token.claims)) ≡ []
        → (authorize registry "admin"
            (some (principal_from_access_token print_other app_token entra))).is_allowed
          ≡ true
        → admin_policy.kind ≢ delegated_scopes)
unfolding lookup
provider_confines_example =
    provider_confines print_other registry "admin" app_token admin_policy refl
