-- ===== src/Server/Assembly.antt =====
-- src/mcp_server_auth_template/entrypoints/mcp_server.py: the issuer, the network policy, the token
-- verifier and the parts of the server.
use mcp_server_auth_template.Base.{
  if◌then◌else◌, Bool, List, Option, String, [], false, none, some, ◌||◌, ◌∷◌,
}
use mcp_server_auth_template.Base.Value.{pos}
use mcp_server_auth_template.Base.Result.{◌>>=◌, Result, err, ok}
use mcp_server_auth_template.Base.Text.{is_empty}
use mcp_server_auth_template.McpPrincipal.{AuthProvider, entra, generic}
use mcp_server_auth_template.OidcNetwork.{Config, NetworkError, Policy, Urls, network_policy}
use mcp_server_auth_template.ProgressiveVerifier.{Verifier, progressive_verifier}
use mcp_server_auth_template.Server.{
  ServerError, entra_incomplete, generic_incomplete, network, no_issuer, policy,
}
use mcp_server_auth_template.Server.Registry.{build_tool_authorizer}
use mcp_server_auth_template.Settings.{Settings, effective_required_scopes}
use mcp_server_auth_template.TokenVerifier.{entra_issuer}
use mcp_server_auth_template.ToolAuthorization.{PolicyError, ToolAuthorizationService}
pub mod Laws
pub mod Boundary

-- `_resolve_issuer_url`
abbrev pub issuer_or_error : Option String → Result ServerError String
issuer_or_error none = err no_issuer
issuer_or_error (some url) = ok url

-- Python prints an absent tenant as `None`.
abbrev pub tenant_text : Option String → String
tenant_text none = "None"
tenant_text (some tenant) = tenant

abbrev pub issuer_for : AuthProvider → Settings → Result ServerError String
issuer_for entra s = ok (entra_issuer (tenant_text s.entra_tenant_id))
issuer_for generic s = issuer_or_error s.generic_issuer_url

unfoldable pub resolve_issuer_url : Settings → Result ServerError String
resolve_issuer_url s = issuer_for s.auth_provider s

abbrev pub origins_for : AuthProvider → Settings → List String
origins_for entra s = []
origins_for generic s = s.generic_jwks_allowed_origins

-- The arguments that `_build_oidc_network_policy` passes on, and the defaults of the others; the
-- unit of the timeouts is a second.
unfoldable pub network_config : Settings → String → Config
network_config s issuer = record {
  issuer_url = issuer;
  allow_insecure_loopback = s.oidc_allow_insecure_loopback;
  jwks_allowed_origins = origins_for s.auth_provider s;
  dns_timeout = pos 2;
  http_timeout = pos 5;
  discovery_max_bytes = 65536;
  jwks_max_bytes = 524288;
}

-- The arguments of EntraTokenVerifier and GenericOidcTokenVerifier, with the policy that their
-- discovery client and key resolver share.
pub data VerifierParts : Type 0 where
  entra_parts : String → String → String → Policy → VerifierParts
  generic_parts : String → String → Policy → VerifierParts

abbrev pub policy_of : VerifierParts → Policy
policy_of (entra_parts tenant audience uri p) = p
policy_of (generic_parts issuer audience p) = p

-- The issuer that the verifier asks of a token.
abbrev pub required_issuer : VerifierParts → String
required_issuer (entra_parts tenant audience uri p) = entra_issuer tenant
required_issuer (generic_parts issuer audience p) = issuer

abbrev pub lift_network {ℓ} : {A : Type ℓ} → Result NetworkError A → Result ServerError A
lift_network (err e) = err (network e)
lift_network (ok a) = ok a

abbrev pub lift_policy {ℓ} : {A : Type ℓ} → Result PolicyError A → Result ServerError A
lift_policy (err e) = err (policy e)
lift_policy (ok a) = ok a

-- What AuthSettings is built from: the issuer and the scopes, of which none are `None`; the check
-- of the token's resource is off.
pub record AuthSettings : Type 0 where
  pub issuer_url : String
  pub resource_server_url : String
  pub required_scopes : Option (List String)
  pub validate_token_resource : Bool

abbrev pub scopes_or_none : List String → Option (List String)
scopes_or_none [] = none
scopes_or_none (scope ∷ scopes) = some (scope ∷ scopes)

-- `_build_auth_settings`
unfoldable pub build_auth_settings : Settings → String → AuthSettings
unfolding effective_required_scopes
build_auth_settings s issuer = record {
  issuer_url = issuer;
  resource_server_url = s.resource_server_url;
  required_scopes = scopes_or_none (effective_required_scopes s);
  validate_token_resource = false;
}

-- What build_server puts together.
pub record ServerParts : Type 0 where
  pub verifier : VerifierParts
  pub authorizer : ToolAuthorizationService
  pub progressive : Verifier
  pub auth : AuthSettings

module _ {Address : Type 0} (urls : Urls Address) where
  -- `_build_oidc_network_policy`
  unfoldable pub build_oidc_network_policy : Settings → String → Result ServerError Policy
  unfolding network_config
  build_oidc_network_policy s issuer = lift_network (network_policy urls (network_config s issuer))

  -- `network_policy or _build_oidc_network_policy(…)`
  abbrev pub policy_or_built :
      Option Policy → Settings → Result ServerError String → Result ServerError Policy
  policy_or_built (some p) s issuer = issuer >>= λ _. ok p
  policy_or_built none s issuer = issuer >>= build_oidc_network_policy s

  abbrev pub entra_verifier :
      Option String
      → Option String
      → Option String
      → Result ServerError Policy
      → Result ServerError VerifierParts
  entra_verifier (some tenant) (some audience) (some uri) p =
      if is_empty tenant || is_empty audience || is_empty uri
      then err entra_incomplete
      else p >>= λ p. ok (entra_parts tenant audience uri p)
  entra_verifier _ _ _ p = err entra_incomplete

  abbrev pub generic_verifier :
      Option String
      → Option String
      → (String → Result ServerError Policy)
      → Result ServerError VerifierParts
  generic_verifier (some issuer) (some audience) p =
      if is_empty issuer || is_empty audience
      then err generic_incomplete
      else p issuer >>= λ p. ok (generic_parts issuer audience p)
  generic_verifier _ _ p = err generic_incomplete

  abbrev pub verifier_for :
      AuthProvider → Settings → Option Policy → Result ServerError VerifierParts
  verifier_for entra s given =
      entra_verifier s.entra_tenant_id s.entra_audience s.entra_application_id_uri
        (policy_or_built given s (resolve_issuer_url s))
  verifier_for generic s given =
      generic_verifier s.generic_issuer_url s.generic_audience
        (λ issuer. policy_or_built given s (ok issuer))

  -- `_build_token_verifier`
  unfoldable pub build_token_verifier : Settings → Option Policy → Result ServerError VerifierParts
  unfolding resolve_issuer_url build_oidc_network_policy
  build_token_verifier s given = verifier_for s.auth_provider s given

  -- build_server, without the client, the logging and the tools of the SDK
  unfoldable pub build_server : Settings → Result ServerError ServerParts
  unfolding resolve_issuer_url build_oidc_network_policy build_token_verifier build_auth_settings
      build_tool_authorizer progressive_verifier effective_required_scopes
  build_server s = do
    issuer ← resolve_issuer_url s
    p ← build_oidc_network_policy s issuer
    verifier ← build_token_verifier s (some p)
    authorizer ← lift_policy (build_tool_authorizer s none)
    ok (record {
      verifier = verifier;
      authorizer = authorizer;
      progressive = progressive_verifier authorizer s.auth_provider (effective_required_scopes s);
      auth = build_auth_settings s issuer;
    })
