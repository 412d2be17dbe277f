-- ===== src/Server/Assembly/Boundary.antt =====
-- How the parts of a built server agree, and which origins they trust.
use mcp_server_auth_template.Base.{All, String, false, ◌≡◌}
use mcp_server_auth_template.Base.Result.{Result, ok}
use mcp_server_auth_template.Base.Sets.Laws.{SameMembers}
use mcp_server_auth_template.Server.Assembly.{
  ServerParts, network_config, policy_of, required_issuer, resolve_issuer_url,
}
use mcp_server_auth_template.Settings.{Settings, effective_required_scopes}

-- One issuer everywhere, the settings' trust boundary, and the authorizer of the tools in the
-- verifier; in production every origin that is trusted for keys is https.
pub record IsAssembled (s : Settings) (parts : ServerParts) : Type 0 where
  pub issuer : String
  pub resolved : resolve_issuer_url s ≡ ok issuer
  pub verified : required_issuer parts.verifier ≡ issuer
  pub advertised : parts.auth.issuer_url ≡ issuer
  pub bounded : (policy_of parts.verifier).config ≡ network_config s issuer
  pub shared : parts.progressive.authorizer ≡ parts.authorizer
  pub scopes : SameMembers parts.progressive.global_required_scopes (effective_required_scopes s)
  pub own_audience : parts.auth.validate_token_resource ≡ false
  pub https :
      s.oidc_allow_insecure_loopback ≡ false
      → All (λ o. o.scheme ≡ "https") (policy_of parts.verifier).trusted_jwks_origins
