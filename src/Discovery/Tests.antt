-- ===== src/Discovery/Tests.antt =====
-- Discovery from the sample server.
use mcp_server_auth_template.Discovery.Samples.{counting_get, keep_all, known, loads_one, policy}
use mcp_server_auth_template.Base.{[], refl, ◌≡◌}
use mcp_server_auth_template.Base.Value.{get, lookup}
use mcp_server_auth_template.Base.Result.{ok}
use mcp_server_auth_template.Base.Sets.{contains}
use mcp_server_auth_template.Base.Text.{has_infix, rstrip, starts_with}
use mcp_server_auth_template.Discovery.{OidcMetadata, discover, document_metadata, fetch}
use mcp_server_auth_template.Discovery.Laws.{IsSoundCache, IsTrustedMetadata, discover-IsTrusted}
use mcp_server_auth_template.Http.{lower}
use mcp_server_auth_template.OidcJson.{fresh_keys, parse_json_object, passes_hook}
use mcp_server_auth_template.OidcNetwork.{
  assert_jwks_uri_trusted, assert_metadata_trusted, default_port, is_trusted, normalize_host,
  origin, parse_url, same_origin,
}

first_discovery :
    (discover known policy counting_get loads_one keep_all "https://idp" 5 [] 0).0
    ≡ ok (record { issuer = "https://idp"; jwks_uri = "https://idp/keys" })
unfolding get discover fetch document_metadata parse_json_object passes_hook fresh_keys
    assert_metadata_trusted assert_jwks_uri_trusted is_trusted same_origin parse_url origin
    normalize_host default_port rstrip lower starts_with has_infix lookup contains
first_discovery = refl

empty-IsSoundCache : IsSoundCache known policy counting_get loads_one keep_all []
unfolding lookup
empty-IsSoundCache issuer t m h = cc

discover-IsTrusted_example :
    IsSoundCache known policy counting_get loads_one keep_all
      (discover known policy counting_get loads_one keep_all "https://idp" 5 [] 0).1
    × ((m : OidcMetadata)
        → (discover known policy counting_get loads_one keep_all "https://idp" 5 [] 0).0 ≡ ok m
        → ("https://idp" ≡ policy.config.issuer_url) × IsTrustedMetadata known policy m)
discover-IsTrusted_example =
    discover-IsTrusted known policy counting_get loads_one keep_all "https://idp" 5 [] 0
      empty-IsSoundCache
