-- ===== src/OidcNetwork/Tests.antt =====
-- A policy for one issuer, with a parser that knows two URLs and a resolver that answers with one
-- address. Addresses are numbers, of which those below 10 are loopback and the others global.
use mcp_server_auth_template.Base.{
  if◌then◌else◌, All, List, Option, String, [], false, ltb, none, not, refl, some, suc, true, ℕ,
  ◌++◌, ◌<◌, ◌↔◌, ◌∷◌, ◌≡◌, ◌≤◌,
}
use mcp_server_auth_template.Base.Value.{pos}
use mcp_server_auth_template.Base.Result.{Result, ok}
use mcp_server_auth_template.Base.Text.{has_infix, rstrip, starts_with}
use mcp_server_auth_template.Http.{Bytes, lower}
use mcp_server_auth_template.OidcNetwork.{
  Config, NetworkError, Policy, ResolvedTarget, SplitUrl, Urls, assert_jwks_uri_trusted,
  bounded_chunks, default_port, effective_address, is_trusted, issuer_origin, jwks, network_policy,
  normalize_host, origin, parse_url, pin, request_kind, resolve, same_origin, trusted_from,
}
use mcp_server_auth_template.OidcNetwork.Bodies.{bounded_chunks_lem, size}
use mcp_server_auth_template.OidcNetwork.Pinned.{network_policy-IsHttps}
use mcp_server_auth_template.OidcNetwork.Targets.{IsPinned, resolve-IsPinned}

abbrev split_known : String → Option SplitUrl
split_known url =
    if starts_with url "https://idp"
    then some (record {
      scheme = "https";
      hostname = some "IDP.";
      port = none;
      with_userinfo = false;
      path = "/keys";
      query = "";
      fragment = "";
    })
    else none

abbrev known : Urls ℕ
known = record {
  urlsplit = split_known;
  idna = λ host. some host;
  ip_address = λ host. none;
  is_loopback = λ a. ltb a 10;
  is_global = λ a. not (ltb a 10);
  ipv4_mapped = λ a. none;
}

abbrev config : Config
config = record {
  issuer_url = "https://idp/";
  allow_insecure_loopback = false;
  jwks_allowed_origins = [];
  dns_timeout = pos 2;
  http_timeout = pos 5;
  discovery_max_bytes = 100;
  jwks_max_bytes = 200;
}

abbrev policy : Policy
policy = record {
  config = config;
  discovery_url = "https://idp/.well-known/openid-configuration";
  trusted_jwks_origins = record { scheme = "https"; host = "idp"; port = 443 } ∷ [];
}

abbrev one_address : String → ℕ → ℕ → Result NetworkError (List ℕ) × ℕ
one_address host port n = (ok (80 ∷ []), suc n)

abbrev target : ResolvedTarget ℕ
target = record {
  origin = record { scheme = "https"; host = "idp"; port = 443 };
  ip = 80;
  kind = jwks;
}

policy_is_built : network_policy known config ≡ ok policy
unfolding network_policy issuer_origin trusted_from parse_url origin normalize_host default_port
    rstrip lower starts_with has_infix
policy_is_built = refl

network_policy-IsHttps_example :
    (policy.config ≡ config)
    × (0 < config.discovery_max_bytes)
    × (0 < config.jwks_max_bytes)
    × (config.allow_insecure_loopback ≡ false
        → All (λ o. o.scheme ≡ "https") policy.trusted_jwks_origins)
network_policy-IsHttps_example = network_policy-IsHttps known config policy policy_is_built

resolve-IsPinned_example : IsPinned known one_address policy "https://idp/keys" 0 target
unfolding resolve request_kind assert_jwks_uri_trusted is_trusted same_origin parse_url origin
    normalize_host default_port pin effective_address rstrip lower starts_with has_infix
resolve-IsPinned_example =
    resolve-IsPinned known one_address policy "https://idp/keys" 0 target refl

bounded_chunks_lem_example :
    (size (bounded_chunks 5 0 ("abc" ∷ "def" ∷ [])).0 ≤ 5)
    × ((rest : List Bytes) × ((bounded_chunks 5 0 ("abc" ∷ "def" ∷ [])).0 ++ rest
          ≡ "abc" ∷ "def" ∷ []))
    × (((bounded_chunks 5 0 ("abc" ∷ "def" ∷ [])).1 ≡ true) ↔ (5 < size ("abc" ∷ "def" ∷ [])))
    × ((bounded_chunks 5 0 ("abc" ∷ "def" ∷ [])).1 ≡ false
        → (bounded_chunks 5 0 ("abc" ∷ "def" ∷ [])).0 ≡ "abc" ∷ "def" ∷ [])
bounded_chunks_lem_example = bounded_chunks_lem 5 ("abc" ∷ "def" ∷ [])
