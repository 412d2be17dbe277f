-- ===== src/Server/Tests.antt =====
-- Servers of the two sample deployments.
use mcp_server_auth_template.Base.{
  if◌then◌else◌, Option, String, [], false, none, refl, some, true, ℕ, ◌∷◌, ◌≡◌,
}
use mcp_server_auth_template.Base.Value.{pos, Dict}
use mcp_server_auth_template.Base.Result.{ok}
use mcp_server_auth_template.Base.Text.{drop, starts_with}
use mcp_server_auth_template.Http.{http, Response, Scope}
use mcp_server_auth_template.McpPrincipal.{generic}
use mcp_server_auth_template.OidcNetwork.{
  network_policy, parse_url, issuer_origin, Policy, SplitUrl, Urls, malformed,
}
use mcp_server_auth_template.Principal.{Principal, delegated}
use mcp_server_auth_template.ProgressiveHttp.{ProgressiveAuthorizationContext}
use mcp_server_auth_template.Runtime.{RuntimeStatus}
use mcp_server_auth_template.Server.{network}
use mcp_server_auth_template.Server.Assembly.{ServerParts, build_server, generic_parts}
use mcp_server_auth_template.Server.Assembly.Laws.{build_server-reports, is_own_error}
use mcp_server_auth_template.Server.Lifespan.{
  Agrees, Process, Reach, Reach-Agrees, begun, enter, entered, launched, serving, stepped,
}
use mcp_server_auth_template.Server.Preflight.{RunConfig, serve, validate_preflight_settings}
use mcp_server_auth_template.Server.Preflight.Laws.{IsStart, serve_starts}
use mcp_server_auth_template.Server.Registry.{effective_policies, service_of}
use mcp_server_auth_template.Server.Registry.Laws.{authorize-effective, qualified_principal}
use mcp_server_auth_template.Server.Security.{
  TransportSecurity, authority_for, build_transport_security,
}
use mcp_server_auth_template.Server.Security.Laws.{IsProtected, build_transport_security_exists}
use mcp_server_auth_template.Server.Surface.{limits_of, probed, serve_request}
use mcp_server_auth_template.Server.Surface.Probes.{serve_request-readyz}
use mcp_server_auth_template.Settings.{UrlParts}
use mcp_server_auth_template.Settings.Samples.{
  entra_settings, generic_is_valid, generic_settings, py, uuid_is_stable,
}
use mcp_server_auth_template.ToolAuthorization.{
  ToolAuthorizationService, ToolPolicy, authenticated, authorize, delegated_scopes, oauth_scopes,
}
use mcp_server_auth_template.Transport.{scan_headers, total_bytes, validate_envelope}
use mcp_server_auth_template.Transport.Envelope.{IsSoundEnvelope, validate_envelope_iff}

abbrev split_issuer : String → Option SplitUrl
split_issuer url =
    if starts_with url "https://"
    then some (record {
      scheme = "https";
      hostname = some (drop 8 url);
      port = none;
      with_userinfo = false;
      path = "";
      query = "";
      fragment = "";
    })
    else none

abbrev urls : Urls ℕ
urls = record {
  urlsplit = split_issuer;
  idna = λ host. some host;
  ip_address = λ host. none;
  is_loopback = λ a. false;
  is_global = λ a. true;
  ipv4_mapped = λ a. none;
}

abbrev known_policy : Policy
known_policy = record {
  config = record {
    issuer_url = "https://i";
    allow_insecure_loopback = false;
    jwks_allowed_origins = "https://k" ∷ [];
    dns_timeout = pos 2;
    http_timeout = pos 5;
    discovery_max_bytes = 65536;
    jwks_max_bytes = 524288;
  };
  discovery_url = "https://i/.well-known/openid-configuration";
  trusted_jwks_origins =
      record { scheme = "https"; host = "k"; port = 443 }
      ∷ record { scheme = "https"; host = "i"; port = 443 }
      ∷ [];
}

abbrev authorizer : ToolAuthorizationService
authorizer = record {
  policies =
      ("whoami", record { kind = authenticated; permissions = [] })
      ∷ ("health", record { kind = oauth_scopes; permissions = "mcp:tools:health" ∷ [] })
      ∷ [];
}

abbrev generic_server : ServerParts
generic_server = record {
  verifier = generic_parts "https://i" "a" known_policy;
  authorizer = authorizer;
  progressive = record {
    authorizer = authorizer;
    auth_provider = generic;
    global_required_scopes = "r" ∷ [];
  };
  auth = record {
    issuer_url = "https://i";
    resource_server_url = "https://m.co";
    required_scopes = some ("r" ∷ []);
    validate_token_resource = false;
  };
}

abbrev no_urls : Urls ℕ
no_urls = record urls { urlsplit = λ url. none }

build_server-reports_example : is_own_error (network malformed) ≡ false
unfolding build_server network_policy issuer_origin parse_url
build_server-reports_example =
    build_server-reports no_urls py generic_settings generic_settings (network malformed)
      generic_is_valid refl

abbrev short_registry : Dict ToolPolicy
short_registry = ("t", record { kind = delegated_scopes; permissions = "s" ∷ [] }) ∷ []

abbrev full_registry : Dict ToolPolicy
full_registry = ("t", record { kind = delegated_scopes; permissions = "api://a/s" ∷ [] }) ∷ []

abbrev caller : Principal
caller = record {
  client_id = "c";
  subject = none;
  issuer = none;
  kind = delegated;
  scopes = "s" ∷ [];
  roles = [];
}

authorize-effective_example :
    (authorize
      (service_of full_registry)
      "t"
      (some (qualified_principal "api://a" caller))).is_allowed
    ≡ true
unfolding effective_policies authorize
authorize-effective_example =
    authorize-effective "api://a" short_registry full_registry "t" caller refl refl

abbrev public_parts : UrlParts
public_parts = record {
  scheme = "http";
  hostname = some "127.0.0.1";
  port = some none;
  username = none;
  password = none;
  path = "";
  query = "";
  fragment = "";
}

build_transport_security_exists_example :
    (security : TransportSecurity) × (build_transport_security py entra_settings ≡ ok security)
    × IsProtected entra_settings "http" "127.0.0.1" none security
unfolding starts_with
build_transport_security_exists_example =
    build_transport_security_exists py entra_settings public_parts "127.0.0.1" none refl refl refl

ports_are_shown : (authority_for "https" "m" none).hosts ≡ "m" ∷ "m:443" ∷ []
unfolding authority_for
ports_are_shown = refl

abbrev up : RuntimeStatus
up = record { ready = true }

abbrev call : Scope
call = record { type = http; method = "POST"; path = "/mcp"; headers = ("host", "m.co") ∷ [] }

abbrev no_target : ProgressiveAuthorizationContext
no_target = record { is_mcp_request = true; target = none; required_scopes = [] }

abbrev running : Process
running = record { phase = serving; status = up; closed = 0; shut_down = 0 }

runs : Reach true running
unfolding enter
runs = stepped launched running begun (entered launched refl)

Reach-Agrees_example : Agrees true serving running
Reach-Agrees_example = Reach-Agrees true running runs

abbrev readyz : Scope
readyz = record { type = http; method = "GET"; path = "/readyz"; headers = [] }

no_headers_are_sound : IsSoundEnvelope (limits_of generic_settings (some up)) []
unfolding validate_envelope limits_of total_bytes scan_headers
no_headers_are_sound = (validate_envelope_iff (limits_of generic_settings (some up)) []).0 refl

serve_request-readyz_example :
    (response : Response) × (serve_request
        (λ t. none)
        (λ scope post. none)
        generic_settings
        (some up)
        readyz
        64
      ≡ (probed response, 64))
    × (response.status ≡ 200)
serve_request-readyz_example =
    serve_request-readyz (λ t. none) (λ scope post. none) generic_settings true running readyz 64
      runs refl refl refl no_headers_are_sound

serve_starts_example :
    (validate_preflight_settings py generic_settings ≡ ok generic_settings)
    × ((config : RunConfig) × (serve py generic_settings ≡ ok config)
        × IsStart generic_settings config)
serve_starts_example =
    serve_starts py uuid_is_stable generic_settings generic_settings generic_is_valid
