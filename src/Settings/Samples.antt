-- ===== src/Settings/Samples.antt =====
-- Settings of a production deployment with a generic provider, and of one with Entra ID. The parser
-- knows the URLs of the tests.
use mcp_server_auth_template.Base.{
  if◌then◌else◌, Bool-cases, Option, String, [], arith, eqb, false, inl, inr, none, refl, some, ℕ,
  ◌==◌, ◌||◌, ◌∷◌, ◌≡◌,
}
use mcp_server_auth_template.Settings.Production.{validate_production_profile}
use mcp_server_auth_template.Settings.Urls.{
  validate_transport_allowlists, validate_resource_server_transport_url,
}
use mcp_server_auth_template.Base.Result.{ok}
use mcp_server_auth_template.Base.Text.{drop, starts_with}
use mcp_server_auth_template.Http.{lower}
use mcp_server_auth_template.McpPrincipal.{entra, generic}
use mcp_server_auth_template.Settings.{Python, Settings, UrlParts, development, production}
use mcp_server_auth_template.Settings.Validation.{settings_of}
use mathlib.Core.Path.{subst}

abbrev no_parts : UrlParts
no_parts = record {
  scheme = "";
  hostname = none;
  port = some none;
  username = none;
  password = none;
  path = "";
  query = "";
  fragment = "";
}

abbrev split_url : String → Option UrlParts
split_url url =
    if starts_with url "https://"
    then some (record no_parts { scheme = "https"; hostname = some (drop 8 url) })
    else if starts_with url "//"
    then some (record no_parts { hostname = some (drop 2 url) })
    else if starts_with url "http://"
    then some (record no_parts { scheme = "http"; hostname = some (drop 7 url) })
    else some (record no_parts { path = url })

-- Addresses are numbers; 127 is loopback.
abbrev pub py : Python ℕ
py = record {
  urlsplit = split_url;
  ip_address = λ host. if host == "127.0.0.1" then some 127 else none;
  is_loopback = λ a. eqb a 127;
  uuid = λ text. if text == "T" || text == "t" then some "t" else none;
  lower = λ text. lower text;
}

abbrev pub generic_settings : Settings
generic_settings = record {
  service_name = "mcp";
  app_env = production;
  runtime_host = "h";
  runtime_port = 8000;
  runtime_workers = 1;
  runtime_backlog = 2048;
  runtime_keep_alive_seconds = 5;
  runtime_graceful_shutdown_seconds = 30;
  resource_server_url = "https://m.co";
  required_scopes = "r" ∷ [];
  oidc_allow_insecure_loopback = false;
  transport_max_request_body_bytes = 1048576;
  transport_max_header_count = 64;
  transport_max_header_bytes = 32768;
  transport_max_concurrent_requests = 64;
  transport_allowed_hosts = "m" ∷ [];
  transport_allowed_origins = "https://o" ∷ [];
  auth_provider = generic;
  entra_tenant_id = none;
  entra_audience = none;
  entra_application_id_uri = none;
  generic_issuer_url = some "https://i";
  generic_audience = some "a";
  generic_jwks_allowed_origins = "https://k" ∷ [];
}

abbrev pub entra_settings : Settings
entra_settings = record generic_settings {
  app_env = development;
  resource_server_url = "http://127.0.0.1";
  auth_provider = entra;
  entra_tenant_id = some "T";
  entra_audience = some "a";
  entra_application_id_uri = some "api://a";
}

pub generic_is_valid : settings_of py generic_settings ≡ ok generic_settings
unfolding settings_of validate_resource_server_transport_url starts_with
    validate_transport_allowlists validate_production_profile lower
generic_is_valid = refl

pub entra_is_normalised :
    settings_of py entra_settings ≡ ok (record entra_settings { entra_tenant_id = some "t" })
unfolding settings_of validate_resource_server_transport_url starts_with
    validate_transport_allowlists validate_production_profile
entra_is_normalised = refl

pub uuid_is_stable : (t u : String) → py.uuid t ≡ some u → py.uuid u ≡ some u
uuid_is_stable t u h = elim (Bool-cases (t == "T" || t == "t")) [
  | inl known ↦
      let h' = rw known at h in
      let same : "t" ≡ u = ground arith in subst (λ x. py.uuid x ≡ some x) same refl
  | inr other ↦ cc (rw other at h)
]
