-- ===== src/Settings.antt =====
-- src/mcp_server_auth_template/entrypoints/settings.py: the configuration of the process and the
-- validator that pydantic runs on it. Environment and file reading are pydantic's.
use mcp_server_auth_template.Base.{
  Bool, List, Option, String, false, if◌then◌else◌, in_range, ltb, none, not, some, true, ℕ, ◌&&◌,
  ◌*◌,
}
use mcp_server_auth_template.Base.Text.{any_code, is_empty, length}
use mcp_server_auth_template.McpPrincipal.{AuthProvider, entra}
use mcp_server_auth_template.ScopeClaims.{qualify_scopes}
pub mod Urls
pub mod Production
pub mod Validation
pub mod Laws
pub mod Samples
mod Tests

pub data AppEnv : Type 0 where
  development test staging production : AppEnv

-- Settings. A URL is the text that `str` gives for it; numbers are not negative.
pub record Settings : Type 0 where
  pub service_name : String
  pub app_env : AppEnv
  pub runtime_host : String
  pub runtime_port : ℕ
  pub runtime_workers : ℕ
  pub runtime_backlog : ℕ
  pub runtime_keep_alive_seconds : ℕ
  pub runtime_graceful_shutdown_seconds : ℕ
  pub resource_server_url : String
  pub required_scopes : List String
  pub oidc_allow_insecure_loopback : Bool
  pub transport_max_request_body_bytes : ℕ
  pub transport_max_header_count : ℕ
  pub transport_max_header_bytes : ℕ
  pub transport_max_concurrent_requests : ℕ
  pub transport_allowed_hosts : List String
  pub transport_allowed_origins : List String
  pub auth_provider : AuthProvider
  pub entra_tenant_id : Option String
  pub entra_audience : Option String
  pub entra_application_id_uri : Option String
  pub generic_issuer_url : Option String
  pub generic_audience : Option String
  pub generic_jwks_allowed_origins : List String

-- What `urlsplit` returns. A read of the port raises where `port` is `none`.
pub record UrlParts : Type 0 where
  pub scheme : String
  pub hostname : Option String
  pub port : Option (Option ℕ)
  pub username : Option String
  pub password : Option String
  pub path : String
  pub query : String
  pub fragment : String

-- Python's urllib, ipaddress, uuid and `str.lower`; `none` where they raise. `uuid` stands for
-- `str(UUID(text))`.
pub record Python (Address : Type 0) : Type 0 where
  pub urlsplit : String → Option UrlParts
  pub ip_address : String → Option Address
  pub is_loopback : Address → Bool
  pub uuid : String → Option String
  pub lower : String → String

-- Which list of the transport an error is about.
pub data AllowList : Type 0 where
  allowed_hosts allowed_origins : AllowList

-- The ValueErrors of the validator, that of `urlsplit` included, and the errors of the fields.
pub data SettingsError : Type 0 where
  out_of_bounds bad_runtime_host malformed_url decorated_resource resource_not_https : SettingsError
  resource_not_loopback : SettingsError
  bad_entry bad_port bad_shape : AllowList → SettingsError
  offline_access_required tenant_not_uuid : SettingsError
  missing_fields : List String → SettingsError
  production_resource_scheme production_resource_host production_loopback : SettingsError
  production_origin_scheme production_origin_host : SettingsError
  production_zero_tenant production_zero_identifier : SettingsError
  production_issuer_port production_issuer_shape production_issuer_host : SettingsError
  production_audience_host : SettingsError
  production_jwks_port production_jwks_shape production_jwks_host : SettingsError

-- The bounds that the fields declare.
unfoldable pub fields_in_bounds : Settings → Bool
fields_in_bounds s =
    in_range 1 253 (length s.runtime_host)
    && in_range 1 65535 s.runtime_port
    && in_range 1 32 s.runtime_workers
    && in_range 1 65535 s.runtime_backlog
    && in_range 1 120 s.runtime_keep_alive_seconds
    && in_range 1 300 s.runtime_graceful_shutdown_seconds
    && in_range 1024 (16 * 1024 * 1024) s.transport_max_request_body_bytes
    && in_range 8 256 s.transport_max_header_count
    && in_range 1024 (128 * 1024) s.transport_max_header_bytes
    && in_range 1 1024 s.transport_max_concurrent_requests

-- Truth of an optional text.
abbrev pub is_given : Option String → Bool
is_given none = false
is_given (some text) = not (is_empty text)

-- `value or ""`
abbrev pub or_empty : Option String → String
or_empty none = ""
or_empty (some text) = text

abbrev pub is_none : Option String → Bool
is_none none = true
is_none (some text) = false

abbrev pub is_some : Option String → Bool
is_some none = false
is_some (some text) = true

-- `any(ord(ch) < 0x21 for ch in value)`
abbrev pub has_invisible : String → Bool
has_invisible value = any_code (λ c. ltb c 0x21) value

abbrev pub scopes_for : AuthProvider → Option String → List String → List String
scopes_for entra (some uri) scopes =
    if not (is_empty uri) then qualify_scopes scopes uri else scopes
scopes_for _ _ scopes = scopes

-- `effective_required_scopes`
unfoldable pub effective_required_scopes : Settings → List String
unfolding qualify_scopes
effective_required_scopes s =
    scopes_for s.auth_provider s.entra_application_id_uri s.required_scopes
