-- ===== src/Settings/Production.antt =====
-- src/mcp_server_auth_template/entrypoints/settings.py: what production asks for in addition.
use mcp_server_auth_template.Base.{
  [], Bool, Option, String, any, eqb, false, none, not, some, true, ◌&&◌, ◌==◌, ◌||◌, ◌∷◌,
}
use mcp_server_auth_template.OidcNetwork.{origin}
use mcp_server_auth_template.Settings.{
  AppEnv, Python, Settings, SettingsError, UrlParts, is_none, is_some, or_empty, production,
  production_audience_host, production_issuer_host, production_issuer_port, production_issuer_shape,
  production_jwks_host, production_jwks_port, production_jwks_shape, production_loopback,
  production_origin_host, production_origin_scheme, production_resource_host,
  production_resource_scheme, production_zero_identifier, production_zero_tenant,
}
use mcp_server_auth_template.Base.Result.{◌>>=◌, Result, each, ok, refuse_if}
use mcp_server_auth_template.Base.Text.{ends_with, has_infix, rstrip}
use mcp_server_auth_template.McpPrincipal.{AuthProvider, entra, generic}
use mcp_server_auth_template.Settings.Urls.{
  has_userinfo, check_port, has_extras, is_not_origin, parts_of,
}
use Prim.Native.String

abbrev pub zero_uuid : String
zero_uuid = "00000000-0000-0000-0000-000000000000"

module _ {Address : Type 0} (py : Python Address) where
  -- `_is_placeholder_hostname` on `hostname.rstrip(".").lower()`
  unfoldable pub is_placeholder_name : String → Bool
  unfolding ends_with
  is_placeholder_name name =
      name == "localhost"
      || ends_with name ".localhost"
      || ends_with name ".invalid"
      || ends_with name ".test"
      || any (λ suffix. name == suffix || ends_with name (String.◌++◌ "." suffix))
          ("example.com" ∷ "example.net" ∷ "example.org" ∷ [])

  -- `_is_placeholder_hostname`
  unfoldable pub is_placeholder_hostname : Option String → Bool
  unfolding is_placeholder_name rstrip
  is_placeholder_hostname none = true
  is_placeholder_hostname (some hostname) =
      is_placeholder_name (py.lower (rstrip (λ c. eqb c b'.') hostname))

  abbrev pub check_production_resource : UrlParts → Result SettingsError (Unit {0})
  check_production_resource u = do
    _ ← refuse_if (not (u.scheme == "https")) production_resource_scheme
    refuse_if (is_placeholder_hostname u.hostname) production_resource_host

  abbrev pub check_production_origin_parts : UrlParts → Result SettingsError (Unit {0})
  check_production_origin_parts u = do
    _ ← refuse_if (not (u.scheme == "https")) production_origin_scheme
    refuse_if (is_placeholder_hostname u.hostname) production_origin_host

  -- one turn of the loop over `transport_allowed_origins`
  unfoldable pub check_production_origin : String → Result SettingsError (Unit {0})
  unfolding is_placeholder_hostname
  check_production_origin origin =
      parts_of py (py.urlsplit origin) >>= check_production_origin_parts

  -- `value is not None and zero_uuid in value.lower()`
  unfoldable pub has_zero_uuid : Option String → Bool
  unfolding has_infix
  has_zero_uuid none = false
  has_zero_uuid (some value) = has_infix zero_uuid (py.lower value)

  unfoldable pub validate_production_entra : Settings → Result SettingsError (Unit {0})
  unfolding has_zero_uuid
  validate_production_entra s = do
    _ ← refuse_if (or_empty s.entra_tenant_id == zero_uuid) production_zero_tenant
    refuse_if (has_zero_uuid s.entra_audience || has_zero_uuid s.entra_application_id_uri)
        production_zero_identifier

  abbrev pub check_production_issuer : UrlParts → Result SettingsError (Unit {0})
  check_production_issuer u = do
    _ ← check_port py production_issuer_port u.port
    _ ←
        refuse_if
          (not (u.scheme == "https") || is_none u.hostname || has_userinfo u || has_extras u)
          production_issuer_shape
    refuse_if (is_placeholder_hostname u.hostname) production_issuer_host

  abbrev pub check_production_audience : UrlParts → Result SettingsError (Unit {0})
  check_production_audience u =
      refuse_if (is_some u.hostname && is_placeholder_hostname u.hostname) production_audience_host

  abbrev pub check_production_jwks_parts : UrlParts → Result SettingsError (Unit {0})
  check_production_jwks_parts u = do
    _ ← check_port py production_jwks_port u.port
    _ ← refuse_if (not (u.scheme == "https") || is_not_origin py u) production_jwks_shape
    refuse_if (is_placeholder_hostname u.hostname) production_jwks_host

  -- one turn of the loop over `generic_jwks_allowed_origins`
  unfoldable pub check_production_jwks : String → Result SettingsError (Unit {0})
  unfolding is_placeholder_hostname
  check_production_jwks origin = parts_of py (py.urlsplit origin) >>= check_production_jwks_parts

  unfoldable pub validate_production_generic : Settings → Result SettingsError (Unit {0})
  unfolding is_placeholder_hostname check_production_jwks
  validate_production_generic s = do
    issuer ← parts_of py (py.urlsplit (or_empty s.generic_issuer_url))
    _ ← check_production_issuer issuer
    audience ← parts_of py (py.urlsplit (or_empty s.generic_audience))
    _ ← check_production_audience audience
    each check_production_jwks s.generic_jwks_allowed_origins

  abbrev pub validate_provider : AuthProvider → Settings → Result SettingsError (Unit {0})
  validate_provider entra s = validate_production_entra s
  validate_provider generic s = validate_production_generic s

  abbrev pub validate_for_production : Settings → Result SettingsError (Unit {0})
  validate_for_production s = do
    resource ← parts_of py (py.urlsplit s.resource_server_url)
    _ ← check_production_resource resource
    _ ← refuse_if s.oidc_allow_insecure_loopback production_loopback
    _ ← each check_production_origin s.transport_allowed_origins
    validate_provider s.auth_provider s

  abbrev pub profile_for : AppEnv → Settings → Result SettingsError (Unit {0})
  profile_for production s = validate_for_production s
  profile_for _ s = ok tt

  -- `_validate_production_profile`
  unfoldable pub validate_production_profile : Settings → Result SettingsError (Unit {0})
  unfolding is_placeholder_hostname check_production_origin validate_production_entra
      validate_production_generic
  validate_production_profile s = profile_for s.app_env s
