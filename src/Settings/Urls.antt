-- ===== src/Settings/Urls.antt =====
-- src/mcp_server_auth_template/entrypoints/settings.py: the checks on the host to bind, the public
-- URL and the allowlists of the transport.
use mcp_server_auth_template.Base.{
  Bool, Option, String, any, if◌then◌else◌, none, not, some, ℕ, ◌==◌, ◌||◌,
}
use mcp_server_auth_template.Base.Result.{◌>>=◌, Result, each, err, ok, refuse_if}
use mcp_server_auth_template.Base.Text.{ends_with, has_infix, is_empty, strip}
use mcp_server_auth_template.Settings.{
  Python, Settings, SettingsError, UrlParts, allowed_hosts, allowed_origins, bad_entry, bad_port,
  bad_runtime_host, bad_shape, decorated_resource, has_invisible, is_none, is_some, malformed_url,
  resource_not_https, resource_not_loopback,
}
use Prim.Native.String

-- `_validate_runtime_settings`
unfoldable pub validate_runtime_settings : Settings → Result SettingsError (Unit {0})
unfolding strip
validate_runtime_settings s =
    refuse_if (not (strip s.runtime_host == s.runtime_host) || has_invisible s.runtime_host)
      bad_runtime_host

abbrev pub has_userinfo : UrlParts → Bool
has_userinfo u = is_some u.username || is_some u.password

abbrev pub has_extras : UrlParts → Bool
has_extras u = not (is_empty u.query) || not (is_empty u.fragment)

-- `not value or value.strip() != value or any(…) or "*" in value`
unfoldable pub is_bad_entry : String → Bool
unfolding strip has_infix
is_bad_entry value =
    is_empty value || not (strip value == value) || has_invisible value || has_infix "*" value

module _ {Address : Type 0} (py : Python Address) where
  -- `urlsplit(url)`, with its ValueError
  abbrev pub parts_of : Option UrlParts → Result SettingsError UrlParts
  parts_of none = err malformed_url
  parts_of (some u) = ok u

  abbrev pub check_loopback : Option Address → Result SettingsError (Unit {0})
  check_loopback none = err resource_not_loopback
  check_loopback (some address) = refuse_if (not (py.is_loopback address)) resource_not_loopback

  -- `_validate_resource_server_transport_url` for a scheme that is not https
  abbrev pub check_http_host : String → Option String → Result SettingsError (Unit {0})
  check_http_host scheme none = err resource_not_https
  check_http_host scheme (some host) =
      if not (scheme == "http") then err resource_not_https else check_loopback (py.ip_address host)

  abbrev pub check_resource : UrlParts → Result SettingsError (Unit {0})
  check_resource u = do
    _ ← refuse_if (has_userinfo u || has_extras u) decorated_resource
    if u.scheme == "https" then ok tt else check_http_host u.scheme u.hostname

  -- `_validate_resource_server_transport_url`
  unfoldable pub validate_resource_server_transport_url : Settings → Result SettingsError (Unit {0})
  validate_resource_server_transport_url s =
      parts_of (py.urlsplit s.resource_server_url) >>= check_resource

  -- `_ = parsed.port`
  abbrev pub check_port : SettingsError → Option (Option ℕ) → Result SettingsError (Unit {0})
  check_port raised none = err raised
  check_port raised (some port) = ok tt

  abbrev pub check_host_parts : String → UrlParts → Result SettingsError (Unit {0})
  check_host_parts host u = do
    _ ← check_port (bad_port allowed_hosts) u.port
    refuse_if
        (is_none u.hostname
          || has_userinfo u
          || not (is_empty u.path)
          || has_extras u
          || ends_with host ":")
        (bad_shape allowed_hosts)

  -- one turn of the loop over `transport_allowed_hosts`
  unfoldable pub check_allowed_host : String → Result SettingsError (Unit {0})
  unfolding ends_with
  check_allowed_host host = parts_of (py.urlsplit (String.◌++◌ "//" host)) >>= check_host_parts host

  -- The parts are those of an origin.
  abbrev pub is_not_origin : UrlParts → Bool
  is_not_origin u = is_none u.hostname || has_userinfo u || not (is_empty u.path) || has_extras u

  abbrev pub check_origin_parts : UrlParts → Result SettingsError (Unit {0})
  check_origin_parts u = do
    _ ← check_port (bad_port allowed_origins) u.port
    refuse_if (not (u.scheme == "http" || u.scheme == "https") || is_not_origin u)
        (bad_shape allowed_origins)

  -- one turn of the loop over `transport_allowed_origins`
  unfoldable pub check_allowed_origin : String → Result SettingsError (Unit {0})
  check_allowed_origin origin = parts_of (py.urlsplit origin) >>= check_origin_parts

  -- `_validate_transport_allowlists`
  unfoldable pub validate_transport_allowlists : Settings → Result SettingsError (Unit {0})
  unfolding is_bad_entry check_allowed_host check_allowed_origin
  validate_transport_allowlists s = do
    _ ← refuse_if (any is_bad_entry s.transport_allowed_hosts) (bad_entry allowed_hosts)
    _ ← refuse_if (any is_bad_entry s.transport_allowed_origins) (bad_entry allowed_origins)
    _ ← each check_allowed_host s.transport_allowed_hosts
    each check_allowed_origin s.transport_allowed_origins
