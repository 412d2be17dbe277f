-- ===== src/Settings/Validation.antt =====
-- src/mcp_server_auth_template/entrypoints/settings.py: `_require_matching_provider_fields`, the
-- validator of the whole model.
use mcp_server_auth_template.Base.{List, Option, String, [], if◌then◌else◌, none, not, some, ◌∷◌}
use mcp_server_auth_template.Base.Result.{◌>>=◌, Result, err, ok, refuse_if}
use mcp_server_auth_template.Base.Sets.{contains, no_items}
use mcp_server_auth_template.Base.Text.{is_empty}
use mcp_server_auth_template.McpPrincipal.{AuthProvider, entra, generic}
use mcp_server_auth_template.Settings.{
  Python, Settings, SettingsError, fields_in_bounds, is_given, missing_fields,
  offline_access_required, out_of_bounds, tenant_not_uuid,
}
use mcp_server_auth_template.Settings.Production.{validate_production_profile}
use mcp_server_auth_template.Settings.Urls.{
  validate_resource_server_transport_url, validate_runtime_settings, validate_transport_allowlists,
}

-- `[name for name, value in (…) if not value]`
unfoldable pub missing_names : List (String × Option String) → List String
missing_names [] = []
missing_names ((name, value) ∷ fields) =
    let rest = missing_names fields in if is_given value then rest else name ∷ rest

abbrev pub provider_fields : AuthProvider → Settings → List (String × Option String)
provider_fields entra s =
    ("entra_tenant_id", s.entra_tenant_id)
    ∷ ("entra_audience", s.entra_audience)
    ∷ ("entra_application_id_uri", s.entra_application_id_uri)
    ∷ []
provider_fields generic s =
    ("generic_issuer_url", s.generic_issuer_url) ∷ ("generic_audience", s.generic_audience) ∷ []

unfoldable pub check_provider_fields : Settings → Result SettingsError (Unit {0})
unfolding missing_names
check_provider_fields s =
    let missing = missing_names (provider_fields s.auth_provider s) in
    if no_items missing then ok tt else err (missing_fields missing)

module _ {Address : Type 0} (py : Python Address) where
  abbrev pub tenant_or_error : Option String → Result SettingsError (Option String)
  tenant_or_error none = err tenant_not_uuid
  tenant_or_error (some tenant) = ok (some tenant)

  -- `self.entra_tenant_id` after the normalisation
  abbrev pub normal_tenant : AuthProvider → Option String → Result SettingsError (Option String)
  normal_tenant generic tenant = ok tenant
  normal_tenant entra none = ok none
  normal_tenant entra (some tenant) =
      if is_empty tenant then ok (some tenant) else tenant_or_error (py.uuid tenant)

  -- `_require_matching_provider_fields`
  unfoldable pub require_matching_provider_fields : Settings → Result SettingsError Settings
  unfolding validate_runtime_settings contains check_provider_fields
  require_matching_provider_fields s = do
    _ ← validate_runtime_settings s
    _ ← validate_resource_server_transport_url py s
    _ ← validate_transport_allowlists py s
    _ ← refuse_if (contains "offline_access" s.required_scopes) offline_access_required
    tenant ← normal_tenant s.auth_provider s.entra_tenant_id
    _ ← check_provider_fields (record s { entra_tenant_id = tenant })
    _ ← validate_production_profile py (record s { entra_tenant_id = tenant })
    ok (record s { entra_tenant_id = tenant })

  -- Settings(…): the bounds of the fields, then the validator
  unfoldable pub settings_of : Settings → Result SettingsError Settings
  unfolding fields_in_bounds require_matching_provider_fields
  settings_of s =
      refuse_if (not (fields_in_bounds s)) out_of_bounds >>= λ _. require_matching_provider_fields s
