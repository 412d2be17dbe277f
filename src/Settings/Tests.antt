-- ===== src/Settings/Tests.antt =====
-- Tests of the validator.
use mcp_server_auth_template.Settings.Samples.{
  entra_is_normalised, entra_settings, generic_is_valid, generic_settings, py,
}
use mcp_server_auth_template.Settings.Production.{validate_production_profile}
use mcp_server_auth_template.Settings.Urls.{
  validate_transport_allowlists, validate_resource_server_transport_url,
}
use mcp_server_auth_template.Base.{[], none, refl, some, ◌∷◌, ◌≡◌}
use mcp_server_auth_template.Base.Result.{err}
use mcp_server_auth_template.Base.Text.{starts_with}
use mcp_server_auth_template.Http.{lower}
use mcp_server_auth_template.Settings.{
  missing_fields, production_resource_host, resource_not_loopback,
}
use mcp_server_auth_template.Settings.Laws.{IsServable}
use mcp_server_auth_template.Settings.Laws.Passed.{settings_of-IsServable}
use mcp_server_auth_template.Settings.Laws.Profile.{
  IsProductionReady, settings_of-IsProductionReady,
}
use mcp_server_auth_template.Settings.Validation.{settings_of}

plain_http_is_refused :
    settings_of py (record entra_settings { resource_server_url = "http://m" })
    ≡ err resource_not_loopback
unfolding settings_of validate_resource_server_transport_url starts_with
plain_http_is_refused = refl

placeholder_is_refused :
    settings_of py (record generic_settings { resource_server_url = "https://a.EXAMPLE.com." })
    ≡ err production_resource_host
unfolding settings_of validate_resource_server_transport_url starts_with
    validate_transport_allowlists validate_production_profile lower
placeholder_is_refused = refl

absent_fields_are_named :
    settings_of py
      (record generic_settings { generic_issuer_url = none; generic_audience = some "" })
    ≡ err (missing_fields ("generic_issuer_url" ∷ "generic_audience" ∷ []))
unfolding settings_of validate_resource_server_transport_url starts_with
    validate_transport_allowlists
absent_fields_are_named = refl

settings_of-IsServable_example :
    IsServable py (record entra_settings { entra_tenant_id = some "t" })
settings_of-IsServable_example =
    settings_of-IsServable py entra_settings (record entra_settings { entra_tenant_id = some "t" })
      entra_is_normalised

settings_of-IsProductionReady_example : IsProductionReady py generic_settings
settings_of-IsProductionReady_example =
    settings_of-IsProductionReady py generic_settings generic_settings generic_is_valid refl
