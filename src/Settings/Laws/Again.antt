-- ===== src/Settings/Laws/Again.antt =====
-- The validator on settings that it has validated.
use mcp_server_auth_template.Base.{
  false, not, sym, Bool-cases, Option, String, arith, inl, inr, none, refl, some, ◌≡◌,
}
use mcp_server_auth_template.Settings.{Settings, fields_in_bounds, Python}
use mcp_server_auth_template.Settings.Laws.Passed.{Passed, settings_of-Passed}
use mcp_server_auth_template.Settings.Urls.{
  validate_resource_server_transport_url, validate_runtime_settings, validate_transport_allowlists,
}
use mcp_server_auth_template.Settings.Validation.{
  require_matching_provider_fields, settings_of, normal_tenant, tenant_or_error,
}
use mcp_server_auth_template.Base.Result.{ok}
use mcp_server_auth_template.Base.Text.{is_empty}
use mcp_server_auth_template.McpPrincipal.{AuthProvider, entra, generic}
use mathlib.Core.Path.{subst}

module _ {Address : Type 0} (py : Python Address)
    (uuid_stable : (t u : String) → py.uuid t ≡ some u → py.uuid u ≡ some u) where
  normal_tenant-uuid :
      (t : String) (tenant : Option String) (u : Option String)
      → py.uuid t ≡ u
      → tenant_or_error py u ≡ ok tenant
      → normal_tenant py entra tenant ≡ ok tenant
  normal_tenant-uuid t tenant none e h = cc
  normal_tenant-uuid t tenant (some u) e h =
      let same : some u ≡ tenant = ground arith in
      subst (λ x. normal_tenant py entra x ≡ ok x) same
        (elim (Bool-cases (is_empty u)) [
          | inl e' ↦ rw e' refl
          | inr e' ↦ rw (e', uuid_stable t u e) refl
        ])

  normal_tenant-normal_tenant :
      (provider : AuthProvider) (before tenant : Option String)
      → normal_tenant py provider before ≡ ok tenant
      → normal_tenant py provider tenant ≡ ok tenant
  normal_tenant-normal_tenant generic before tenant h = refl
  normal_tenant-normal_tenant entra none tenant h =
      let same : none ≡ tenant = ground arith in
      subst (λ x. normal_tenant py entra x ≡ ok x) same refl
  normal_tenant-normal_tenant entra (some t) tenant h = elim (Bool-cases (is_empty t)) [
    | inl blank ↦
        let h' = rw blank at h in
        let same : some t ≡ tenant = ground arith in
        subst (λ x. normal_tenant py entra x ≡ ok x) same (rw blank refl)
    | inr filled ↦ normal_tenant-uuid t tenant (py.uuid t) refl (rw filled at h)
  ]

  module _ (s : Settings) (tenant : Option String) where
    abbrev normal : Settings
    normal = record s { entra_tenant_id = tenant }

    runtime_again : validate_runtime_settings s ≡ ok tt → validate_runtime_settings normal ≡ ok tt
    unfolding validate_runtime_settings
    runtime_again h = h

    resource_again :
        validate_resource_server_transport_url py s ≡ ok tt
        → validate_resource_server_transport_url py normal ≡ ok tt
    unfolding validate_resource_server_transport_url
    resource_again h = h

    lists_again :
        validate_transport_allowlists py s ≡ ok tt → validate_transport_allowlists py normal ≡ ok tt
    unfolding validate_transport_allowlists
    lists_again h = h

    bounds_again : not (fields_in_bounds s) ≡ false → not (fields_in_bounds normal) ≡ false
    unfolding fields_in_bounds
    bounds_again h = h

    normal_again :
        Passed py s normal
        → normal_tenant py s.auth_provider tenant ≡ ok tenant
        → settings_of py normal ≡ ok normal
    unfolding settings_of require_matching_provider_fields
    normal_again p again =
        rw
          (
            bounds_again p.bounds,
            runtime_again p.host,
            resource_again p.resource,
            lists_again p.lists,
            p.offline,
            again,
            p.provided,
            p.profile,
          )
          refl

  passed_again : (s v : Settings) → Passed py s v → settings_of py v ≡ ok v
  passed_again s v p =
      let made = p.normal.made in
      let tenant = p.normal.tenant in
      subst (λ x. settings_of py x ≡ ok x) made
        (normal_again s tenant (subst (Passed py s) (sym made) p) (
          normal_tenant-normal_tenant s.auth_provider s.entra_tenant_id tenant p.normal.normalised))

-- Validated settings pass the validator again and are left as they are, if the text of a UUID reads
-- as that UUID.
pub settings_of_idem :
    {Address : Type 0} (py : Python Address)
    (uuid_stable : (t u : String) → py.uuid t ≡ some u → py.uuid u ≡ some u) (s v : Settings)
    → settings_of py s ≡ ok v
    → settings_of py v ≡ ok v
settings_of_idem py uuid_stable s v h =
    passed_again py uuid_stable s v (settings_of-Passed py s v h)
