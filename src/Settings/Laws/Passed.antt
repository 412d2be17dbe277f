-- ===== src/Settings/Laws/Passed.antt =====
-- What holds of settings that pass the validator, in every environment.
use mcp_server_auth_template.Base.{
  All, Bool-cases, List, Option, String, [], arith, false, inl, inr, not, sym, true, ◌∷◌, ◌≡◌,
}
use mcp_server_auth_template.Base.Result.{>>=-eq-ok, ok, refuse_if-eq-ok}
use mcp_server_auth_template.Base.Sets.{contains, no_items}
use mcp_server_auth_template.Settings.{
  Python, Settings, fields_in_bounds, is_given, offline_access_required, out_of_bounds,
}
use mcp_server_auth_template.Settings.Laws.{IsServable, allowlists_lem, public_url_lem}
use mcp_server_auth_template.Settings.Production.{validate_production_profile}
use mcp_server_auth_template.Settings.Urls.{
  validate_resource_server_transport_url, validate_runtime_settings, validate_transport_allowlists,
}
use mcp_server_auth_template.Settings.Validation.{
  check_provider_fields, missing_names, normal_tenant, provider_fields,
  require_matching_provider_fields, settings_of,
}
use mathlib.Core.Path.{subst}

module _ {Address : Type 0} (py : Python Address) where
  providers_lem :
      (fields : List (String × Option String))
      → no_items (missing_names fields) ≡ true
      → All (λ field. is_given (field.1) ≡ true) fields
  unfolding missing_names
  providers_lem [] h = tt
  providers_lem ((name, value) ∷ fields) h = elim (Bool-cases (is_given value)) [
    | inl given ↦ (given, providers_lem fields (rw given at h))
    | inr absent ↦ cc (rw absent at h)
  ]

  check_provider_fields_lem :
      (s : Settings)
      → check_provider_fields s ≡ ok tt
      → All (λ field. is_given (field.1) ≡ true) (provider_fields s.auth_provider s)
  unfolding check_provider_fields
  check_provider_fields_lem s h =
      elim (Bool-cases (no_items (missing_names (provider_fields s.auth_provider s)))) [
        | inl complete ↦ providers_lem (provider_fields s.auth_provider s) complete
        | inr missing ↦ cc (rw missing at h)
      ]

  -- The settings that the validator has made of `s`.
  pub record IsNormal (s v : Settings) : Type 0 where
    pub tenant : Option String
    pub normalised : normal_tenant py s.auth_provider s.entra_tenant_id ≡ ok tenant
    pub made : record s { entra_tenant_id = tenant } ≡ v

  -- What the checks that pass have established, before and after the normalisation.
  pub record Passed (s v : Settings) : Type 0 where
    pub normal : IsNormal s v
    pub bounds : not (fields_in_bounds s) ≡ false
    pub host : validate_runtime_settings s ≡ ok tt
    pub resource : validate_resource_server_transport_url py s ≡ ok tt
    pub lists : validate_transport_allowlists py s ≡ ok tt
    pub offline : contains "offline_access" s.required_scopes ≡ false
    pub provided : check_provider_fields v ≡ ok tt
    pub profile : validate_production_profile py v ≡ ok tt

  pub settings_of-Passed : (s v : Settings) → settings_of py s ≡ ok v → Passed s v
  unfolding settings_of require_matching_provider_fields
  settings_of-Passed s v h =
      let (bounds, h0) = refuse_if-eq-ok (not (fields_in_bounds s)) out_of_bounds _ h in
      let (_, host, h1) = >>=-eq-ok (validate_runtime_settings s) _ h0 in
      let (_, resource, h2) = >>=-eq-ok (validate_resource_server_transport_url py s) _ h1 in
      let (_, lists, h3) = >>=-eq-ok (validate_transport_allowlists py s) _ h2 in
      let (offline, h4) =
        refuse_if-eq-ok (contains "offline_access" s.required_scopes) offline_access_required _
          h3 in
      let (tenant, normalised, h5) =
        >>=-eq-ok (normal_tenant py s.auth_provider s.entra_tenant_id) _ h4 in
      let (_, provided, h6) =
        >>=-eq-ok (check_provider_fields (record s { entra_tenant_id = tenant })) _ h5 in
      let (_, profile, h7) =
        >>=-eq-ok (validate_production_profile py (record s { entra_tenant_id = tenant })) _ h6 in
      let made : record s { entra_tenant_id = tenant } ≡ v = ground arith in
      record {
        normal = record { tenant = tenant; normalised = normalised; made = made };
        bounds = bounds;
        host = host;
        resource = resource;
        lists = lists;
        offline = offline;
        provided = subst (λ x. check_provider_fields x ≡ ok tt) made provided;
        profile = subst (λ x. validate_production_profile py x ≡ ok tt) made profile;
      }

  fields_in_bounds-tenant :
      (s : Settings) (tenant : Option String)
      → fields_in_bounds s ≡ true
      → fields_in_bounds (record s { entra_tenant_id = tenant }) ≡ true
  unfolding fields_in_bounds
  fields_in_bounds-tenant s tenant h = h

  Passed-IsServable : (s v : Settings) → Passed s v → IsServable py v
  Passed-IsServable s v p = subst (IsServable py) p.normal.made (record {
    in_bounds = fields_in_bounds-tenant s p.normal.tenant (ground arith);
    public_url = public_url_lem py s p.resource;
    hosts = (allowlists_lem py s p.lists).0;
    origins = (allowlists_lem py s p.lists).1;
    no_offline_access = p.offline;
    provider =
        check_provider_fields_lem (record s { entra_tenant_id = p.normal.tenant })
          (subst (λ x. check_provider_fields x ≡ ok tt) (sym p.normal.made) p.provided);
  })

  -- Settings that pass the validator are servable: the numbers lie in their bounds; the public URL
  -- carries no user, password, query or fragment and is https, or http to a literal loopback
  -- address; every allowed host and origin is visible, without a wildcard, and just a host or an
  -- http(s) origin with a port that can be read; offline_access is not required; and the fields of
  -- the provider are given.
  pub settings_of-IsServable : (s v : Settings) → settings_of py s ≡ ok v → IsServable py v
  settings_of-IsServable s v h = Passed-IsServable s v (settings_of-Passed s v h)
