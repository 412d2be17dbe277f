-- ===== src/Settings/Laws/Profile.antt =====
-- What holds in addition of settings that pass the validator for production.
use mcp_server_auth_template.Base.{
  Bool, All, Option, String, arith, eq_iff, false, none, not, refl, some, true, ℕ, ◌==◌, ◌||◌, ◌≡◌,
  ◌≢◌,
}
use mcp_server_auth_template.Settings.Production.{
  profile_for, check_production_audience, check_production_issuer, check_production_jwks,
  check_production_jwks_parts, check_production_origin, check_production_origin_parts,
  check_production_resource, has_zero_uuid, is_placeholder_hostname, validate_for_production,
  validate_production_entra, validate_production_generic, validate_production_profile,
  validate_provider, zero_uuid,
}
use mcp_server_auth_template.Base.Result.{
  >>=-eq-ok, each, each-eq-ok, ok, refuse_if-eq-ok, refuse_if-passes,
}
use mcp_server_auth_template.McpPrincipal.{AuthProvider, entra, generic}
use mcp_server_auth_template.Settings.{
  AppEnv, Python, Settings, UrlParts, development, is_none, or_empty, production,
  production_issuer_host, production_issuer_port, production_issuer_shape, production_jwks_host,
  production_jwks_port, production_jwks_shape, production_loopback, production_origin_host,
  production_origin_scheme, production_resource_host, production_resource_scheme,
  production_zero_identifier, production_zero_tenant, staging, test,
}
use mcp_server_auth_template.Settings.Laws.{IsOrigin, check_port-eq-ok, origin_lem, parts_of-eq-ok}
use mcp_server_auth_template.Settings.Laws.Passed.{settings_of-Passed}
use mcp_server_auth_template.Settings.Urls.{
  check_port, has_userinfo, has_extras, is_not_origin, parts_of,
}
use mcp_server_auth_template.Settings.Validation.{settings_of}

module _ {Address : Type 0} (py : Python Address) where
  -- An https URL of a host that is no placeholder.
  pub record IsRealHttps (url : String) : Type 0 where
    pub parts : UrlParts
    pub split : py.urlsplit url ≡ some parts
    pub https : parts.scheme ≡ "https"
    pub host : String
    pub named : parts.hostname ≡ some host
    pub real : is_placeholder_hostname py (some host) ≡ false

  -- An issuer also carries no user, password, query and fragment, and its port can be read.
  pub record IsIssuer (url : String) : Type 0 where
    pub real : IsRealHttps url
    pub parts : UrlParts
    pub split : py.urlsplit url ≡ some parts
    pub no_userinfo : has_userinfo parts ≡ false
    pub no_extras : has_extras parts ≡ false
    pub port_read : (port : Option ℕ) × (parts.port ≡ some port)

  abbrev pub IsHttpsOrigin : String → Type 0
  IsHttpsOrigin origin = IsOrigin py (λ scheme. scheme ≡ "https") origin

  -- What production asks of the fields of the provider.
  abbrev pub ProviderIsReal : AuthProvider → Settings → Type 0
  ProviderIsReal entra s =
      (or_empty s.entra_tenant_id ≢ zero_uuid)
      × (has_zero_uuid py s.entra_audience ≡ false)
      × (has_zero_uuid py s.entra_application_id_uri ≡ false)
  ProviderIsReal generic s =
      IsIssuer (or_empty s.generic_issuer_url)
      × All (λ o. IsHttpsOrigin o × IsRealHttps o) s.generic_jwks_allowed_origins

  pub record IsProductionReady (s : Settings) : Type 0 where
    pub resource : IsRealHttps s.resource_server_url
    pub no_insecure_loopback : s.oidc_allow_insecure_loopback ≡ false
    pub origins : All IsRealHttps s.transport_allowed_origins
    pub provider : ProviderIsReal s.auth_provider s

  named_lem :
      (o : Option String)
      → is_placeholder_hostname py o ≡ false
      → (host : String) × (o ≡ some host) × (is_placeholder_hostname py (some host) ≡ false)
  unfolding is_placeholder_hostname
  named_lem none h = cc
  named_lem (some host) h = (host, refl, h)

  real_https :
      (url : String) (u : UrlParts)
      → py.urlsplit url ≡ some u
      → (u.scheme == "https") ≡ true
      → is_placeholder_hostname py u.hostname ≡ false
      → IsRealHttps url
  real_https url u split https real =
      let (host, named, is_real) = named_lem u.hostname real in
      record {
        parts = u;
        split = split;
        https = (eq_iff u.scheme "https").0 https;
        host = host;
        named = named;
        real = is_real;
      }

  check_production_origin-IsRealHttps :
      (origin : String) → check_production_origin py origin ≡ ok tt → IsRealHttps origin
  unfolding check_production_origin
  check_production_origin-IsRealHttps origin h =
      let (u, split, checked) =
        >>=-eq-ok (parts_of py (py.urlsplit origin)) (check_production_origin_parts py) h in
      let (https, rest) =
        refuse_if-eq-ok (not (u.scheme == "https")) production_origin_scheme _ checked in
      real_https origin u (parts_of-eq-ok py (py.urlsplit origin) u split) (ground arith)
        (refuse_if-passes (is_placeholder_hostname py u.hostname) production_origin_host rest)

  check_production_jwks-IsReal :
      (origin : String)
      → check_production_jwks py origin ≡ ok tt
      → IsHttpsOrigin origin × IsRealHttps origin
  unfolding check_production_jwks
  check_production_jwks-IsReal origin h =
      let (u, parsed, checked) =
        >>=-eq-ok (parts_of py (py.urlsplit origin)) (check_production_jwks_parts py) h in
      let split = parts_of-eq-ok py (py.urlsplit origin) u parsed in
      let (done, port, h1) = >>=-eq-ok (check_port py production_jwks_port u.port) _ checked in
      let (shape, h2) =
        refuse_if-eq-ok (not (u.scheme == "https") || is_not_origin py u) production_jwks_shape _
          h1 in
      (
        origin_lem py (λ scheme. scheme ≡ "https") origin u split
            (check_port-eq-ok py production_jwks_port u.port port)
            (ground (arith, eq_iff u.scheme "https")) (ground arith),
        real_https origin u split (ground arith)
            (refuse_if-passes (is_placeholder_hostname py u.hostname) production_jwks_host h2),
      )

  shape_lem :
      (https nameless userinfo extras : Bool)
      → (not https || nameless || userinfo || extras) ≡ false
      → (https ≡ true) × (userinfo ≡ false) × (extras ≡ false)
  shape_lem https nameless userinfo extras h = ground arith

  issuer_lem :
      (url : String) (u : UrlParts)
      → py.urlsplit url ≡ some u
      → check_production_issuer py u ≡ ok tt
      → IsIssuer url
  issuer_lem url u split h =
      let (done, port, h1) = >>=-eq-ok (check_port py production_issuer_port u.port) _ h in
      let (shape, h2) =
        refuse_if-eq-ok
          (not (u.scheme == "https") || is_none u.hostname || has_userinfo u || has_extras u)
          production_issuer_shape _ h1 in
      let (https, no_userinfo, no_extras) =
        shape_lem (u.scheme == "https") (is_none u.hostname) (has_userinfo u) (has_extras u)
          shape in
      record {
        real =
            real_https url u split https
              (refuse_if-passes (is_placeholder_hostname py u.hostname) production_issuer_host h2);
        parts = u;
        split = split;
        no_userinfo = no_userinfo;
        no_extras = no_extras;
        port_read = check_port-eq-ok py production_issuer_port u.port port;
      }

  generic_lem : (s : Settings) → validate_production_generic py s ≡ ok tt → ProviderIsReal generic s
  unfolding validate_production_generic
  generic_lem s h =
      let url = or_empty s.generic_issuer_url in
      let (u, split, h1) = >>=-eq-ok (parts_of py (py.urlsplit url)) _ h in
      let (_, issuer, h2) = >>=-eq-ok (check_production_issuer py u) _ h1 in
      let (a, _, h3) = >>=-eq-ok (parts_of py (py.urlsplit (or_empty s.generic_audience))) _ h2 in
      let (_, _, h4) = >>=-eq-ok (check_production_audience py a) _ h3 in
      (
        issuer_lem url u (parts_of-eq-ok py (py.urlsplit url) u split) issuer,
        each-eq-ok (λ o. IsHttpsOrigin o × IsRealHttps o) (check_production_jwks py)
            check_production_jwks-IsReal s.generic_jwks_allowed_origins h4,
      )

  entra_lem : (s : Settings) → validate_production_entra py s ≡ ok tt → ProviderIsReal entra s
  unfolding validate_production_entra
  entra_lem s h =
      let tenant = or_empty s.entra_tenant_id in
      let (other, h1) = refuse_if-eq-ok (tenant == zero_uuid) production_zero_tenant _ h in
      let clean =
        refuse_if-passes
          (has_zero_uuid py s.entra_audience || has_zero_uuid py s.entra_application_id_uri)
          production_zero_identifier h1 in
      (ground (arith, eq_iff tenant zero_uuid), ground arith, ground arith)

  provider_lem :
      (provider : AuthProvider) (s : Settings)
      → validate_provider py provider s ≡ ok tt
      → ProviderIsReal provider s
  provider_lem entra s h = entra_lem s h
  provider_lem generic s h = generic_lem s h

  ready_lem : (s : Settings) → validate_for_production py s ≡ ok tt → IsProductionReady s
  ready_lem s h =
      let url = s.resource_server_url in
      let (u, split, h1) = >>=-eq-ok (parts_of py (py.urlsplit url)) _ h in
      let (_, resource, h2) = >>=-eq-ok (check_production_resource py u) _ h1 in
      let (https, real) =
        refuse_if-eq-ok (not (u.scheme == "https")) production_resource_scheme _ resource in
      let (off, h3) = refuse_if-eq-ok s.oidc_allow_insecure_loopback production_loopback _ h2 in
      let (_, origins, h4) =
        >>=-eq-ok (each (check_production_origin py) s.transport_allowed_origins) _ h3 in
      record {
        resource = real_https url u (parts_of-eq-ok py (py.urlsplit url) u split) (ground arith) (
            refuse_if-passes (is_placeholder_hostname py u.hostname) production_resource_host real);
        no_insecure_loopback = off;
        origins =
            each-eq-ok IsRealHttps (check_production_origin py) check_production_origin-IsRealHttps
              s.transport_allowed_origins origins;
        provider = provider_lem s.auth_provider s h4;
      }

  profile_lem :
      (env : AppEnv) (s : Settings)
      → profile_for py env s ≡ ok tt
      → env ≡ production
      → IsProductionReady s
  profile_lem production s h p = ready_lem s h
  profile_lem development s h p = cc
  profile_lem test s h p = cc
  profile_lem staging s h p = cc

  production_lem :
      (s : Settings)
      → validate_production_profile py s ≡ ok tt
      → s.app_env ≡ production
      → IsProductionReady s
  unfolding validate_production_profile
  production_lem s h p = profile_lem s.app_env s h p

  -- Settings that pass the validator for production have a public URL that is https with a host that
  -- is no placeholder, allowed origins of the same kind and no insecure loopback; with Entra ID, no
  -- identifier is the all-zero UUID or contains it; with a generic provider, the issuer is such a URL
  -- without user, password, query and fragment, and every origin allowed for keys is such a URL that
  -- is just an origin.
  pub settings_of-IsProductionReady :
      (s v : Settings) → settings_of py s ≡ ok v → v.app_env ≡ production → IsProductionReady v
  settings_of-IsProductionReady s v h p = production_lem v (settings_of-Passed py s v h).profile p
