-- ===== src/Settings/Laws.antt =====
-- What holds of URLs, hosts and origins that pass the checks of the validator.
use mcp_server_auth_template.Base.{
  [], sym, All, Bool-cases, List, Option, String, any, arith, eq_iff, false, inl, inr, none, not,
  refl, some, true, ℕ, ◌++◌, ◌==◌, ◌||◌, ◌∷◌, ◌≡◌, ◌⊎◌,
}
use mcp_server_auth_template.Base.Sets.{no_items, contains}
use mcp_server_auth_template.Settings.{
  offline_access_required, out_of_bounds, Python, Settings, SettingsError, UrlParts, allowed_hosts,
  allowed_origins, bad_entry, bad_port, bad_shape, decorated_resource, fields_in_bounds, is_given,
  is_none,
}
use mcp_server_auth_template.Settings.Production.{validate_production_profile}
use mcp_server_auth_template.Settings.Urls.{
  validate_runtime_settings, has_userinfo, check_allowed_host, check_allowed_origin,
  check_host_parts, check_http_host, check_loopback, check_origin_parts, check_port, check_resource,
  has_extras, is_bad_entry, is_not_origin, parts_of, validate_resource_server_transport_url,
  validate_transport_allowlists,
}
use mcp_server_auth_template.Settings.Validation.{
  check_provider_fields, missing_names, normal_tenant, require_matching_provider_fields,
  settings_of, provider_fields,
}
use mcp_server_auth_template.Base.Result.{
  >>=-eq-ok, each, each-eq-ok, ok, refuse_if-eq-ok, refuse_if-passes,
}
use mcp_server_auth_template.Base.Text.{ends_with, is_empty}
use Prim.Native.String
pub mod Passed
pub mod Profile
pub mod Again

module _ {Address : Type 0} (py : Python Address) where
  -- A URL without user, password, query and fragment, of a scheme that keeps the tokens secret: https,
  -- or http to a literal loopback address.
  pub record IsPublicUrl (url : String) : Type 0 where
    pub parts : UrlParts
    pub split : py.urlsplit url ≡ some parts
    pub no_userinfo : has_userinfo parts ≡ false
    pub no_extras : has_extras parts ≡ false
    pub confined :
        (parts.scheme ≡ "https")
        ⊎ ((parts.scheme ≡ "http")
            × (host : String) × (address : Address) × (parts.hostname ≡ some host)
            × (py.ip_address host ≡ some address)
            × (py.is_loopback address ≡ true))

  -- `host[:port]`, and nothing else
  pub record IsHostEntry (host : String) : Type 0 where
    pub parts : UrlParts
    pub split : py.urlsplit (String.◌++◌ "//" host) ≡ some parts
    pub named : is_none parts.hostname ≡ false
    pub no_userinfo : has_userinfo parts ≡ false
    pub no_path : is_empty parts.path ≡ true
    pub no_extras : has_extras parts ≡ false
    pub port_read : (port : Option ℕ) × (parts.port ≡ some port)
    pub closed : ends_with host ":" ≡ false

  -- `scheme://host[:port]`, and nothing else
  pub record IsOrigin (Scheme : String → Type 0) (origin : String) : Type 0 where
    pub parts : UrlParts
    pub split : py.urlsplit origin ≡ some parts
    pub scheme_known : Scheme parts.scheme
    pub named : is_none parts.hostname ≡ false
    pub no_userinfo : has_userinfo parts ≡ false
    pub no_path : is_empty parts.path ≡ true
    pub no_extras : has_extras parts ≡ false
    pub port_read : (port : Option ℕ) × (parts.port ≡ some port)

  abbrev pub IsHttp : String → Type 0
  IsHttp scheme = (scheme ≡ "http") ⊎ (scheme ≡ "https")

  abbrev pub IsVisible : String → Type 0
  IsVisible entry = is_bad_entry entry ≡ false

  -- All that the validator promises of its settings.
  pub record IsServable (s : Settings) : Type 0 where
    pub in_bounds : fields_in_bounds s ≡ true
    pub public_url : IsPublicUrl s.resource_server_url
    pub hosts : All (λ h. IsVisible h × IsHostEntry h) s.transport_allowed_hosts
    pub origins : All (λ o. IsVisible o × IsOrigin IsHttp o) s.transport_allowed_origins
    pub no_offline_access : contains "offline_access" s.required_scopes ≡ false
    pub provider : All (λ field. is_given (field.1) ≡ true) (provider_fields s.auth_provider s)

  pub parts_of-eq-ok : (o : Option UrlParts) (u : UrlParts) → parts_of py o ≡ ok u → o ≡ some u
  parts_of-eq-ok none u h = cc
  parts_of-eq-ok (some v) u h = ground arith

  pub check_port-eq-ok :
      (raised : SettingsError) (p : Option (Option ℕ))
      → check_port py raised p ≡ ok tt
      → (port : Option ℕ) × (p ≡ some port)
  check_port-eq-ok raised none h = cc
  check_port-eq-ok raised (some port) h = (port, refl)

  check_loopback-eq-ok :
      (o : Option Address)
      → check_loopback py o ≡ ok tt
      → (address : Address) × (o ≡ some address) × (py.is_loopback address ≡ true)
  check_loopback-eq-ok none h = cc
  check_loopback-eq-ok (some address) h =
      (address, refl, ground (arith, refuse_if-passes (not (py.is_loopback address)) _ h))

  check_http_host-eq-ok :
      (scheme : String) (o : Option String)
      → check_http_host py scheme o ≡ ok tt
      → (scheme ≡ "http")
        × (host : String) × (address : Address) × (o ≡ some host)
        × (py.ip_address host ≡ some address)
        × (py.is_loopback address ≡ true)
  check_http_host-eq-ok scheme none h = cc
  check_http_host-eq-ok scheme (some host) h = elim (Bool-cases (not (scheme == "http"))) [
    | inl other ↦ cc (rw other at h)
    | inr http ↦
        let (address, read, local) = check_loopback-eq-ok (py.ip_address host) (rw http at h) in
        (ground (arith, eq_iff scheme "http"), host, address, refl, read, local)
  ]

  pub public_url_lem :
      (s : Settings)
      → validate_resource_server_transport_url py s ≡ ok tt
      → IsPublicUrl s.resource_server_url
  unfolding validate_resource_server_transport_url
  public_url_lem s h =
      let (u, split, checked) =
        >>=-eq-ok (parts_of py (py.urlsplit s.resource_server_url)) (check_resource py) h in
      let (plain, rest) =
        refuse_if-eq-ok (has_userinfo u || has_extras u) decorated_resource _ checked in
      record {
        parts = u;
        split = parts_of-eq-ok (py.urlsplit s.resource_server_url) u split;
        no_userinfo = ground arith;
        no_extras = ground arith;
        confined = elim (Bool-cases (u.scheme == "https")) [
          | inl https ↦ inl (ground (arith, eq_iff u.scheme "https"))
          | inr other ↦ inr (check_http_host-eq-ok u.scheme u.hostname (rw other at rest))
        ];
      }

  check_allowed_host-IsHostEntry :
      (host : String) → check_allowed_host py host ≡ ok tt → IsHostEntry host
  unfolding check_allowed_host
  check_allowed_host-IsHostEntry host h =
      let (u, split, checked) =
        >>=-eq-ok (parts_of py (py.urlsplit (String.◌++◌ "//" host))) (check_host_parts py host)
          h in
      let (done, port, shape) =
        >>=-eq-ok (check_port py (bad_port allowed_hosts) u.port) _ checked in
      let good = refuse_if-passes _ (bad_shape allowed_hosts) shape in
      record {
        parts = u;
        split = parts_of-eq-ok (py.urlsplit (String.◌++◌ "//" host)) u split;
        named = ground arith;
        no_userinfo = ground arith;
        no_path = ground arith;
        no_extras = ground arith;
        port_read = check_port-eq-ok (bad_port allowed_hosts) u.port port;
        closed = ground arith;
      }

  -- The tests that both loops over origins share.
  pub origin_lem :
      (Scheme : String → Type 0) (origin : String) (u : UrlParts)
      → py.urlsplit origin ≡ some u
      → ((port : Option ℕ) × (u.port ≡ some port))
      → Scheme u.scheme
      → is_not_origin py u ≡ false
      → IsOrigin Scheme origin
  origin_lem Scheme origin u split port scheme shape = record {
    parts = u;
    split = split;
    scheme_known = scheme;
    named = ground arith;
    no_userinfo = ground arith;
    no_path = ground arith;
    no_extras = ground arith;
    port_read = port;
  }

  check_allowed_origin-IsOrigin :
      (origin : String) → check_allowed_origin py origin ≡ ok tt → IsOrigin IsHttp origin
  unfolding check_allowed_origin
  check_allowed_origin-IsOrigin origin h =
      let (u, split, checked) =
        >>=-eq-ok (parts_of py (py.urlsplit origin)) (check_origin_parts py) h in
      let (done, port, shape) =
        >>=-eq-ok (check_port py (bad_port allowed_origins) u.port) _ checked in
      let good = refuse_if-passes _ (bad_shape allowed_origins) shape in
      origin_lem IsHttp origin u (parts_of-eq-ok (py.urlsplit origin) u split)
        (check_port-eq-ok (bad_port allowed_origins) u.port port)
        (ground (arith, eq_iff u.scheme "http", eq_iff u.scheme "https")) (ground arith)

  any-false :
      (P : String → Type 0) (entries : List String)
      → any is_bad_entry entries ≡ false
      → All P entries
      → All (λ e. IsVisible e × P e) entries
  any-false P [] h p = tt
  any-false P (e ∷ es) h (p, ps) = ((ground arith, p), any-false P es (ground arith) ps)

  pub allowlists_lem :
      (s : Settings)
      → validate_transport_allowlists py s ≡ ok tt
      → All (λ h. IsVisible h × IsHostEntry h) s.transport_allowed_hosts
        × All (λ o. IsVisible o × IsOrigin IsHttp o) s.transport_allowed_origins
  unfolding validate_transport_allowlists
  allowlists_lem s h =
      let (hosts_visible, h1) = refuse_if-eq-ok _ (bad_entry allowed_hosts) _ h in
      let (origins_visible, h2) = refuse_if-eq-ok _ (bad_entry allowed_origins) _ h1 in
      let (done, hosts, origins) =
        >>=-eq-ok (each (check_allowed_host py) s.transport_allowed_hosts) _ h2 in
      (
        any-false IsHostEntry s.transport_allowed_hosts hosts_visible (
            each-eq-ok IsHostEntry (check_allowed_host py) check_allowed_host-IsHostEntry
              s.transport_allowed_hosts hosts),
        any-false (IsOrigin IsHttp) s.transport_allowed_origins origins_visible (
            each-eq-ok (IsOrigin IsHttp) (check_allowed_origin py) check_allowed_origin-IsOrigin
              s.transport_allowed_origins origins),
      )
